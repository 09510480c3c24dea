-- ===== src/Collector/Lifecycle/Tracked.antt =====
-- What the variables `ssh` and `adapter` of `_collect` say of the trace of a run.
use ch_diag.Collector.Lifecycle.{
  Context, DatabaseTarget, Endpoint, Event, Opened, adapter_closed, adapter_opened, collected,
  ssh_closed, ssh_opened,
}
use ch_diag.Collector.Lifecycle.Run.{idle}
use ch_diag.Prelude.{Bool, List, [], arith, false, refl, true, ℕ, ◌++◌, ◌+◌, ◌∷◌, ◌≡◌}
use ch_diag.Prelude.Lists.{count_if}

abbrev pub opens_ssh : Event → Bool
opens_ssh ssh_opened = true
opens_ssh _ = false

abbrev pub closes_ssh : Event → Bool
closes_ssh ssh_closed = true
closes_ssh _ = false

abbrev pub opens_adapter : Event → Bool
opens_adapter (adapter_opened e) = true
opens_adapter _ = false

abbrev pub closes_adapter : Event → Bool
closes_adapter adapter_closed = true
closes_adapter _ = false

abbrev pub as_count : Bool → ℕ
as_count false = 0
as_count true = 1

-- What the variables say of the trace while the body runs.
pub record IsTracked (s : Opened) : Type 0 where
  pub opened_ssh : count_if opens_ssh s.trace ≡ as_count s.ssh
  pub opened_adapter : count_if opens_adapter s.trace ≡ as_count s.adapter
  pub closed_ssh : count_if closes_ssh s.trace ≡ 0
  pub closed_adapter : count_if closes_adapter s.trace ≡ 0

pub count_if-append {ℓ} :
    {A : Type ℓ} (p : A → Bool) (xs ys : List A)
    → count_if p (xs ++ ys) ≡ count_if p xs + count_if p ys
count_if-append p [] ys = omega arith
count_if-append p (x ∷ xs) ys = ground (arith, count_if-append p xs ys)

pub IsTracked-idle : IsTracked idle
IsTracked-idle = record {
  opened_ssh = refl;
  opened_adapter = refl;
  closed_ssh = refl;
  closed_adapter = refl;
}

pub ssh_opened-IsTracked :
    (s : Opened)
    → IsTracked s
    → s.ssh ≡ false
    → IsTracked (record s { ssh = true; trace = s.trace ++ (ssh_opened ∷ []) })
ssh_opened-IsTracked s t e = record {
  opened_ssh = ground (arith, count_if-append opens_ssh s.trace (ssh_opened ∷ []), t.opened_ssh, e);
  opened_adapter =
      ground (arith, count_if-append opens_adapter s.trace (ssh_opened ∷ []), t.opened_adapter, e);
  closed_ssh =
      ground (arith, count_if-append closes_ssh s.trace (ssh_opened ∷ []), t.closed_ssh, e);
  closed_adapter =
      ground (arith, count_if-append closes_adapter s.trace (ssh_opened ∷ []), t.closed_adapter, e);
}

pub adapter_opened-IsTracked :
    (s : Opened) (d : Endpoint)
    → IsTracked s
    → s.adapter ≡ false
    → IsTracked (record s { adapter = true; trace = s.trace ++ (adapter_opened d ∷ []) })
adapter_opened-IsTracked s d t e = record {
  opened_ssh =
      ground (arith, count_if-append opens_ssh s.trace (adapter_opened d ∷ []), t.opened_ssh, e);
  opened_adapter =
      ground
        (arith, count_if-append opens_adapter s.trace (adapter_opened d ∷ []), t.opened_adapter, e);
  closed_ssh =
      ground (arith, count_if-append closes_ssh s.trace (adapter_opened d ∷ []), t.closed_ssh, e);
  closed_adapter =
      ground (
        arith,
        count_if-append closes_adapter s.trace (adapter_opened d ∷ []),
        t.closed_adapter,
        e,
      );
}

pub collected-IsTracked :
    (s : Opened) (c : Context) (d : DatabaseTarget)
    → IsTracked s
    → IsTracked (record s { trace = s.trace ++ (collected c d ∷ []) })
collected-IsTracked s c d t = record {
  opened_ssh = ground (arith, count_if-append opens_ssh s.trace (collected c d ∷ []), t.opened_ssh);
  opened_adapter =
      ground (arith, count_if-append opens_adapter s.trace (collected c d ∷ []), t.opened_adapter);
  closed_ssh =
      ground (arith, count_if-append closes_ssh s.trace (collected c d ∷ []), t.closed_ssh);
  closed_adapter =
      ground (arith, count_if-append closes_adapter s.trace (collected c d ∷ []), t.closed_adapter);
}
