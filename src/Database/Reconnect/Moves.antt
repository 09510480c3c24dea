-- ===== src/Database/Reconnect/Moves.antt =====
-- What a step of the adapter does to its state once the identity of the server is recorded.
use mathlib.Core.List.{append_assoc}
use ch_diag.Database.Reconnect.{of_reply}
use ch_diag.Database.Session.{
  Adapter, Client, Driver, Event, Identity, Reply, Step, asked, cancelled, check_answer, continue,
  gave, ran, slept, stuck, threw, ◌>>=◌,
}
use ch_diag.Prelude.{List, [], ap, append-nil, arith, refl, some, sym, ℕ, ◌++◌, ◌+◌, ◌∙◌, ◌≡◌, ◌≤◌}
use ch_diag.Prelude.Lists.{All, All-append}

-- the client of this number exists, and its own answer about the identity agrees with the recorded
-- one
abbrev pub Confirms : Identity → Reply Client → Type 0
Confirms i (threw e) = ⊥
Confirms i (gave c) = check_answer i c.identify ≡ gave tt

abbrev pub IsStuck : Reply Client → Type 0
IsStuck (threw e) = ⊥
IsStuck (gave c) = c.timing ≡ stuck

abbrev pub IsVerified : Driver → Identity → Event → Type 0
IsVerified driver i (ran n sql) = Confirms i (driver n)
IsVerified driver i (asked n) = Unit
IsVerified driver i (cancelled n) = Unit
IsVerified driver i slept = Unit

-- the identity stays; what is new in the trace is verified, the clients that are new are stuck, and
-- at most so many were opened
pub record Moves (driver : Driver) (i : Identity) (k : ℕ) (a b : Adapter) : Type 0 where
  pub keeps_identity : b.identity ≡ some i
  pub same_closed : b.closed ≡ a.closed
  pub events : List Event
  pub grows : b.trace ≡ a.trace ++ events
  pub verified : All (IsVerified driver i) events
  pub left : List ℕ
  pub keeps : b.clients ≡ a.clients ++ left
  pub all_stuck : All (λ n. IsStuck (driver n)) left
  pub few : b.opened ≤ a.opened + k

-- the step, from any state with the identity
pub record Sound {ℓ} (driver : Driver) (i : Identity) {A : Type ℓ} (k : ℕ) (m : Step A)
    : Type 0 where
  pub moves : (a : Adapter) → a.identity ≡ some i → Moves driver i k a (m a).0

module _ (driver : Driver) (i : Identity) where
  pub Moves-refl : (k : ℕ) (a : Adapter) → a.identity ≡ some i → Moves driver i k a a
  Moves-refl k a e = record {
    keeps_identity = e;
    same_closed = refl;
    events = [];
    grows = sym (append-nil a.trace);
    verified = tt;
    left = [];
    keeps = sym (append-nil a.clients);
    all_stuck = tt;
    few = omega arith;
  }

  pub Moves-trans :
      (k l : ℕ) (a b c : Adapter)
      → Moves driver i k a b
      → Moves driver i l b c
      → Moves driver i (k + l) a c
  Moves-trans k l a b c m n = record {
    keeps_identity = n.keeps_identity;
    same_closed = n.same_closed ∙ m.same_closed;
    events = m.events ++ n.events;
    grows =
        n.grows
        ∙ (ap (λ (t : List Event). t ++ n.events) m.grows ∙ append_assoc a.trace m.events n.events);
    verified = All-append (IsVerified driver i) m.events n.events m.verified n.verified;
    left = m.left ++ n.left;
    keeps =
        n.keeps ∙ (ap (λ (t : List ℕ). t ++ n.left) m.keeps ∙ append_assoc a.clients m.left n.left);
    all_stuck = All-append (λ n. IsStuck (driver n)) m.left n.left m.all_stuck n.all_stuck;
    few = let x = m.few in let y = n.few in omega arith;
  }

  pub Moves-mono : (k l : ℕ) (a b : Adapter) → k ≤ l → Moves driver i k a b → Moves driver i l a b
  Moves-mono k l a b le m = record {
    keeps_identity = m.keeps_identity;
    same_closed = m.same_closed;
    events = m.events;
    grows = m.grows;
    verified = m.verified;
    left = m.left;
    keeps = m.keeps;
    all_stuck = m.all_stuck;
    few = let x = m.few in omega arith;
  }

  continue-Moves {ℓ κ} :
      {A : Type ℓ} {B : Type κ} (k l : ℕ) (f : A → Step B) (a : Adapter) (r : Adapter × Reply A)
      → ((x : A) → Sound driver i l (f x))
      → Moves driver i k a r.0
      → Moves driver i (k + l) a (continue r f).0
  continue-Moves k l f a (b, gave x) h m =
      Moves-trans k l a b (f x b).0 m ((h x).moves b m.keeps_identity)
  continue-Moves k l f a (b, threw e) h m = Moves-mono k (k + l) a b (omega arith) m

  pub >>=-Moves {ℓ κ} :
      {A : Type ℓ} {B : Type κ} (k l : ℕ) (m : Step A) (f : A → Step B)
      → Sound driver i k m
      → ((x : A) → Sound driver i l (f x))
      → Sound driver i (k + l) (m >>= f)
  >>=-Moves k l m f hm hf = record { moves = λ a e. continue-Moves k l f a (m a) hf (hm.moves a e) }

  pub of_reply-Moves {ℓ} : {A : Type ℓ} (r : Reply A) → Sound driver i 0 (of_reply r)
  of_reply-Moves r = record { moves = λ a e. Moves-refl 0 a e }
