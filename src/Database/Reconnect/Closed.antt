-- ===== src/Database/Reconnect/Closed.antt =====
-- A closed adapter.
use ch_diag.Database.Errors.{failure_kind, is_transport_disconnect, other_kind, query_limit_code}
use ch_diag.Database.Reconnect.{execute_with_reconnect, on_failure, retry}
use ch_diag.Database.Session.{
  Adapter, Answer, Driver, Event, Reply, cancel_all, cancelled, close, closed_error, execute_raw,
  threw,
}
use ch_diag.Prelude.{Bool, List, String, [], ap, false, inl, inr, refl, true, ℕ, ◌++◌, ◌∷◌, ◌≡◌}
use ch_diag.Prelude.Lists.{All, All-mono, Any}
use ch_diag.Prelude.Tests.{if_cases}

-- a client of the list is cancelled in the trace
abbrev pub Cancels : List Event → ℕ → Type 0
Cancels trace n = Any (λ ev. ev ≡ cancelled n) trace

close-closed : (a : Adapter) → (close a).closed ≡ true
unfolding close
close-closed a = if_cases (λ (b : Adapter). b.closed ≡ true) a.closed _ _ (λ t. t) (λ f. refl)

Any-append : (P : Event → Type 0) (xs ys : List Event) → Any P ys → Any P (xs ++ ys)
Any-append P [] ys h = h
Any-append P (x ∷ xs) ys h = inr (Any-append P xs ys h)

All-cancelled : (ns : List ℕ) → All (Cancels (cancel_all ns)) ns
All-cancelled [] = tt
All-cancelled (n ∷ ns) = (inl refl, All-mono _ _ ns (λ m h. inr h) (All-cancelled ns))

close-Cancels : (a : Adapter) → a.closed ≡ false → All (Cancels (close a).trace) a.clients
unfolding close
close-Cancels a e =
    if_cases (λ (b : Adapter). All (Cancels b.trace) a.clients) a.closed _ _
      (λ t. absurd (let x : ⊥ = cc (t, e) in x))
      (λ f.
        All-mono _ _ a.clients (λ n h. Any-append _ a.trace (cancel_all a.clients) h)
          (All-cancelled a.clients))

execute_raw-closed :
    (driver : Driver) (sql : String) (a : Adapter)
    → a.closed ≡ true
    → execute_raw driver sql a ≡ (a, threw closed_error)
unfolding execute_raw
execute_raw-closed driver sql a e =
    if_cases (λ (r : Adapter × Reply Answer). r ≡ (a, threw closed_error)) a.closed _ _ (λ t. refl)
      (λ f. absurd (let x : ⊥ = cc (f, e) in x))

-- Closing an open adapter cancels every client that is still registered, and a query of a closed
-- adapter opens no client, changes nothing and raises that the adapter is closed, however many
-- attempts the policy has.
pub close-stops :
    (attempts : ℕ) (delayed : Bool) (driver : Driver) (sql : String) (a : Adapter)
    → a.closed ≡ false
    → All (Cancels (close a).trace) a.clients
      × (execute_with_reconnect attempts delayed driver sql (close a)
          ≡ (close a, threw closed_error))
unfolding execute_with_reconnect is_transport_disconnect failure_kind query_limit_code other_kind
close-stops attempts delayed driver sql a e = (
  close-Cancels a e,
  ap (on_failure is_transport_disconnect (retry attempts driver delayed sql))
      (execute_raw-closed driver sql (close a) (close-closed a)),
)
