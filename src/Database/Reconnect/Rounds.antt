-- ===== src/Database/Reconnect/Rounds.antt =====
-- When `_execute_with_reconnect` ends: its loop against a relation that counts its rounds.
use ch_diag.Database.Errors.{Failure, is_transport_disconnect}
use ch_diag.Database.Reconnect.{
  RuntimeContext, attempt_again, database_identity, execute_with_reconnect, is_identity_changed,
  is_retried, on_failure, pause, read_runtime_context, remember_or_verify, retry,
  verify_reconnect_identity,
}
use ch_diag.Database.Session.{
  continue, Adapter, Answer, Driver, Identity, Reply, execute_raw, gave, identity_changed,
  same_identity, threw, verify_database_identity,
}
use ch_diag.Prelude.{
  Option, Bool, String, none, some, ◌==◌, ap, arith, false, inl, inr, refl, subst, suc, sym, true,
  zero, ℕ, ◌<◌, ◌≡◌, ◌⊎◌,
}
use ch_diag.Prelude.Lists.{first}
use ch_diag.Prelude.Tests.{Bool-cases}

-- One attempt from the state `a` with its outcome `r`, told by the answers about the runtime context.
-- The query itself runs only where the server is the one that is recorded, or the first one.
pub data Attempted (driver : Driver) (sql : String)
    : Adapter → Adapter × Reply Answer → Type 0 where
  no_answer :
      {a b : Adapter} {e : Failure}
      → read_runtime_context driver a ≡ (b, threw e)
      → Attempted driver sql a (b, threw e)
  other_server :
      {a b : Adapter} {c : RuntimeContext} {i : Identity}
      → read_runtime_context driver a ≡ (b, gave c)
      → b.identity ≡ some i
      → same_identity i (database_identity c) ≡ false
      → Attempted driver sql a (b, threw identity_changed)
  same_server :
      {a b : Adapter} {c : RuntimeContext} {i : Identity} {r : Adapter × Reply Answer}
      → read_runtime_context driver a ≡ (b, gave c)
      → b.identity ≡ some i
      → same_identity i (database_identity c) ≡ true
      → execute_raw driver sql b ≡ r
      → Attempted driver sql a r
  first_server :
      {a b : Adapter} {c : RuntimeContext} {r : Adapter × Reply Answer}
      → read_runtime_context driver a ≡ (b, gave c)
      → b.identity ≡ none
      → execute_raw driver sql (record b { identity = some (database_identity c) }) ≡ r
      → Attempted driver sql a r

-- a disconnection that is no change of identity
abbrev pub IsLost : Failure → Type 0
IsLost e =
    ((e.type_name == "ClickHouseIdentityChangedError") ≡ false) × (is_transport_disconnect e ≡ true)

-- From the state `a`, with the last exception `e`, so many attempts lost the connection, and the
-- last of them left the state `b` and the exception `e'`.
pub data Rounds (driver : Driver) (delayed : Bool) (sql : String)
    : ℕ → Adapter → Failure → Adapter → Failure → Type 0 where
  begin : {a : Adapter} {e : Failure} → Rounds driver delayed sql 0 a e a e
  again :
      {k : ℕ} {a b c : Adapter} {e e' e'' : Failure}
      → Attempted driver sql (pause delayed a) (b, threw e')
      → IsLost e'
      → Rounds driver delayed sql k b e' c e''
      → Rounds driver delayed sql (suc k) a e c e''

-- an outcome after which there is no attempt
abbrev pub Stops : (Failure → Type 0) → Adapter × Reply Answer → Type 0
Stops Lost (b, gave answer) = Unit
Stops Lost (b, threw e) = ¬ Lost e

-- either every attempt was made, and the last exception comes out, or the attempt after fewer
-- rounds was the last one, and its result comes out
abbrev pub Ends : Driver → Bool → String → ℕ → Adapter → Failure → Adapter × Reply Answer → Type 0
Ends driver delayed sql n a e r =
    (k : ℕ) × (b : Adapter) × (e' : Failure) × (Rounds driver delayed sql k a e b e')
    × (((k ≡ n) × (r ≡ (b, threw e')))
        ⊎ ((k < n) × Attempted driver sql (pause delayed b) r × Stops IsLost r))

is_retried-IsLost : (e : Failure) → is_retried e ≡ true → IsLost e
unfolding is_retried
is_retried-IsLost e h = elim (Bool-cases (is_identity_changed e)) [
  | inl k ↦ absurd (let x : ⊥ = cc (rw k at h) in x)
  | inr k ↦ (k, rw k at h)
]

is_retried-stops : (e : Failure) → is_retried e ≡ false → ¬ IsLost e
unfolding is_retried
is_retried-stops e h (k, t) = let x : ⊥ = cc (rw (k, t) at h) in x

-- the identity of the server is compared, or recorded, before the query
verified-Attempted :
    (driver : Driver) (sql : String) (a b : Adapter) (c : RuntimeContext)
    → read_runtime_context driver a ≡ (b, gave c)
    → Attempted driver sql a (continue (remember_or_verify c b) (λ u. execute_raw driver sql))
unfolding remember_or_verify verify_database_identity
verified-Attempted driver sql a b c h = by_identity b.identity refl
  where
    Outcome : Adapter × Reply (Unit {0}) → Type 0
    Outcome r = Attempted driver sql a (continue r (λ u. execute_raw driver sql))

    by_identity :
        (o : Option Identity)
        → b.identity ≡ o
        → Outcome (elim o as (λ _. Adapter × Reply (Unit {0})) [
          | none ↦ (record b { identity = some (database_identity c) }, gave tt)
          | some expected ↦ (b, verify_database_identity expected (database_identity c))
        ])
    by_identity none e = first_server h e refl
    by_identity (some i) e = elim (Bool-cases (same_identity i (database_identity c))) [
      | inl same ↦ rw same (same_server h e same refl)
      | inr other ↦ rw other (other_server h e other)
    ]

attempt_again-Attempted :
    (driver : Driver) (sql : String) (a : Adapter)
    → Attempted driver sql a (attempt_again driver sql a)
unfolding attempt_again verify_reconnect_identity
attempt_again-Attempted driver sql a = by_context (read_runtime_context driver a) refl
  where
    by_context :
        (r : Adapter × Reply RuntimeContext)
        → read_runtime_context driver a ≡ r
        → Attempted driver sql a
            (continue (continue r (λ c. remember_or_verify c)) (λ u. execute_raw driver sql))
    by_context (b, threw e) h = no_answer h
    by_context (b, gave c) h = verified-Attempted driver sql a b c h

module _ (driver : Driver) (delayed : Bool) (sql : String) where
  retry-Ends :
      (n : ℕ) (e : Failure) (a : Adapter)
      → Ends driver delayed sql n a e (retry n driver delayed sql e a)
  unfolding retry
  retry-Ends zero e a = (0, a, e, begin, inl (refl, refl))
  retry-Ends (suc n) e a =
      by_attempt (λ x b. retry-Ends n x b) (attempt_again driver sql (pause delayed a))
        (attempt_again-Attempted driver sql (pause delayed a))
    where
      later :
          (x : Failure) (b : Adapter) (r : Adapter × Reply Answer)
          → Attempted driver sql (pause delayed a) (b, threw x)
          → is_retried x ≡ true
          → Ends driver delayed sql n b x r
          → Ends driver delayed sql (suc n) a e r
      later x b r h t (k, c, y, rounds, inl (full, out)) =
          (suc k, c, y, again h (is_retried-IsLost x t) rounds, inl (ap suc full, out))
      later x b r h t (k, c, y, rounds, inr (less, out, stops)) =
          (suc k, c, y, again h (is_retried-IsLost x t) rounds, inr (omega arith, out, stops))

      by_attempt :
          ((x : Failure) (b : Adapter)
            → Ends driver delayed sql n b x (retry n driver delayed sql x b))
          → (r : Adapter × Reply Answer) → Attempted driver sql (pause delayed a) r
          → Ends driver delayed sql
              (suc n)
              a
              e
              (on_failure is_retried (retry n driver delayed sql) r)
      by_attempt ih (b, gave answer) h = (0, a, e, begin, inr (omega arith, h, tt))
      by_attempt ih (b, threw x) h = elim (Bool-cases (is_retried x)) [
        | inl t ↦
            subst (Ends driver delayed sql (suc n) a e) (sym (retried t)) (later x b _ h t (ih x b))
        | inr t ↦
            subst (Ends driver delayed sql (suc n) a e) (sym (stopped t))
              (0, a, e, begin, inr (omega arith, h, is_retried-stops x t))
      ]
        where
          retried :
              is_retried x ≡ true
              → on_failure is_retried (retry n driver delayed sql) (b, threw x)
                ≡ retry n driver delayed sql x b
          retried t = rw (t, on_failure) refl

          stopped :
              is_retried x ≡ false
              → on_failure is_retried (retry n driver delayed sql) (b, threw x) ≡ (b, threw x)
          stopped t = rw (t, on_failure) refl

  -- what a query comes to: the first call, or the loop after a disconnection
  abbrev pub Settles : ℕ → Adapter → Adapter × Reply Answer → Adapter × Reply Answer → Type 0
  Settles n a first r =
      ((first ≡ r) × Stops (λ e. is_transport_disconnect e ≡ true) r)
      ⊎ ((b : Adapter) × (e : Failure) × (first ≡ (b, threw e))
          × (is_transport_disconnect e ≡ true)
          × Ends driver delayed sql n b e r)

  -- A query comes out with the result of its first call, unless that raised a disconnection. Then
  -- it is tried again. Each attempt asks for the runtime context of the server, and runs the query
  -- only if that is the recorded identity, or none is recorded. The attempts before the last one
  -- raised disconnections that are no change of identity, there are at most as many attempts as the
  -- policy has, and the query comes out with the result of the last one.
  pub execute_with_reconnect-Settles :
      (n : ℕ) (a : Adapter)
      → Settles n a (execute_raw driver sql a) (execute_with_reconnect n delayed driver sql a)
  unfolding execute_with_reconnect
  execute_with_reconnect-Settles n a = by_call (execute_raw driver sql a) refl
    where
      by_call :
          (r : Adapter × Reply Answer)
          → execute_raw driver sql a ≡ r
          → Settles n a
              (execute_raw driver sql a)
              (on_failure is_transport_disconnect (retry n driver delayed sql) r)
      by_call (b, gave answer) h = inl (h, tt)
      by_call (b, threw e) h = elim (Bool-cases (is_transport_disconnect e)) [
        | inl t ↦
            subst (Settles n a (execute_raw driver sql a)) (sym (retried t))
              (inr (b, e, h, t, retry-Ends n e b))
        | inr t ↦
            subst (Settles n a (execute_raw driver sql a)) (sym (stopped t))
              (inl (h, (λ k. let x : ⊥ = cc (k, t) in x)))
      ]
        where
          retried :
              is_transport_disconnect e ≡ true
              → on_failure is_transport_disconnect (retry n driver delayed sql) (b, threw e)
                ≡ retry n driver delayed sql e b
          retried t = rw (t, on_failure) refl

          stopped :
              is_transport_disconnect e ≡ false
              → on_failure is_transport_disconnect (retry n driver delayed sql) (b, threw e)
                ≡ (b, threw e)
          stopped t = rw (t, on_failure) refl
