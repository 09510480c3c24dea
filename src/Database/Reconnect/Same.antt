-- ===== src/Database/Reconnect/Same.antt =====
-- The steps of a query, each with what it does to the state of the adapter.
use ch_diag.Database.Errors.{Failure, is_transport_disconnect}
use ch_diag.Database.Reconnect.{
  RuntimeContext, attempt_again, context_sql, database_identity, execute_with_reconnect, is_retried,
  of_reply, on_failure, pause, read_runtime_context, readonly_sql, remember_or_verify, retry,
  seen_version, verify_reconnect_identity,
}
use ch_diag.Database.Reconnect.Moves.{
  >>=-Moves, Confirms, IsStuck, IsVerified, Moves, Moves-mono, Moves-refl, Moves-trans, Sound,
  of_reply-Moves,
}
use ch_diag.Database.Session.{
  Adapter, Answer, Client, Driver, Event, Identity, Reply, Step, Timing, asked, cancels,
  is_out_of_time, check_answer, execute_raw, gave, in_time, late, ran, registered, run_client,
  run_opened, slept, stuck, threw, verify_database_identity,
}
use ch_diag.Prelude.Tests.{if_both}
use ch_diag.Prelude.{
  Bool, List, Option, String, [], append-nil, arith, false, none, refl, some, subst, suc, sym, true,
  zero, ℕ, ◌*◌, ◌++◌, ◌+◌, ◌∷◌, ◌≡◌,
}
use ch_diag.Prelude.Lists.{All, All-append}
use ch_diag.Prelude.Tests.{if◌then◌else◌}

module _ (driver : Driver) (i : Identity) where
  -- what one worker did, and whether it went on to the query
  run_client-IsVerified :
      (c : Client) (n : ℕ) (sql : String)
      → driver n ≡ gave c
      → All (IsVerified driver i) (run_client (some i) c n sql).0
  unfolding run_client
  run_client-IsVerified c n sql e = by_check (check_answer i c.identify) refl
    where
      by_check :
          (r : Reply (Unit {0}))
          → check_answer i c.identify ≡ r
          → All
              (IsVerified driver i)
              (elim r as (λ _. List Event × Reply Answer) [
                | threw e ↦ (asked n ∷ [], threw e)
                | gave done ↦ (asked n ∷ ran n sql ∷ [], c.execute sql)
              ]).0
      by_check (threw x) h = (tt, tt)
      by_check (gave done) h = (tt, (subst (Confirms i) (sym e) h, tt))

  cancels-IsVerified :
      (t : Timing) (r : Reply Answer) (n : ℕ) → All (IsVerified driver i) (cancels t r n)
  cancels-IsVerified t r n =
      if_both (All (IsVerified driver i)) (is_out_of_time t r) _ _ (tt, tt) tt

  registered-IsStuck :
      (c : Client) (n : ℕ) (t : Timing)
      → driver n ≡ gave c
      → c.timing ≡ t
      → All (λ m. IsStuck (driver m)) (registered t n)
  registered-IsStuck c n in_time e h = tt
  registered-IsStuck c n late e h = tt
  registered-IsStuck c n stuck e h = (subst IsStuck (sym e) h, tt)

  run_opened-Moves :
      (c : Client) (sql : String) (a : Adapter)
      → driver a.opened ≡ gave c
      → a.identity ≡ some i
      → Moves driver i 1 a (run_opened c sql a).0
  unfolding run_opened
  run_opened-Moves c sql a h e = record {
    keeps_identity = e;
    same_closed = refl;
    events =
        (run_client a.identity c a.opened sql).0
        ++ cancels c.timing (run_client a.identity c a.opened sql).1 a.opened;
    grows = refl;
    verified =
        All-append (IsVerified driver i) _ _
          (subst (λ o. All (IsVerified driver i) (run_client o c a.opened sql).0) (sym e)
            (run_client-IsVerified c a.opened sql h))
          (cancels-IsVerified c.timing (run_client a.identity c a.opened sql).1 a.opened);
    left = registered c.timing a.opened;
    keeps = refl;
    all_stuck = registered-IsStuck c a.opened c.timing h refl;
    few = omega arith;
  }

  execute_raw-by_client :
      (sql : String) (a : Adapter) (r : Reply Client)
      → driver a.opened ≡ r
      → a.identity ≡ some i
      → Moves driver i 1 a
          (elim r as (λ _. Adapter × Reply Answer) [
            | threw e ↦ (record a { opened = suc a.opened }, threw e)
            | gave c ↦ run_opened c sql a
          ]).0
  execute_raw-by_client sql a (threw x) h e = record {
    keeps_identity = e;
    same_closed = refl;
    events = [];
    grows = sym (append-nil a.trace);
    verified = tt;
    left = [];
    keeps = sym (append-nil a.clients);
    all_stuck = tt;
    few = omega arith;
  }
  execute_raw-by_client sql a (gave c) h e = run_opened-Moves c sql a h e

  pub execute_raw-Moves : (sql : String) → Sound driver i 1 (execute_raw driver sql)
  unfolding execute_raw
  execute_raw-Moves sql = record {
    moves = λ a e.
        by_test a _ _ (execute_raw-by_client sql a (driver a.opened) refl e)
          (Moves-refl driver i 1 a e) a.closed;
  }
    where
      by_test :
          (a : Adapter) (r s : Adapter × Reply Answer)
          → Moves driver i 1 a r.0
          → Moves driver i 1 a s.0
          → (b : Bool) → Moves driver i 1 a (if b then s else r).0
      by_test a r s m n true = n
      by_test a r s m n false = m

  pub read_runtime_context-Moves : Sound driver i 2 (read_runtime_context driver)
  unfolding read_runtime_context
  read_runtime_context-Moves =
      >>=-Moves driver i 1 1 (execute_raw driver context_sql) _ (execute_raw-Moves context_sql)
        λ answer.
          >>=-Moves driver i 0 1 (of_reply (seen_version answer)) _ (of_reply-Moves driver i _)
            λ seen.
              >>=-Moves driver i 1 0 (execute_raw driver readonly_sql) _
                (execute_raw-Moves readonly_sql) λ settings. of_reply-Moves driver i _

  remember_or_verify-Moves : (c : RuntimeContext) → Sound driver i 0 (remember_or_verify c)
  unfolding remember_or_verify
  remember_or_verify-Moves c = record { moves = λ a e. by_identity a a.identity e e }
    where
      by_identity :
          (a : Adapter) (o : Option Identity)
          → o ≡ some i
          → a.identity ≡ some i
          → Moves driver i 0 a
              (elim o as (λ _. Adapter × Reply (Unit {0})) [
                | none ↦ (record a { identity = some (database_identity c) }, gave tt)
                | some expected ↦ (a, verify_database_identity expected (database_identity c))
              ]).0
      by_identity a none h e = absurd (let x : ⊥ = cc h in x)
      by_identity a (some j) h e = Moves-refl driver i 0 a e

  verify_reconnect_identity-Moves : Sound driver i 2 (verify_reconnect_identity driver)
  unfolding verify_reconnect_identity
  verify_reconnect_identity-Moves =
      >>=-Moves driver i 2 0 (read_runtime_context driver) _ read_runtime_context-Moves
        remember_or_verify-Moves

  pub attempt_again-Moves : (sql : String) → Sound driver i 3 (attempt_again driver sql)
  unfolding attempt_again
  attempt_again-Moves sql =
      >>=-Moves driver i 2 1 (verify_reconnect_identity driver) _ verify_reconnect_identity-Moves
        (λ done. execute_raw-Moves sql)

  pause-Moves :
      (delayed : Bool) (a : Adapter) → a.identity ≡ some i → Moves driver i 0 a (pause delayed a)
  pause-Moves false a e = Moves-refl driver i 0 a e
  pause-Moves true a e = record {
    keeps_identity = e;
    same_closed = refl;
    events = slept ∷ [];
    grows = refl;
    verified = (tt, tt);
    left = [];
    keeps = sym (append-nil a.clients);
    all_stuck = tt;
    few = omega arith;
  }

  on_failure-Moves :
      (test : Failure → Bool) (next : Failure → Step Answer) (k l : ℕ) (a : Adapter)
      (r : Adapter × Reply Answer)
      → ((e : Failure) → Sound driver i l (next e))
      → Moves driver i k a r.0
      → Moves driver i (k + l) a (on_failure test next r).0
  on_failure-Moves test next k l a (b, gave answer) h m =
      Moves-mono driver i k (k + l) a b (omega arith) m
  on_failure-Moves test next k l a (b, threw e) h m = by_test (test e)
    where
      by_test :
          (t : Bool)
          → Moves driver i
              (k + l)
              a
              (elim t as (λ _. Adapter × Reply Answer) [ true ↦ next e b | false ↦ (b, threw e) ]).0
      by_test false = Moves-mono driver i k (k + l) a b (omega arith) m
      by_test true = Moves-trans driver i k l a b _ m ((h e).moves b m.keeps_identity)

  retry-Moves :
      (n : ℕ) (delayed : Bool) (sql : String) (last : Failure)
      → Sound driver i (n * 3) (retry n driver delayed sql last)
  unfolding retry
  retry-Moves zero delayed sql last = record { moves = λ a e. Moves-refl driver i _ a e }
  retry-Moves (suc n) delayed sql last = record {
    moves = λ a e.
        let paused = pause-Moves delayed a e in
        Moves-mono driver i (3 + n * 3) (suc n * 3) a _ (omega arith) (
          on_failure-Moves is_retried _ 3 (n * 3) a (attempt_again driver sql (pause delayed a))
            (λ x. retry-Moves n delayed sql x)
            (Moves-trans driver i 0 3 a (pause delayed a) _ paused
              ((attempt_again-Moves sql).moves (pause delayed a) paused.keeps_identity)));
  }

  -- Once the identity of a server is recorded, a query, its retries included, leaves the identity
  -- as it is; every statement that it runs, it runs on a client that has confirmed that identity;
  -- the clients that it leaves registered are stuck; and it opens at most one client and three more
  -- for each attempt.
  pub execute_with_reconnect-Moves :
      (attempts : ℕ) (delayed : Bool) (sql : String) (a : Adapter)
      → a.identity ≡ some i
      → Moves driver i (1 + attempts * 3) a (execute_with_reconnect attempts delayed driver sql a).0
  unfolding execute_with_reconnect
  execute_with_reconnect-Moves attempts delayed sql a e =
      on_failure-Moves is_transport_disconnect _ 1 (attempts * 3) a (execute_raw driver sql a)
        (λ x. retry-Moves attempts delayed sql x) ((execute_raw-Moves sql).moves a e)
