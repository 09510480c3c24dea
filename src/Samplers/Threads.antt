-- ===== src/Samplers/Threads.antt =====
-- `_counter_delta` and `normalized_clickhouse_thread_rows` of ch_diag/samplers.py: the rates of the
-- threads of the server between two samples. Times are whole milliseconds, a rate is the fraction
-- whose quotient the code computes, and a counter that a sample leaves out is 0.
pub mod Rates
use ch_diag.Prelude.{Bool, List, Option, String, [], map, max, none, some, ℕ, ◌&&◌, ◌*◌, ◌-◌, ◌∷◌}
use ch_diag.Prelude.Tests.{if◌then◌else◌, leb, nat_eq}

pub record Thread : Type 0 where
  pub thread_name : String
  pub state : String
  pub starttime : ℕ
  pub io_access : Bool
  pub cpu_ticks : ℕ
  pub read_bytes : ℕ
  pub write_bytes : ℕ

pub record Sample : Type 0 where
  pub pid : ℕ
  pub hz : ℕ
  pub threads : List (ℕ × Thread)

pub record Rate : Type 0 where
  pub numerator : ℕ
  pub denominator : ℕ

pub record ThreadRow : Type 0 where
  pub pid : ℕ
  pub tid : ℕ
  pub thread_name : String
  pub state : String
  pub starttime : ℕ
  pub io_access : Bool
  pub cpu_pct : Option Rate
  pub read_bytes_per_sec : Option Rate
  pub write_bytes_per_sec : Option Rate

unfoldable pub counter_delta : ℕ → ℕ → Option ℕ
counter_delta previous current = if leb previous current then some (current - previous) else none

unfoldable pub find_thread : ℕ → List (ℕ × Thread) → Option Thread
find_thread tid [] = none
find_thread tid ((k, t) ∷ rest) = if nat_eq k tid then some t else find_thread tid rest

-- `previous_threads.get(tid) if same_process else None`
unfoldable pub old_thread : Option Sample → ℕ → ℕ → Option Thread
unfolding find_thread
old_thread none pid tid = none
old_thread (some p) pid tid = if nat_eq p.pid pid then find_thread tid p.threads else none

abbrev pub scaled : ℕ → ℕ → Option ℕ → Option Rate
scaled factor per none = none
scaled factor per (some d) = some (record { numerator = factor * d; denominator = per })

-- a thread without rates
abbrev pub plain_row : ℕ → ℕ → Thread → ThreadRow
plain_row pid tid t = record {
  pid = pid;
  tid = tid;
  thread_name = t.thread_name;
  state = t.state;
  starttime = t.starttime;
  io_access = t.io_access;
  cpu_pct = none;
  read_bytes_per_sec = none;
  write_bytes_per_sec = none;
}

-- `seconds`, in milliseconds, is at least one
unfoldable pub add_rates : ℕ → ℕ → Thread → Thread → ThreadRow → ThreadRow
unfolding counter_delta
add_rates hz elapsed old t row =
    let per = max elapsed 1 in
    let io = old.io_access && t.io_access in
    record row {
      cpu_pct = scaled 100000 (max hz 1 * per) (counter_delta old.cpu_ticks t.cpu_ticks);
      read_bytes_per_sec =
          if io then scaled 1000 per (counter_delta old.read_bytes t.read_bytes) else none;
      write_bytes_per_sec =
          if io then scaled 1000 per (counter_delta old.write_bytes t.write_bytes) else none;
    }

unfoldable pub rates_since : ℕ → Option ℕ → Option Thread → Thread → ThreadRow → ThreadRow
unfolding add_rates
rates_since hz elapsed none t row = row
rates_since hz none (some old) t row = row
rates_since hz (some ms) (some old) t row =
    if nat_eq old.starttime t.starttime then add_rates hz ms old t row else row

unfoldable pub thread_row : Option Sample → Sample → Option ℕ → ℕ × Thread → ThreadRow
unfolding old_thread rates_since
thread_row previous current elapsed (tid, t) =
    rates_since current.hz elapsed (old_thread previous current.pid tid) t
      (plain_row current.pid tid t)

-- `sorted(current_threads)`
unfoldable pub insert_thread : ℕ × Thread → List (ℕ × Thread) → List (ℕ × Thread)
insert_thread e [] = e ∷ []
insert_thread e (f ∷ fs) = if leb e.0 f.0 then e ∷ f ∷ fs else f ∷ insert_thread e fs

unfoldable pub sort_threads : List (ℕ × Thread) → List (ℕ × Thread)
unfolding insert_thread
sort_threads [] = []
sort_threads (e ∷ es) = insert_thread e (sort_threads es)

unfoldable pub normalized_clickhouse_thread_rows :
    Option Sample → Sample → Option ℕ → List ThreadRow
unfolding sort_threads thread_row
normalized_clickhouse_thread_rows previous current elapsed =
    map (thread_row previous current elapsed) (sort_threads current.threads)
