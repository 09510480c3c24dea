-- ===== src/Collector/Services.antt =====
-- What the collector calls and does not implement: the database adapter, the host runner, the files
-- of the content pack and the JSON decoder. A call returns, or raises an exception. The redaction of
-- secrets and the sanitizing of sensitive results, substitutions by regular expressions, are
-- functions of the services too.
use ch_diag.Artifact.{Column, Diagnostic, Payload}
use ch_diag.Content.{Query, Script}
use ch_diag.Prelude.{Bool, List, Option, String, none, refl, some, ℕ, ◌≡◌}

pub record Exception : Type 0 where
  pub kind : String
  pub message : String

pub data Call {ℓ} (T : Type ℓ) : Type ℓ where
  raised : Exception → Call T
  returned : T → Call T

infixl 5 ◌>>=◌ ◌>>◌
abbrev pub ◌>>=◌ {ℓ κ} : {A : Type ℓ} {B : Type κ} → Call A → (A → Call B) → Call B
returned a >>= f = f a
raised e >>= f = raised e

abbrev pub ◌>>◌ {ℓ} : {B : Type ℓ} → Call (Unit {0}) → Call B → Call B
m >> k = m >>= λ _. k

pub >>=-eq-returned {ℓ κ} :
    {A : Type ℓ} {B : Type κ} (m : Call A) (f : A → Call B) {b : B}
    → (m >>= f) ≡ returned b
    → (a : A) × (m ≡ returned a) × (f a ≡ returned b)
>>=-eq-returned (returned a) f h = (a, refl, h)
>>=-eq-returned (raised e) f h = cc

abbrev pub exception : String → String → Exception
exception kind message = record { kind = kind; message = message }

-- `mapping[key]` raises `KeyError`
abbrev pub or_key_error {ℓ} : {A : Type ℓ} → String → Option A → Call A
or_key_error k none = raised (exception "KeyError" k)
or_key_error k (some a) = returned a

-- what `DatabaseAdapter.execute_query` returns
pub record Execution : Type 0 where
  pub collection_status : String
  pub reason : Option String
  pub timing_ms : Option ℕ
  pub result : Payload
  pub diagnostics : List Diagnostic
  pub source_text : Option String

pub record CommandResult : Type 0 where
  pub stdout : String
  pub stderr : String
  pub returncode : ℕ
  pub timing_ms : ℕ

-- `run_script` raises `TimeoutError`, or another exception
pub data ScriptRun : Type 0 where
  finished : CommandResult → ScriptRun
  timed_out : String → ℕ → ScriptRun
  failed : Exception → ScriptRun

-- the rows of a `table_json` output, or the message of the `ValueError`
pub data ParsedTable : Type 0 where
  invalid : String → ParsedTable
  table : List Column → List (List String) → ParsedTable

pub record Adapter : Type 0 where
  pub supports_requirements : Query → Call (Bool × Option String)
  pub execute_query : String → Query → Call Execution

pub record HostRunner : Type 0 where
  pub run_script : String → ScriptRun

pub record Services : Type 0 where
  pub adapter : Option Adapter
  pub host_runner : Option HostRunner
  pub read_sql : Option String → Call String
  pub load_script : Script → Call String
  pub parse_table : String → String → ParsedTable
  pub redact : String → String
  pub sanitize : Payload → Payload
