-- ===== src/Cli/Exit.antt =====
-- `_collection_exit_status` of ch_diag/cli.py, and the codes of the machine interface: `_run_machine`
-- and `EXIT_CODES` of ch_diag/orchestration.py.
pub mod Completed
use ch_diag.Artifact.{Artifact, is_failed, values}
use ch_diag.Prelude.{Bool, List, Option, String, [], false, none, some, true, ℕ, ◌&&◌, ◌||◌, ◌∷◌}
use ch_diag.Prelude.Lists.{any, elem}
use ch_diag.Prelude.Tests.{if◌then◌else◌, nat_eq}

abbrev pub is_incomplete : Option String → Bool
is_incomplete none = false
is_incomplete (some s) = elem s ("partial" ∷ "failed" ∷ [])

abbrev pub is_missing : Option String → Bool
is_missing none = true
is_missing (some s) = false

unfoldable pub artifact_fails : Artifact → Bool
unfolding is_failed
artifact_fails a =
    is_incomplete a.completion_status
    || (is_missing a.completion_status && any is_failed (values a.items))

unfoldable pub collection_exit_status : List Artifact → ℕ
unfolding artifact_fails
collection_exit_status [] = 0
collection_exit_status (a ∷ rest) =
    let others = collection_exit_status rest in if artifact_fails a then 1 else others

-- how a command ends: with an exit code, interrupted, or with an exception that `_run_machine`
-- handles, a `ContentIntegrityError` or another
pub data Ending : Type 0 where
  exited : ℕ → Ending
  interrupted integrity_error other_error : Ending

pub data Command : Type 0 where
  validate validate_file one_shot_command snapshots_command other_command : Command

abbrev pub validates : Command → Bool
validates validate = true
validates validate_file = true
validates one_shot_command = false
validates snapshots_command = false
validates other_command = false

abbrev pub collects : Command → Bool
collects one_shot_command = true
collects snapshots_command = true
collects validate = false
collects validate_file = false
collects other_command = false

-- `EXIT_CODES`, of the codes that `_run_machine` uses
pub data Code : Type 0 where
  success validation_error partial execution_error cancelled : Code

abbrev pub exit_code : Code → ℕ
exit_code success = 0
exit_code validation_error = 2
exit_code partial = 5
exit_code execution_error = 6
exit_code cancelled = 7

-- the code of a command that exits, and whether there are artifacts on disk
unfoldable pub exited_code : Command → ℕ → Bool → Code
exited_code command n has_artifacts =
    if nat_eq n 0
    then success
    else if validates command || nat_eq n 2
    then validation_error
    else if collects command && has_artifacts
    then partial
    else execution_error

unfoldable pub machine_code : Command → Ending → Bool → Code
unfolding exited_code
machine_code command (exited n) has_artifacts = exited_code command n has_artifacts
machine_code command interrupted has_artifacts = cancelled
machine_code command integrity_error has_artifacts = validation_error
machine_code command other_error has_artifacts =
    if validates command then validation_error else execution_error

-- the status of the envelope
abbrev pub machine_status : Code → String
machine_status success = "succeeded"
machine_status validation_error = "failed"
machine_status partial = "partial"
machine_status execution_error = "failed"
machine_status cancelled = "cancelled"
