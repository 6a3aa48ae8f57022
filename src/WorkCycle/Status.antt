-- ===== src/WorkCycle/Status.antt =====
-- CycleStatus of peoplebot/work_cycle.py and its file, which a rename replaces.
pub mod Laws
use peoplebot_releases.Base.{
  String, Bool, true, false, not, Option, none, some, List, [], ◌∷◌, is_some, if◌then◌else◌,
}
use peoplebot_releases.Base.Result
use peoplebot_releases.Base.Result.{Error, Result, ok, err, value_error, os_error}
use peoplebot_releases.Base.Exec.{Exec, pure, lift, gets, catch, finally, raise_when, ◌>>=◌, ◌>>◌}
use peoplebot_releases.Json.{Value, null, bool, str, obj, field, end, opt_str, stable_json_bytes}
use peoplebot_releases.State.{StateRef}
use peoplebot_releases.Host.{External, Host, World, Files, read_file, without_file}
use peoplebot_releases.Messaging.Message.{identifier}
use peoplebot_releases.WorkCycle.Progress.{optional_state}

pub record CycleStatus : Type 0 where
  pub execution_id : String
  pub code : String
  pub disposition : String
  pub work_invoked : Bool
  pub provider_invoked : Bool
  pub message_state : Option StateRef
  pub reply_state : Option StateRef
  pub memory_state : Option StateRef
  pub progress_state : Option StateRef
  pub handler : Option String
  pub original_code : Option String
  pub original_disposition : Option String
  pub terminal_progress_persisted : Option Bool
  pub status_persisted : Bool

-- CycleStatus(execution_id, code, disposition, False, False): the rest has its defaults.
abbrev pub plain_status : String → String → String → CycleStatus
plain_status execution_id code disposition = record {
  execution_id = execution_id;
  code = code;
  disposition = disposition;
  work_invoked = false;
  provider_invoked = false;
  message_state = none;
  reply_state = none;
  memory_state = none;
  progress_state = none;
  handler = none;
  original_code = none;
  original_disposition = none;
  terminal_progress_persisted = none;
  status_persisted = true;
}

identifier_or_none : Option String → String → Result (Unit {0})
identifier_or_none none label = ok tt
identifier_or_none (some s) label = Result.◌>>◌ (identifier (str s) label) (ok tt)

-- CycleStatus.__post_init__
unfoldable pub cycle_status : CycleStatus → Result CycleStatus
unfolding identifier_or_none
cycle_status s = Result.◌>>◌ (identifier (str s.execution_id) "status execution_id") (
    Result.◌>>◌ (identifier_or_none s.original_code "status original_code") (
      Result.◌>>◌ (identifier_or_none s.original_disposition "status original_disposition") (ok s)))

opt_bool : Option Bool → Value
opt_bool none = null
opt_bool (some b) = bool b

-- CycleStatus.to_dict
unfoldable pub status_dict : CycleStatus → Value
unfolding opt_bool
status_dict s = obj (
    field "code" (str s.code) (
      field "disposition" (str s.disposition) (
        field "execution_id" (str s.execution_id) (
          field "format" (str "peoplebot.work-cycle-status.v0") (
            field "handler" (opt_str s.handler) (
              field "memory_state" (optional_state s.memory_state) (
                field "message_state" (optional_state s.message_state) (
                  field "original_code" (opt_str s.original_code) (
                    field "original_disposition" (opt_str s.original_disposition) (
                      field "progress_state" (optional_state s.progress_state) (
                        field "provider_invoked" (bool s.provider_invoked) (
                          field "reply_state" (optional_state s.reply_state) (
                            field "status_persisted" (bool s.status_persisted) (
                              field "terminal_progress_persisted"
                                (opt_bool s.terminal_progress_persisted)
                                (field "work_invoked" (bool s.work_invoked) end)))))))))))))))

abbrev pub failed_code : Option Bool → String
failed_code (some false) = "cycle.progress_and_status_persist_failed"
failed_code _ = "cycle.status_persist_failed"

abbrev pub or_else : Option String → String → String
or_else none other = other
or_else (some s) other = s

-- What `_persist_terminal_status` returns after an OSError.
unfoldable pub diagnosed : CycleStatus → CycleStatus
diagnosed s = record s {
  code = failed_code s.terminal_progress_persisted;
  disposition = "unresolved";
  original_code = some (or_else s.original_code s.code);
  original_disposition = some (or_else s.original_disposition s.disposition);
  status_persisted = false;
}

module _ {R : Type 0} where
  -- An operation on files that raises OSError or changes them.
  change_files : (World R → Bool) → (Files → Files) → Exec (World R) (Unit {0})
  change_files fails f w =
      if fails w then (err os_error, w) else (ok tt, record w { files = f w.files })

  -- temporary.write_bytes, then os.replace
  replace_by : String → String → String → Exec (World R) (Unit {0})
  unfolding change_files
  replace_by target temporary content = do
    change_files (λ w. w.os.platform.write_fails temporary)
        (λ files. (temporary, content) ∷ without_file temporary files)
    change_files (λ w. w.os.platform.replace_fails temporary)
        (λ files. (target, content) ∷ without_file temporary files)

  -- if temporary.exists(): temporary.unlink()
  clean : String → Exec (World R) (Unit {0})
  clean temporary w =
      let removed =
        change_files (λ v. v.os.platform.unlink_fails temporary) (without_file temporary) w in
      if is_some (read_file temporary w.files) then removed else (ok tt, w)

  unfoldable pub persist_cycle_status : String → CycleStatus → Exec (World R) (Unit {0})
  unfolding change_files replace_by clean
  persist_cycle_status target status = do
    absolute ← gets (λ w. w.os.platform.is_absolute target)
    raise_when (not absolute) (value_error "status path must be absolute")
    change_files (λ w. w.os.platform.mkdir_fails target) (λ files. files)
    temporary ← gets (λ w. w.os.platform.temporary target)
    finally (replace_by target temporary (stable_json_bytes (status_dict status))) (clean temporary)

  -- except OSError
  on_os_error : CycleStatus → Error → Option (Exec (World R) CycleStatus)
  on_os_error status os_error = some (lift (cycle_status (diagnosed status)))
  on_os_error status _ = none

  -- `_persist_terminal_status`
  unfoldable pub persist_terminal_status : String → CycleStatus → Exec (World R) CycleStatus
  unfolding on_os_error
  persist_terminal_status path status =
      catch (do persist_cycle_status path status; pure status) (on_os_error status)
