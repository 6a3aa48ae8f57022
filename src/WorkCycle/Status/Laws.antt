-- ===== src/WorkCycle/Status/Laws.antt =====
-- The status file is replaced whole or not at all, and what is returned says which.
use peoplebot_releases.Base.{
  String, ◌≡◌, ◌≢◌, ◌⊎◌, none, some, [], ◌∷◌, ◌==◌, eq_iff, eq_refl, arith, if◌then◌else◌,
}
use peoplebot_releases.Base.Result.{ok, err, os_error}
use peoplebot_releases.Base.Exec.{lift, catch, finally, ◌>>=◌}
use peoplebot_releases.Json.{stable_json_bytes}
use peoplebot_releases.Host.{World, Files, read_file, without_file}
use peoplebot_releases.WorkCycle.Status.{
  CycleStatus, cycle_status, status_dict, persist_cycle_status, persist_terminal_status, diagnosed,
  change_files, replace_by, clean, on_os_error,
}

read-without_file :
    (p q : String) (fs : Files)
    → read_file p (without_file q fs) ≡ (if q == p then none else read_file p fs)
unfolding read_file without_file
read-without_file p q [] = ground arith
read-without_file p q ((r, c) ∷ fs) =
    ground (arith, eq_iff r q, eq_iff r p, eq_iff q p, read-without_file p q fs)

abbrev pub content_of : CycleStatus → String
content_of status = stable_json_bytes (status_dict status)

-- What is left of the files: the target as it was, or with the whole new content.
abbrev IsReplaced : String → String → Files → Files → Type 0
IsReplaced target content before after =
    (read_file target after ≡ some content) ⊎ (read_file target after ≡ read_file target before)

module _ {R : Type 0} where
  replaced :
      (target t c : String) (w : World R)
      → t ≢ target
      → IsReplaced target c w.files (finally (replace_by target t c) (clean t) w).1.files
        × ((finally (replace_by target t c) (clean t) w).0 ≡ ok tt
            → read_file target (finally (replace_by target t c) (clean t) w).1.files ≡ some c)
  unfolding change_files replace_by clean ◌>>=◌ read_file
  replaced target t c w apart =
      let temp : Files = (t, c) ∷ without_file t w.files in
      let new : Files = (target, c) ∷ without_file t temp in
      ground (
        arith,
        eq_iff t target,
        eq_iff target t,
        eq_refl target,
        eq_refl t,
        read-without_file target t w.files,
        read-without_file target t temp,
        read-without_file target t new,
        read-without_file t t temp,
        read-without_file t t w.files,
      )

  -- Whatever calls of the platform fail, after `persist_cycle_status` the target has its old content
  -- or the whole new one, and the new one if no exception was raised; and every file but the target
  -- and the temporary one is as it was.
  pub persist_cycle_status-IsReplaced :
      (target : String) (s : CycleStatus) (w : World R)
      → w.os.platform.temporary target ≢ target
      → IsReplaced target (content_of s) w.files (persist_cycle_status target s w).1.files
        × ((persist_cycle_status target s w).0 ≡ ok tt
            → read_file target (persist_cycle_status target s w).1.files ≡ some (content_of s))
  unfolding persist_cycle_status change_files ◌>>=◌
  persist_cycle_status-IsReplaced target s w apart =
      ground (arith, replaced target (w.os.platform.temporary target) (content_of s) w apart)

module _ {R : Type 0} where
  kept_beside :
      (target t c : String) (w : World R)
      → ((finally (replace_by target t c) (clean t) w).1.repo ≡ w.repo)
        × ((finally (replace_by target t c) (clean t) w).1.os ≡ w.os)
  unfolding change_files replace_by clean ◌>>=◌
  kept_beside target t c w = ground arith

  -- Only files change: repositories and locks are as they were.
  pub persist_cycle_status-kept :
      (target : String) (s : CycleStatus) (w : World R)
      → ((persist_cycle_status target s w).1.repo ≡ w.repo)
        × ((persist_cycle_status target s w).1.os ≡ w.os)
  unfolding persist_cycle_status change_files ◌>>=◌
  persist_cycle_status-kept target s w =
      ground (arith, kept_beside target (w.os.platform.temporary target) (content_of s) w)

pub cycle_status-eq-ok : (s : CycleStatus) {r : CycleStatus} → cycle_status s ≡ ok r → r ≡ s
unfolding cycle_status
cycle_status-eq-ok s h = grind arith

module _ {R : Type 0} where
  -- A status that `_persist_terminal_status` returns is the given one, and then its file holds it
  -- whole, or the diagnostic that says that it is not persisted, after an OSError.
  pub persist_terminal_status-eq-ok :
      (target : String) (s r : CycleStatus) (w : World R)
      → w.os.platform.temporary target ≢ target
      → (persist_terminal_status target s w).0 ≡ ok r
      → ((r ≡ s)
          × (read_file target (persist_terminal_status target s w).1.files ≡ some (content_of s)))
        ⊎ ((r ≡ diagnosed s) × ((persist_cycle_status target s w).0 ≡ err os_error))
  unfolding persist_terminal_status ◌>>=◌ on_os_error catch lift
  persist_terminal_status-eq-ok target s r w apart h = ground (
    arith,
    persist_cycle_status-IsReplaced target s w apart,
    cycle_status-eq-ok (diagnosed s) {r = r},
  )
