-- ===== src/Provenance/Plumbing.antt =====
-- The Git objects of GitAttemptStore in peoplebot/provenance.py.
pub mod Laws
use peoplebot_releases.Base.{
  String, ◌<>◌, not, ◌||◌, List, [], ◌∷◌, ◌++◌, eqb, strip, is_object_id, any,
}
use peoplebot_releases.Base.Result.{
  Error, Result, value_error, provenance_error, os_error, raise_if,
}
use peoplebot_releases.Base.Result
use peoplebot_releases.Base.Exec.{Exec, pure, raise, lift, gets, raise_when, ◌>>=◌, ◌>>◌}
use peoplebot_releases.Json.{str}
use peoplebot_releases.State.Resolve.{Completed, git_global_options}
use peoplebot_releases.Execution.{require_text}
use peoplebot_releases.Execution.Timestamp.{utc_timestamp}
use peoplebot_releases.Host.{
  External, Host, Outcome, completed, not_found, timed_out, os_failed, run_command, checkout_exists,
}

-- GitAttemptStore with its default of 15 seconds.
pub record AttemptStore : Type 0 where
  pub checkout : String
  pub repository : String

module _ (X : External) where
  -- GitAttemptStore(checkout, repository)
  unfoldable pub attempt_store : String → String → Exec (Host X) AttemptStore
  attempt_store checkout repository = do
    lift (require_text repository "repository")
    there ← gets (checkout_exists X checkout)
    raise_when (not there)
        (provenance_error "repository.unavailable" "checkout directory does not exist")
    pure (record { checkout = checkout; repository = repository })

  git_outcome : Outcome → Exec (Host X) Completed
  git_outcome (completed code out) = pure (record { returncode = code; stdout = out })
  git_outcome not_found = raise (provenance_error "git.unavailable" "Git executable was not found")
  git_outcome timed_out = raise (provenance_error "git.timeout" "Git operation exceeded 15 seconds")
  git_outcome os_failed = raise os_error

  -- GitAttemptStore._git
  unfoldable pub git :
      AttemptStore → List (String × String) → List String → String → Exec (Host X) Completed
  unfolding git_outcome
  git store variables arguments input = do
    out ←
        run_command X store.checkout variables
          (git_global_options
            ++ "-C" ∷ store.checkout ∷ "-c" ∷ "core.hooksPath=/dev/null" ∷ arguments)
          input
    git_outcome out

  -- A command that gets no input and no variables.
  abbrev pub git_plain : AttemptStore → List String → Exec (Host X) Completed
  git_plain store arguments = git store [] arguments ""

-- GitAttemptStore._object_id
unfoldable pub object_id : {S : Type 0} → Completed → String → Exec S String
object_id result operation = do
  raise_when (not (eqb result.returncode 0) || not (is_object_id (strip result.stdout)))
      (provenance_error "provenance.persistence_failed" ("Git could not " <> operation))
  pure (strip result.stdout)

abbrev parent_arguments : List String → List String
parent_arguments [] = []
parent_arguments (p ∷ ps) = "-p" ∷ p ∷ parent_arguments ps

module _ (X : External) where
  -- GitAttemptStore._write_blob
  unfoldable pub write_blob : AttemptStore → String → Exec (Host X) String
  write_blob store content = do
    result ← git X store [] ("hash-object" ∷ "-w" ∷ "--stdin" ∷ "--no-filters" ∷ []) content
    object_id result "write the evidence blob"

  -- A tree of one file, as the message and progress stores write it by `mktree`.
  unfoldable pub write_single : AttemptStore → String → String → String → Exec (Host X) String
  write_single store name blob operation = do
    result ← git X store [] ("mktree" ∷ []) ("100644 blob " <> blob <> "\t" <> name <> "\n")
    object_id result operation

  -- GitAttemptStore._commit_date
  unfoldable pub commit_date : String → Result String
  commit_date timestamp =
      Result.◌>>=◌ (utc_timestamp (str timestamp) "record timestamp")
        (λ parsed. Result.ok ("@" <> X.unix_time parsed <> " +0000"))

  -- GitAttemptStore._write_commit
  unfoldable pub write_commit :
      AttemptStore → String → List String → String → String → Exec (Host X) String
  write_commit store tree parents timestamp message = do
    date ← lift (commit_date timestamp)
    raise_when (any (λ p. not (is_object_id p)) parents)
        (value_error "evidence parent must be a commit object ID")
    result ←
        git X store
          (("GIT_AUTHOR_NAME", "PeopleBot")
            ∷ ("GIT_AUTHOR_EMAIL", "peoplebot@invalid")
            ∷ ("GIT_AUTHOR_DATE", date)
            ∷ ("GIT_COMMITTER_NAME", "PeopleBot")
            ∷ ("GIT_COMMITTER_EMAIL", "peoplebot@invalid")
            ∷ ("GIT_COMMITTER_DATE", date)
            ∷ [])
          ("-c" ∷ "commit.gpgsign=false" ∷ "commit-tree" ∷ tree ∷ parent_arguments parents)
          (message <> "\n")
    object_id result "write the evidence commit"
