-- ===== src/Tests/Progress.antt =====
-- The theorems of WorkCycle at concrete inputs.
use peoplebot_releases.Base.{
  ◌≡◌, refl, true, none, [], ◌∷◌, is_object_id, is_alphanumeric, is_identifier_code,
}
use peoplebot_releases.Base.Result.{ok, err, type_error}
use peoplebot_releases.Base.Exec.Spec.{Spec}
use peoplebot_releases.Json
use peoplebot_releases.Json.{Value, int, str, arr, obj, nil, cons, field, end, has_keys}
use peoplebot_releases.State.{require_identity}
use peoplebot_releases.WorkCycle.Progress.{
  ReaderProgress, source_cursor, reader_progress, all_differ,
}
use peoplebot_releases.Messaging.Message.{identifier}
use peoplebot_releases.WorkCycle.Progress.Parse.{progress_from}
use peoplebot_releases.WorkCycle.Progress.Parse.Laws.{
  IsWellFormed, is_parse_error, progress_from-IsWellFormed, progress_from-raises,
}
use peoplebot_releases.WorkCycle.Store.{ProgressStore, load, save}
use peoplebot_releases.WorkCycle.Store.Laws.{IsProgressFailure, IsLoaded, load-IsLoaded}
use peoplebot_releases.Base.Exec.Runs.{Effect}
use peoplebot_releases.WorkCycle.Store.Saved.{IsSaved, save-IsSaved}
use peoplebot_releases.Tests.Samples.{commit_a, scripted}

-- Progress with one cursor of the given commit.
abbrev with_commit : Value → Value
with_commit commit = obj (
    field "cursors"
      (arr (
        cons
          (obj (
            field "commit" commit
              (field "ref_name" (str "main") (field "repository" (str "repo") end))))
          nil))
      (field "environment_id" (str "env") (
        field "format" (str "peoplebot.reader-progress.v0")
          (field "instance_id" (str "bob") (field "tasks" (arr nil) end)))))

abbrev read : ReaderProgress
read = record {
  environment_id = "env";
  instance_id = "bob";
  cursors = record { repository = "repo"; ref_name = "main"; commit = commit_a } ∷ [];
  tasks = [];
  reconciliations = [];
}

accepted : progress_from (with_commit (str commit_a)) ≡ ok read
unfolding progress_from has_keys Json.get source_cursor require_identity is_object_id
    reader_progress identifier is_alphanumeric is_identifier_code all_differ
accepted = refl

progress_from-IsWellFormed_example : IsWellFormed read
progress_from-IsWellFormed_example =
    progress_from-IsWellFormed (with_commit (str commit_a)) {p = read} accepted

-- A commit that is a number is no ValueError.
number_commit :
    progress_from (with_commit (int 7)) ≡ err (type_error "expected string or bytes-like object")
unfolding progress_from has_keys Json.get source_cursor require_identity
number_commit = refl

progress_from-raises_example :
    is_parse_error (type_error "expected string or bytes-like object") ≡ true
progress_from-raises_example = progress_from-raises (with_commit (int 7)) number_commit

abbrev progress_branch : ProgressStore
progress_branch = record {
  plumbing = record { checkout = "/work/repo"; repository = "repo" };
  repository = "repo";
  ref_name = "refs/peoplebot/message-readers/v0/bob";
}

load-IsLoaded_example :
    Spec IsProgressFailure (IsLoaded progress_branch) (load scripted progress_branch)
load-IsLoaded_example = load-IsLoaded scripted progress_branch

save-IsSaved_example :
    Effect IsProgressFailure
      (IsSaved scripted progress_branch read "2026-01-02T03:04:05Z" none)
      (save scripted progress_branch read none "2026-01-02T03:04:05Z")
save-IsSaved_example = save-IsSaved scripted progress_branch read "2026-01-02T03:04:05Z" none
