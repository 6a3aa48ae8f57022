-- ===== src/Host.antt =====
-- What the program runs on. Git, with its repositories and remotes, is a parameter, and so are the
-- digest, the JSON parser and the conversion of times to floats. The files and the locks of the
-- operating system are written out.
use peoplebot_releases.Base.{
  ℕ, String, Bool, not, Option, none, some, List, [], ◌∷◌, ◌==◌, keep, if◌then◌else◌,
}
use peoplebot_releases.Base.Exec.{Exec}
use peoplebot_releases.Base.Result.{Error, ok, raised}
use peoplebot_releases.Json.{Value}
use peoplebot_releases.Execution.Timestamp.{Datetime}
use peoplebot_releases.Admission.Identity.{Bytes}

-- subprocess.run: a completed process with its exit status and decoded standard output, or
-- FileNotFoundError, or TimeoutExpired, or another OSError. Of an exit status the code asks for 0 and
-- 1 alone.
pub data Outcome : Type 0 where
  completed : ℕ → String → Outcome
  not_found timed_out os_failed : Outcome

-- The answer to "start" and "prepare" of `git update-ref --stdin`: the two status lines, or
-- FileNotFoundError, or another OSError of the start, or no line in time, or a broken pipe.
pub data Prepared : Type 0 where
  answered : String → String → Prepared
  no_git no_start silent broken : Prepared

-- The answer to "commit" or "abort": the status line and the exit status, or no line in time, or a
-- broken pipe.
pub data Finished : Type 0 where
  finished : String → ℕ → Finished
  unanswered cut_off : Finished

-- json.loads: a value, or JSONDecodeError or UnicodeDecodeError, or another ValueError (a number of
-- too many digits), or RecursionError.
pub data Loaded : Type 0 where
  loaded : Value → Loaded
  not_json refused too_deep : Loaded

abbrev pub recursion_error : Error
recursion_error = raised "builtins.RecursionError"

-- `run` has the checkout, the variables added to the environment, the arguments and the input.
-- `prepare` sends operations to a new transaction on the references, `finish` ends it by "commit" or
-- "abort".
-- `sha256` is hashlib's hexadecimal digest, `unix_time` the text of int(datetime.timestamp()), and
-- `loads` is json.loads.
pub record External : Type 1 where
  pub Repo : Type 0
  pub run : String → List (String × String) → List String → String → Repo → Outcome × Repo
  pub is_dir : String → Repo → Bool
  pub prepare : String → String → List String → Repo → Prepared × Repo
  pub finish : String → Repo → Finished × Repo
  pub sha256 : Bytes → String
  pub unix_time : Datetime → String
  pub loads : String → Loaded

-- Files by their path, the last write first.
abbrev pub Files : Type 0
Files = List (String × String)

unfoldable pub read_file : String → Files → Option String
read_file path [] = none
read_file path ((p, content) ∷ files) = if p == path then some content else read_file path files

-- The calls of the operating system that fail, for whatever reason, beside the contention that the
-- held locks show; which paths are absolute; and the path of a temporary file beside a file.
pub record Platform : Type 0 where
  pub windows : Bool
  pub is_absolute : String → Bool
  pub open_fails : String → Bool
  pub lock_fails : String → Bool
  pub unlock_fails : ℕ → Bool
  pub close_fails : ℕ → Bool
  pub read_fails : String → Bool
  pub write_fails : String → Bool
  pub replace_fails : String → Bool
  pub mkdir_fails : String → Bool
  pub unlink_fails : String → Bool
  -- path.with_name(f".{path.name}.tmp")
  pub temporary : String → String

-- Path.unlink
unfoldable pub without_file : String → Files → Files
without_file path = keep (λ (p, _). not (p == path))

-- The byte-range locks that are held, a resource with the descriptor that owns it, and the next
-- descriptor.
pub record Os : Type 0 where
  pub platform : Platform
  pub held : List (String × ℕ)
  pub next : ℕ

pub record World (R : Type 0) : Type 0 where
  pub repo : R
  pub os : Os
  pub files : Files

module _ (X : External) where
  abbrev pub Host : Type 0
  Host = World X.Repo

  -- One invocation of Git.
  unfoldable pub run_command :
      String → List (String × String) → List String → String → Exec Host Outcome
  run_command checkout variables arguments input w =
      let (out, repo) = X.run checkout variables arguments input w.repo in
      (ok out, record w { repo = repo })

  unfoldable pub prepare_refs : String → String → List String → Exec Host Prepared
  prepare_refs checkout message operations w =
      let (out, repo) = X.prepare checkout message operations w.repo in
      (ok out, record w { repo = repo })

  unfoldable pub finish_refs : String → Exec Host Finished
  finish_refs command w =
      let (out, repo) = X.finish command w.repo in (ok out, record w { repo = repo })

  unfoldable pub checkout_exists : String → Host → Bool
  checkout_exists checkout w = X.is_dir checkout w.repo
