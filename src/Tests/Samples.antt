-- ===== src/Tests/Samples.antt =====
-- The inputs of the tests: a Git that gives scripted answers, and a world with it.
use peoplebot_releases.Base.{
  String, ◌<>◌, true, false, none, some, List, [], ◌∷◌, ◌==◌, length, if◌then◌else◌,
}
use peoplebot_releases.Json.{str, null, decimal}
use peoplebot_releases.State.{StateRef}
use peoplebot_releases.Host.{
  External, Host, Outcome, timed_out, answered, finished, loaded, not_json,
}
use peoplebot_releases.Messaging.Message.{Message, MessageFields, task, reply, message_dict}
use peoplebot_releases.Messaging.Store.{MessageStore}
use peoplebot_releases.Messaging.Remote.{OutboundDestination, PeerSource}

abbrev pub commit_a : String
commit_a = "aaaaaaaaaaaaaaaaaaaaaaaaaaaaaaaaaaaaaaaa"

abbrev pub commit_b : String
commit_b = "bbbbbbbbbbbbbbbbbbbbbbbbbbbbbbbbbbbbbbbb"

abbrev pub state_a : StateRef
state_a = record { repository = "repo"; commit = commit_a; path = some "docs/plan.md" }

abbrev pub state_b : StateRef
state_b = record { repository = "repo"; commit = commit_b; path = none }

abbrev pub task_message : Message
task_message = record {
  message_id = "m-1";
  kind = task;
  sender = "alice";
  recipient = "bob";
  task_id = "t-1";
  correlation_id = "c-1";
  purpose = "review";
  content = "Please review.";
  created_at = "2026-01-02T03:04:05Z";
  reply_to = none;
  states = state_a ∷ state_b ∷ [];
}

abbrev pub task_fields : MessageFields
task_fields = record {
  message_id = str "m-1";
  kind = task;
  sender = str "alice";
  recipient = str "bob";
  task_id = str "t-1";
  correlation_id = str "c-1";
  purpose = str "review";
  content = str "Please review.";
  created_at = str "2026-01-02T03:04:05Z";
  reply_to = null;
  states = state_a ∷ state_b ∷ [];
}

abbrev pub reply_message : Message
reply_message = record task_message {
  message_id = "m-2";
  kind = reply;
  sender = "bob";
  recipient = "alice";
  reply_to = some "m-1";
}

-- The answers come in order; a test that needs more gets timeouts.
abbrev pub Script : Type 0
Script = List Outcome

abbrev pub next_answer : Script → Outcome × Script
next_answer [] = (timed_out, [])
next_answer (o ∷ os) = (o, os)

abbrev pub scripted : External
scripted = record {
  Repo = Script;
  run = λ checkout variables arguments input r. next_answer r;
  is_dir = λ checkout r. true;
  prepare = λ checkout reflog operations r. (answered "start: ok" "prepare: ok", r);
  finish = λ command r. (finished (command <> ": ok") 0, r);
  sha256 = λ bytes. decimal (length bytes);
  unix_time = λ t. "1767323045";
  loads = λ s. if s == "task" then loaded (message_dict task_message) else not_json;
}

abbrev pub world_of : Script → Host scripted
world_of script = record {
  repo = script;
  os = record {
    platform = record {
      windows = true;
      is_absolute = λ p. true;
      open_fails = λ p. false;
      lock_fails = λ p. false;
      unlock_fails = λ d. false;
      close_fails = λ d. false;
      read_fails = λ p. false;
      write_fails = λ p. false;
      replace_fails = λ p. false;
      mkdir_fails = λ p. false;
      unlink_fails = λ p. false;
      temporary = λ p. p <> ".tmp";
    };
    held = [];
    next = 3;
  };
  files = [];
}

abbrev pub store : MessageStore
store = record {
  plumbing = record { checkout = "/work/repo"; repository = "repo" };
  repository = "repo";
  ref_name = "refs/heads/peoplebot/messages/v0/alice";
}

abbrev pub destination : OutboundDestination
destination = record {
  repository = "repo";
  remote = "origin";
  expected_url = "https://example.org/repo.git";
  ref_name = "refs/heads/peoplebot/messages/v0/alice";
}

abbrev pub peer : PeerSource
peer = record { endpoint = destination; allowed_senders = "alice" ∷ [] }
