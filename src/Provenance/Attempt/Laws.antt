-- ===== src/Provenance/Attempt/Laws.antt =====
-- What binds a terminal record to its start.
use peoplebot_releases.Base.{String, codes, ◌≡◌, ◌↔◌, refl, true, List, [], ◌∷◌, arith, eq_iff}
use peoplebot_releases.Base.Result.{ok}
use peoplebot_releases.State.{StateRef}
use peoplebot_releases.State.Laws.{same_state_iff}
use peoplebot_releases.Execution.{ExecutionRecord}
use peoplebot_releases.Admission.Identity.Injective.{AreShort, frames-injective, prefix_cancel}
use peoplebot_releases.Admission.Identity.{utf8, frames}
use peoplebot_releases.Provenance.Attempt.{
  ExecutionStart, attempt_input, same_states, mismatch, validate_terminal_binding,
}

pub same_states_iff : (ss ts : List StateRef) → (same_states ss ts ≡ true) ↔ (ss ≡ ts)
unfolding same_states
same_states_iff [] [] = ground arith
same_states_iff [] (t ∷ ts) = ground arith
same_states_iff (s ∷ ss) [] = ground arith
same_states_iff (s ∷ ss) (t ∷ ts) = ground (arith, same_state_iff s t, same_states_iff ss ts)

-- The inputs of a record, as the start of its Execution.
abbrev pub start_of : ExecutionRecord → ExecutionStart
start_of r = record {
  execution_id = r.execution_id;
  environment_id = r.environment_id;
  instance_id = r.instance_id;
  objective = r.objective;
  started_at = r.started_at;
  starting_state = r.starting_state;
  blueprint = r.blueprint;
  adapter = r.adapter;
  procedures = r.procedures;
  input_states = r.input_states;
  input_messages = r.input_messages;
}

-- A terminal record is accepted exactly if its inputs are those of the start.
pub validate_terminal_binding_iff :
    (s : ExecutionStart) (r : ExecutionRecord)
    → (validate_terminal_binding s r ≡ ok tt) ↔ (start_of r ≡ s)
unfolding validate_terminal_binding mismatch
validate_terminal_binding_iff s r = ground (
  arith,
  eq_iff r.execution_id s.execution_id,
  eq_iff r.environment_id s.environment_id,
  eq_iff r.instance_id s.instance_id,
  eq_iff r.objective s.objective,
  eq_iff r.started_at s.started_at,
  same_state_iff r.starting_state s.starting_state,
  same_state_iff r.blueprint s.blueprint,
  same_state_iff r.adapter s.adapter,
  same_states_iff r.procedures s.procedures,
  same_states_iff r.input_states s.input_states,
  same_states_iff r.input_messages s.input_messages,
)

-- The identities that an attempt's reference is of.
abbrev pub identities : ExecutionStart → List String
identities s = s.starting_state.repository ∷ s.environment_id ∷ s.instance_id ∷ s.execution_id ∷ []

-- Starts that differ in the repository, environment, Instance or Execution are hashed as different
-- bytes, if each identity has fewer than 2 ^ 32 bytes.
pub attempt_input-injective :
    (s t : ExecutionStart)
    → AreShort (identities s)
    → AreShort (identities t)
    → attempt_input s ≡ attempt_input t
    → identities s ≡ identities t
unfolding attempt_input
attempt_input-injective s t hs ht h = frames-injective (identities s) (identities t) refl hs ht (
    prefix_cancel (utf8 (codes "peoplebot.execution-provenance.v0\0attempt\0"))
      (frames (identities s)) (frames (identities t)) h)
