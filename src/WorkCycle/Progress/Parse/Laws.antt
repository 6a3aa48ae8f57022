-- ===== src/WorkCycle/Progress/Parse/Laws.antt =====
-- What accepted reader progress satisfies, and what its parser raises.
use peoplebot_releases.Base.{
  String, ◌≡◌, refl, ◌≤◌, Bool, true, false, Option, none, some, List, [], ◌∷◌, length, arith,
}
use peoplebot_releases.Base.Result.{
  Error, Result, ok, err, value_error, type_error, >>=-eq-ok, ◌>>=◌,
}
use peoplebot_releases.Json.{Value, Items, Fields, str, arr, obj, nil, cons}
use peoplebot_releases.State.{StateRef, state_ref}
use peoplebot_releases.State.Failures.{is_value_error, require_identity-raises, state_ref-raises}
use peoplebot_releases.Execution.Timestamp.Failures.{utc_timestamp-raises}
use peoplebot_releases.Messaging.Message.Failures.{identifier-raises}
use peoplebot_releases.WorkCycle.Progress.{
  SourceCursor, TaskDisposition, TaskProgress, ReaderReconciliation, ReaderProgress,
  reader_progress, check_progress, all_differ, same_source, same_message, same_reconciliation,
  cursor_commit, source_cursor, task_progress, reader_reconciliation,
}
use peoplebot_releases.WorkCycle.Progress.Parse.{
  progress_from, some_state, state_of, required, disposition_from, task_from, cursor_from,
  cursors_from, tasks_from, evidence_from, all_present, array_of, reconciliation_from,
  reconciliations_from, Parts, progress_parts, built_of,
}

-- The bounds of reader progress, and that nothing in it is recorded twice.
pub record IsWellFormed (p : ReaderProgress) : Type 0 where
  pub few_sources : length p.cursors ≤ 8
  pub few_tasks : length p.tasks ≤ 256
  pub few_reconciliations : length p.reconciliations ≤ 256
  pub sources_differ : all_differ same_source p.cursors ≡ true
  pub messages_differ : all_differ same_message p.tasks ≡ true
  pub reconciliations_differ : all_differ same_reconciliation p.reconciliations ≡ true

check_progress-IsWellFormed :
    (p : ReaderProgress) {q : ReaderProgress} → check_progress p ≡ ok q → IsWellFormed q
unfolding check_progress
check_progress-IsWellFormed p h = ground (arith, h)

pub reader_progress-IsWellFormed :
    (e i : Value) (cs : List SourceCursor) (ts : List TaskProgress) (rs : List ReaderReconciliation)
    {p : ReaderProgress}
    → reader_progress e i cs ts rs ≡ ok p
    → IsWellFormed p
unfolding reader_progress
reader_progress-IsWellFormed e i cs ts rs h = grind (arith, check_progress-IsWellFormed)

built_of-IsWellFormed :
    (fs : Fields) (q : Parts) {p : ReaderProgress} → built_of fs q ≡ ok p → IsWellFormed p
unfolding built_of
built_of-IsWellFormed fs (cs, ts, rs) h = reader_progress-IsWellFormed _ _ cs ts rs h

-- Whatever JSON value it is read from, reader progress has at most eight sources, 256 tasks and 256
-- reconciliations, and no source, task message or reconciliation twice.
pub progress_from-IsWellFormed :
    (v : Value) {p : ReaderProgress} → progress_from v ≡ ok p → IsWellFormed p
unfolding progress_from
progress_from-IsWellFormed (obj fs) h =
    let (q, _, built) = >>=-eq-ok (progress_parts fs) (built_of fs) h in
    built_of-IsWellFormed fs q built
progress_from-IsWellFormed _ h = absurd (cc h)

-- ValueError or TypeError
abbrev pub is_parse_error : Error → Bool
is_parse_error (value_error _) = true
is_parse_error (type_error _) = true
is_parse_error _ = false

parse_of_value : (e : Error) → is_value_error e ≡ true → is_parse_error e ≡ true
parse_of_value (value_error s) h = refl
parse_of_value _ h = absurd (cc h)

cursor_commit-raises : (v : Value) {e : Error} → cursor_commit v ≡ err e → is_parse_error e ≡ true
unfolding cursor_commit
cursor_commit-raises (str s) h = ground (arith, h)
cursor_commit-raises _ h = ground (arith, h)

source_cursor-raises :
    (a b c : Value) {e : Error} → source_cursor a b c ≡ err e → is_parse_error e ≡ true
unfolding source_cursor
source_cursor-raises a b c h =
    grind (arith, require_identity-raises, parse_of_value, cursor_commit-raises)

cursor_from-raises : (v : Value) {e : Error} → cursor_from v ≡ err e → is_parse_error e ≡ true
unfolding cursor_from
cursor_from-raises (obj fs) h = grind (arith, source_cursor-raises)
cursor_from-raises _ h = ground (arith, h)

cursors_from-raises : (vs : Items) {e : Error} → cursors_from vs ≡ err e → is_parse_error e ≡ true
unfolding cursors_from
cursors_from-raises nil h = ground (arith, h)
cursors_from-raises (cons v vs) {e} h =
    grind (arith, cursor_from-raises, cursors_from-raises vs {e = e})

some_state-raises :
    (a b c : Value) {e : Error} → some_state (state_ref a b c) ≡ err e → is_value_error e ≡ true
unfolding some_state
some_state-raises a b c h = grind (arith, state_ref-raises)

state_of-raises : (v : Value) {e : Error} → state_of v ≡ err e → is_value_error e ≡ true
unfolding state_of
state_of-raises (obj fs) h = grind (arith, some_state-raises)
state_of-raises _ h = ground (arith, h)

required-raises :
    (s : String) (o : Option StateRef) {e : Error} → required s o ≡ err e → is_value_error e ≡ true
unfolding required
required-raises s none h = ground (arith, h)
required-raises s (some x) h = ground (arith, h)

disposition_from-raises :
    (v : Value) {e : Error} → disposition_from v ≡ err e → is_value_error e ≡ true
unfolding disposition_from
disposition_from-raises (str s) h = ground (arith, h)
disposition_from-raises _ h = ground (arith, h)

task_progress-raises :
    (s : StateRef) (a b : Value) (d : TaskDisposition) (x y : Option StateRef) {e : Error}
    → task_progress s a b d x y ≡ err e
    → is_value_error e ≡ true
unfolding task_progress
task_progress-raises s a b d x y h = grind (arith, identifier-raises)

task_from-raises : (v : Value) {e : Error} → task_from v ≡ err e → is_value_error e ≡ true
unfolding task_from
task_from-raises (obj fs) h =
    grind (arith, disposition_from-raises, state_of-raises, required-raises, task_progress-raises)
task_from-raises _ h = ground (arith, h)

tasks_from-raises : (vs : Items) {e : Error} → tasks_from vs ≡ err e → is_value_error e ≡ true
unfolding tasks_from
tasks_from-raises nil h = ground (arith, h)
tasks_from-raises (cons v vs) {e} h = grind (arith, task_from-raises, tasks_from-raises vs {e = e})

evidence_from-raises : (vs : Items) {e : Error} → evidence_from vs ≡ err e → is_value_error e ≡ true
unfolding evidence_from
evidence_from-raises nil h = ground (arith, h)
evidence_from-raises (cons v vs) {e} h =
    grind (arith, state_of-raises, evidence_from-raises vs {e = e})

all_present-raises :
    (os : List (Option StateRef)) {e : Error} → all_present os ≡ err e → is_value_error e ≡ true
unfolding all_present
all_present-raises [] h = ground (arith, h)
all_present-raises (o ∷ os) {e} h = grind (arith, required-raises, all_present-raises os {e = e})

array_of-raises :
    (s : String) (v : Value) {e : Error} → array_of s v ≡ err e → is_value_error e ≡ true
unfolding array_of
array_of-raises s (arr xs) h = ground (arith, h)
array_of-raises s _ h = ground (arith, h)

reader_reconciliation-raises :
    (i : Value) (s : StateRef) (t : TaskProgress) (c : Value) (ss : List StateRef) (v : Value)
    {e : Error}
    → reader_reconciliation i s t c ss v ≡ err e
    → is_value_error e ≡ true
unfolding reader_reconciliation
reader_reconciliation-raises i s t c ss v h = grind (arith, identifier-raises, utc_timestamp-raises)

reconciliation_from-raises :
    (v : Value) {e : Error} → reconciliation_from v ≡ err e → is_value_error e ≡ true
unfolding reconciliation_from
reconciliation_from-raises (obj fs) h = grind (
  arith, state_of-raises, required-raises, array_of-raises, evidence_from-raises,
  all_present-raises, task_from-raises, reader_reconciliation-raises,
)
reconciliation_from-raises _ h = ground (arith, h)

reconciliations_from-raises :
    (vs : Items) {e : Error} → reconciliations_from vs ≡ err e → is_value_error e ≡ true
unfolding reconciliations_from
reconciliations_from-raises nil h = ground (arith, h)
reconciliations_from-raises (cons v vs) {e} h =
    grind (arith, reconciliation_from-raises, reconciliations_from-raises vs {e = e})

reader_progress-raises :
    (a b : Value) (cs : List SourceCursor) (ts : List TaskProgress) (rs : List ReaderReconciliation)
    {e : Error}
    → reader_progress a b cs ts rs ≡ err e
    → is_value_error e ≡ true
unfolding reader_progress check_progress
reader_progress-raises a b cs ts rs h = grind (arith, identifier-raises)

progress_parts-raises :
    (fs : Fields) {e : Error} → progress_parts fs ≡ err e → is_parse_error e ≡ true
unfolding progress_parts
progress_parts-raises fs h = grind (
  arith, parse_of_value, array_of-raises, cursors_from-raises, tasks_from-raises,
  reconciliations_from-raises,
)

built_of-raises :
    (fs : Fields) (q : Parts) {e : Error} → built_of fs q ≡ err e → is_parse_error e ≡ true
unfolding built_of
built_of-raises fs (cs, ts, rs) h = grind (arith, parse_of_value, reader_progress-raises)

-- An exception of a sequence is one of its first part or of the rest.
sequence_raises :
    {A B : Type 0} (r : Result A) (f : A → Result B)
    → ((e : Error) → r ≡ err e → is_parse_error e ≡ true)
    → ((a : A) (e : Error) → f a ≡ err e → is_parse_error e ≡ true)
    → (e : Error) → (r >>= f) ≡ err e
    → is_parse_error e ≡ true
sequence_raises (ok a) f h k e p = k a e p
sequence_raises (err d) f h k e p = ground (arith, h d refl, p)

-- Whatever JSON value it is given, the parser of reader progress raises ValueError or TypeError
-- alone.
pub progress_from-raises :
    (v : Value) {e : Error} → progress_from v ≡ err e → is_parse_error e ≡ true
unfolding progress_from
progress_from-raises (obj fs) {e} h =
    sequence_raises (progress_parts fs) (built_of fs) (λ d p. progress_parts-raises fs p)
      (λ q d p. built_of-raises fs q p) e h
progress_from-raises _ h = ground (arith, h)
