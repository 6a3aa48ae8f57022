-- ===== src/WorkCycle/Update/Laws.antt =====
-- What a replacement of progress keeps, and what it changes.
use peoplebot_releases.Base.{
  String, ◌≡◌, refl, false, not, Option, some, List, [], ◌∷◌, ◌++◌, keep, ◌==◌, eq_iff, arith,
}
use peoplebot_releases.Base.Result.{ok, >>=-eq-ok, raise_if}
use peoplebot_releases.Json.{str}
use peoplebot_releases.Messaging.Message.{identifier}
use peoplebot_releases.State.{StateRef, require_identity}
use peoplebot_releases.WorkCycle.Progress.{
  TaskDisposition, task_progress, selects, SourceCursor, TaskProgress, ReaderReconciliation,
  ReaderProgress, reader_progress, check_progress,
}
use peoplebot_releases.WorkCycle.Progress.Parse.Laws.{IsWellFormed, reader_progress-IsWellFormed}
use peoplebot_releases.WorkCycle.Update.{
  is_handled, replaced_tasks, replace_progress, or_given, added,
}

-- A message that no task is of takes nothing away.
keep-unhandled :
    (message_id : String) (ts : List TaskProgress)
    → is_handled ts message_id ≡ false
    → keep (λ t. not (t.message_id == message_id)) ts ≡ ts
unfolding is_handled
keep-unhandled message_id [] h = refl
keep-unhandled message_id (t ∷ ts) h = ground (arith, h, keep-unhandled message_id ts)

pub replaced_tasks-unhandled :
    (t : TaskProgress) (ts : List TaskProgress)
    → is_handled ts t.message_id ≡ false
    → replaced_tasks ts (some t) ≡ ts ++ t ∷ []
unfolding replaced_tasks
replaced_tasks-unhandled t ts h = rw (keep-unhandled t.message_id ts h)

identifier-eq-ok : (s l : String) {t : String} → identifier (str s) l ≡ ok t → t ≡ s
unfolding identifier require_identity
identifier-eq-ok s l h = ground (arith, h)

check_progress-eq-ok : (p : ReaderProgress) {q : ReaderProgress} → check_progress p ≡ ok q → q ≡ p
unfolding check_progress
check_progress-eq-ok p h = ground (arith, h)

abbrev built :
    String
    → String
    → List SourceCursor
    → List TaskProgress
    → List ReaderReconciliation
    → ReaderProgress
built e i cs ts rs = record {
  environment_id = e;
  instance_id = i;
  cursors = cs;
  tasks = ts;
  reconciliations = rs;
}

reader_progress-eq-ok :
    (e i : String) (cs : List SourceCursor) (ts : List TaskProgress)
    (rs : List ReaderReconciliation) {q : ReaderProgress}
    → reader_progress (str e) (str i) cs ts rs ≡ ok q
    → q ≡ built e i cs ts rs
unfolding reader_progress
reader_progress-eq-ok e i cs ts rs h =
    let (e', he, rest) = >>=-eq-ok (identifier (str e) "environment_id") _ h in
    let (i', hi, rest') = >>=-eq-ok (identifier (str i) "instance_id") _ rest in
    let whole = check_progress-eq-ok (built e' i' cs ts rs) rest' in
    let same_e = identifier-eq-ok e "environment_id" he in
    let same_i = identifier-eq-ok i "instance_id" hi in cc

-- What `_replace_progress` returns has the same owner; its cursors are the given ones, or else those
-- of before; its tasks are those of the other messages in their order with the given one last; its
-- reconciliations are those of before with the given one last; and it is well-formed.
pub replace_progress-IsWellFormed :
    (p : ReaderProgress) (cs : Option (List SourceCursor)) (t : Option TaskProgress)
    (r : Option ReaderReconciliation) {q : ReaderProgress}
    → replace_progress p cs t r ≡ ok q
    → (q ≡ record {
      environment_id = p.environment_id;
      instance_id = p.instance_id;
      cursors = or_given p.cursors cs;
      tasks = replaced_tasks p.tasks t;
      reconciliations = added p.reconciliations r;
    })
      × IsWellFormed q
unfolding replace_progress
replace_progress-IsWellFormed p cs t r h =
    (reader_progress-eq-ok _ _ _ _ _ h, reader_progress-IsWellFormed _ _ _ _ _ h)

-- The task of a message that comes last is replaced in its place.
pub replaced_tasks-last :
    (t c : TaskProgress) (ts : List TaskProgress)
    → t.message_id ≡ c.message_id
    → is_handled ts t.message_id ≡ false
    → replaced_tasks (ts ++ c ∷ []) (some t) ≡ ts ++ t ∷ []
unfolding replaced_tasks is_handled
replaced_tasks-last t c [] same h = ground (arith, same, eq_iff c.message_id t.message_id)
replaced_tasks-last t c (u ∷ ts) same h = ground (arith, h, replaced_tasks-last t c ts same)

pub task_progress-eq-ok :
    (s : StateRef) (m t : String) (d : TaskDisposition) (r y : Option StateRef) {q : TaskProgress}
    → task_progress s (str m) (str t) d r y ≡ ok q
    → q ≡ record {
      message_state = s;
      message_id = m;
      task_id = t;
      disposition = d;
      reply_state = r;
      memory_state = y;
    }
unfolding task_progress
task_progress-eq-ok s m t d r y h =
    let (m', hm, rest) = >>=-eq-ok (identifier (str m) "message_id") _ h in
    let (t', ht, rest') = >>=-eq-ok (identifier (str t) "task_id") _ rest in
    let (u, guarded, last) = >>=-eq-ok (raise_if (not (selects "message.json" s)) _) _ rest' in
    let same_m = identifier-eq-ok m "message_id" hm in
    let same_t = identifier-eq-ok t "task_id" ht in cc
