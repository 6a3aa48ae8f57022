-- ===== src/WorkCycle/Store/Saved.antt =====
-- What ReaderProgressStore.save did in Git, where it returned.
use mathlib.Core.Path.{subst}
use peoplebot_releases.Base.{String, ◌≡◌, refl, Option, is_object_id, true, arith}
use peoplebot_releases.Base.Result.{ok, >>=-eq-ok}
use peoplebot_releases.Base.Exec.Runs.{
  Effect, Effect-of, pure-run, bind-run, lift-run, guard-run, rethrow-run,
}
use peoplebot_releases.Json.{str}
use peoplebot_releases.State.{state_ref}
use peoplebot_releases.State.Laws.{state_ref-eq-ok}
use peoplebot_releases.Host.{External, Host}
use peoplebot_releases.Provenance.Plumbing.{write_blob, write_single, write_commit}
use peoplebot_releases.Provenance.Refs.{update_ref}
use peoplebot_releases.Messaging.Store.{optional_list, or_zero}
use peoplebot_releases.WorkCycle.Progress.{ReaderProgress, progress_bytes}
use peoplebot_releases.WorkCycle.Store.{
  ProgressState, ProgressStore, progress_state, check_progress_state, cycle_of_provenance,
  progress_errors, state_commit, is_elsewhere, write_progress, save,
}
use peoplebot_releases.WorkCycle.Store.Laws.{IsProgressFailure, save-IsBound}

check_progress_state-eq-ok :
    (store : ProgressStore) (commit : String)
    → check_progress_state store commit ≡ ok tt
    → is_object_id commit ≡ true
unfolding check_progress_state
check_progress_state-eq-ok store commit h =
    let (s, made, _) =
      >>=-eq-ok (state_ref (str store.repository) (str commit) (str "reader-progress.json")) _ h in
    let (_, same, _, full) = state_ref-eq-ok _ _ _ {s = s} made in ground (arith, same, full)

module _ (X : External) (store : ProgressStore) (progress : ReaderProgress)
    (saved_at : String) where
  -- The bytes of the progress were written as the one file of a commit on the parent, and the
  -- reference of the store was moved from the parent to that commit.
  pub record IsWritten (parent : Option String) (commit : String) (w w' : Host X) : Type 0 where
    pub blob : String
    pub tree : String
    pub after_blob : Host X
    pub after_tree : Host X
    pub after_commit : Host X
    pub wrote_blob : write_blob X store.plumbing (progress_bytes progress) w ≡ (ok blob, after_blob)
    pub wrote_tree :
        write_single X store.plumbing "reader-progress.json" blob "write reader progress tree"
          after_blob
        ≡ (ok tree, after_tree)
    pub wrote_commit :
        write_commit X store.plumbing tree
          (optional_list parent)
          saved_at
          "PeopleBot reader progress"
          after_tree
        ≡ (ok commit, after_commit)
    pub moved_ref :
        update_ref X store.plumbing progress_errors store.ref_name commit
          (or_zero parent)
          after_commit
        ≡ (ok tt, w')

  write_progress-IsWritten :
      (parent : Option String) (w : Host X) {commit : String} {w' : Host X}
      → write_progress X store progress parent saved_at w ≡ (ok commit, w')
      → IsWritten parent commit w w'
  unfolding write_progress
  write_progress-IsWritten parent w h =
      let (blob, w1, wrote_blob, h) = bind-run _ _ w h in
      let (tree, w2, wrote_tree, h) = bind-run _ _ w1 h in
      let (commit, w3, wrote_commit, h) = bind-run _ _ w2 h in
      let (_, w4, moved, h) = bind-run _ _ w3 h in
      let (same, same_world) = pure-run commit w4 h in
      record {
        blob = blob;
        tree = tree;
        after_blob = w1;
        after_tree = w2;
        after_commit = w3;
        wrote_blob = wrote_blob;
        wrote_tree = wrote_tree;
        wrote_commit = cc (wrote_commit, same);
        moved_ref = cc (moved, same, same_world);
      }

  -- The progress, with a new commit of the store on the expected one.
  abbrev pub IsSaved : Option ProgressState → Host X → Host X → ProgressState → Type 0
  IsSaved expected w w' s =
      (s.progress ≡ progress)
      × (s.state ≡ progress_state store s.state.commit)
      × (s.ref_name ≡ store.ref_name)
      × (is_object_id s.state.commit ≡ true)
      × IsWritten (state_commit expected) s.state.commit w w'

  save-run :
      (expected : Option ProgressState) (w : Host X) (s : ProgressState) (w' : Host X)
      → save X store progress expected saved_at w ≡ (ok s, w')
      → IsSaved expected w w' s
  unfolding save
  save-run expected w s w' h =
      let (_, _, h) = lift-run _ _ w h in
      let (_, h) = guard-run (is_elsewhere store expected) _ _ w h in
      let (commit, w1, wrote, h) = bind-run _ _ w h in
      let (u, checked, h) = lift-run (check_progress_state store commit) _ w1 h in
      let new : ProgressState = record {
        progress = progress;
        state = progress_state store commit;
        ref_name = store.ref_name;
      } in
      let (same, same_world) = pure-run new w1 h in
      let written = write_progress-IsWritten (state_commit expected) w (
        rethrow-run cycle_of_provenance
          (write_progress X store progress (state_commit expected) saved_at) w wrote) in
      subst (λ v. IsSaved expected w v s) same_world
        (subst (IsSaved expected w w1) same
          (refl, refl, refl, check_progress_state-eq-ok store commit checked, written))

  -- `save` raises CycleError, ProvenanceError, ValueError, TypeError, OSError or RecursionError, or
  -- returns. Then the bytes of the given progress were written as the one file of a commit on the
  -- expected one, the reference of the store was moved from the expected commit to it as the last
  -- thing that was done, and the progress is returned with the State of that commit.
  pub save-IsSaved :
      (expected : Option ProgressState)
      → Effect IsProgressFailure (IsSaved expected) (save X store progress expected saved_at)
  save-IsSaved expected =
      Effect-of (save X store progress expected saved_at)
        (save-IsBound X store progress expected saved_at) (save-run expected)
