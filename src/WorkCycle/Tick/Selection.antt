-- ===== src/WorkCycle/Tick/Selection.antt =====
-- How a tick chooses its message: the candidates of the peers, and the earliest of them.
pub mod Laws
use peoplebot_releases.Base.{
  String, Bool, true, false, not, ◌&&◌, ◌||◌, Option, none, some, List, [], ◌∷◌, ◌++◌, keep, ◌==◌,
  codes, if◌then◌else◌,
}
use peoplebot_releases.Base.Result
use peoplebot_releases.Base.Result.{Result, ok, err, ◌>>=◌}
use peoplebot_releases.Base.Exec
use peoplebot_releases.Base.Exec.{Exec, pure}
use peoplebot_releases.Json.{str}
use peoplebot_releases.Execution.Timestamp.{Datetime, utc_timestamp, earlier, lex_lt}
use peoplebot_releases.Host.{External, Host}
use peoplebot_releases.Messaging.Message.{MessageKind, task, reply, stop}
use peoplebot_releases.Messaging.Store.{PublishedMessage}
use peoplebot_releases.Messaging.Remote.{PeerSource, GitRunner}
use peoplebot_releases.Messaging.Remote.Peer.{read_peer_messages}
use peoplebot_releases.WorkCycle.Progress.{SourceCursor, TaskProgress, source_cursor}
use peoplebot_releases.WorkCycle.Update.{is_handled}

-- message.kind in {TASK, STOP}
abbrev pub is_request : MessageKind → Bool
is_request task = true
is_request reply = false
is_request stop = true

-- The test of a message in the loop over the sources.
unfoldable pub is_candidate : String → List TaskProgress → PublishedMessage → Bool
is_candidate environment_id tasks item =
    item.message.recipient == environment_id
    && is_request item.message.kind
    && not (is_handled tasks item.message.message_id)

module _ (X : External) (runner : GitRunner X) (checkout environment_id : String)
    (tasks : List TaskProgress) where
  cursor_of : PeerSource → Option String → Result (List SourceCursor)
  cursor_of source none = ok []
  cursor_of source (some tip) = do
    c ← source_cursor (str source.endpoint.repository) (str source.endpoint.ref_name) (str tip)
    ok (c ∷ [])

  -- The loop over the sources: the cursors and the candidates.
  unfoldable pub read_sources :
      List PeerSource → Exec (Host X) (List SourceCursor × List PublishedMessage)
  unfolding cursor_of
  read_sources [] = pure ([], [])
  read_sources (source ∷ sources) =
      Exec.◌>>=◌ (read_peer_messages X runner checkout source) λ (tip, messages).
        Exec.◌>>=◌ (Exec.lift (cursor_of source tip)) λ here.
          Exec.◌>>=◌ (read_sources sources) λ (cursors, candidates).
            pure (here ++ cursors, keep (is_candidate environment_id tasks) messages ++ candidates)

-- The key of the sort, with its message.
pub record Candidate : Type 0 where
  pub created_at : Datetime
  pub item : PublishedMessage

-- The keys, which `sort` computes before it compares.
unfoldable pub with_keys : List PublishedMessage → Result (List Candidate)
with_keys [] = ok []
with_keys (p ∷ ps) = do
  t ← utc_timestamp (str p.message.created_at) "message created_at"
  rest ← with_keys ps
  ok (record { created_at = t; item = p } ∷ rest)

-- a < b of the keys, pairs of a time and an identity
unfoldable pub key_before : Candidate → Candidate → Bool
key_before a b =
    earlier a.created_at b.created_at
    || not (earlier b.created_at a.created_at)
      && lex_lt (codes a.item.message.message_id) (codes b.item.message.message_id)

-- A stable sort: an item goes before the first one that is not before it.
unfoldable pub insert_sorted : Candidate → List Candidate → List Candidate
insert_sorted c [] = c ∷ []
insert_sorted c (d ∷ ds) =
    let rest = insert_sorted c ds in if key_before d c then d ∷ rest else c ∷ d ∷ ds

unfoldable pub sorted : List Candidate → List Candidate
unfolding insert_sorted
sorted [] = []
sorted (c ∷ cs) = insert_sorted c (sorted cs)

-- candidates[0] after the sort
unfoldable pub first_sorted : List Candidate → Option PublishedMessage
unfolding sorted
first_sorted cs = elim (sorted cs) [ [] ↦ none | c ∷ _ ↦ some c.item ]

-- candidates.sort(...); candidates[0]
unfoldable pub select_earliest : List PublishedMessage → Result (Option PublishedMessage)
unfolding with_keys first_sorted
select_earliest ps = do cs ← with_keys ps; ok (first_sorted cs)
