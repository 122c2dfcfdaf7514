-- ===== src/Bridge/Sessions.antt =====
-- What the two managers use of Mutagen's session managers, and `ListSessions`, which both have.
pub mod Teardown
use remote_docker_agent.Prelude.{
  ◌≡◌, Bool, true, false, Option, none, some, List, [], ◌∷◌, ◌++◌, if◌then◌else◌, Text, codes,
  is_empty, eq_text, Map, lookup, insert, Result, ok, err,
}
use remote_docker_agent.ContainerId.{decompress_container_id, compress_container_id}

-- `selection.Selection`: all the sessions, or those that the label selector picks.
pub data Selection : Type 0 where
  all_sessions : Selection
  label_selector : Text → Selection

-- A session's labels; a nil map has no entry.
pub record Session : Type 0 where
  pub identifier : Text
  pub labels : Map Text Text

-- `List` and `Terminate` of a session manager over its state `S`; `terminate` gives the state
-- that is left, an error (which the callers only log) included.
pub record SessionManager {ℓ} (S : Type ℓ) : Type ℓ where
  pub list : S → Result Text (List Session)
  pub terminate : Selection → S → S

unfoldable pub container_id_label : Text
container_id_label = codes "container-id"

-- The id that a session's label holds, or the empty text.
unfoldable pub session_container_id : Session → Text
unfolding container_id_label
session_container_id s = elim (lookup container_id_label s.labels) [
  | none ↦ []
  | some compressed_id ↦ decompress_container_id compressed_id
]

unfoldable pub container_ids : List Session → Map Text Bool
container_ids [] = []
container_ids (s ∷ states) =
    let found = container_ids states in
    if is_empty (session_container_id s) then found else insert (session_container_id s) true found

unfoldable pub list_sessions {ℓ} : {S : Type ℓ} → SessionManager S → S → Result Text (Map Text Bool)
list_sessions mutagen sessions = elim (mutagen.list sessions) [
  | err e ↦ err e
  | ok states ↦ ok (container_ids states)
]

-- The selector that picks a container's sessions; `none` is the panic of the label's encoding.
unfoldable pub container_selection : Text → Option Selection
container_selection container_id = elim (compress_container_id container_id) [
  | none ↦ none
  | some label ↦ some (label_selector (codes "container-id=" ++ label))
]
