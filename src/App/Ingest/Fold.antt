-- ===== src/App/Ingest/Fold.antt =====
-- What `ingest_poll` carries along, and the helpers of its steps.
use skrepka.Base.{
  ℕ, zero, suc, ◌-◌, ◌*◌, Bool, true, false, ◌&&◌, ◌||◌, not, Option, none, some, List, [], ◌∷◌,
  ◌++◌, Text, length, take, ltb, if◌then◌else◌, ℤ, pos,
}
use skrepka.Base.Map.{Map}
use skrepka.Domain.{StoredMessage}
use skrepka.App.State.{Model, IdSet}
use skrepka.App.Conversation.{contains, extend, ids_of}

abbrev pub max_future_skew_ms : ℤ
max_future_skew_ms = pos 60_000

abbrev pub max_poll_total_bytes : ℕ
max_poll_total_bytes = 64 * 1024 * 1024

abbrev pub max_poll_events : ℕ
max_poll_events = 2000

abbrev pub max_seen_ids_per_peer : ℕ
max_seen_ids_per_peer = 2000

pub record PendingAck : Type 0 where
  pub ts : ℤ
  pub ids : IdSet

-- The local variables of `ingest_poll`. `pending_acks` is a `HashMap` that is only walked entry by
-- entry, each of its own sender, so its order is not material.
pub record PageFold : Type 0 where
  pub model : Model
  pub touched : IdSet
  pub contacts_dirty : Bool
  pub outbox_dirty : Bool
  pub ack_targets : Map (List Text)
  pub pending_acks : Map PendingAck
  pub budget : ℕ
  pub events_processed : ℕ
  pub events_stored : ℕ

-- `filter(|id| !convo_ids.contains(*id))`
unfoldable pub outside : List Text → List Text → List Text
outside ids [] = []
outside ids (x ∷ xs) = let rest = outside ids xs in if contains x ids then rest else x ∷ rest

-- `if id_set.is_empty() { id_set.extend(…) }`
unfoldable pub seeded : List StoredMessage → IdSet → IdSet
seeded convo [] = extend (ids_of convo) []
seeded convo (x ∷ xs) = x ∷ xs

-- The cap on a set of seen ids; `order` is the order in which the set is iterated.
unfoldable pub cap_ids : (IdSet → List Text) → List StoredMessage → IdSet → IdSet
cap_ids order convo ids =
    if ltb max_seen_ids_per_peer (length ids)
    then outside (take (length ids - max_seen_ids_per_peer) (outside (ids_of convo) (order ids)))
        ids
    else ids

-- `slice::chunks(n)`, with room for `room` more in the chunk begun.
unfoldable pub chunks_from : ℕ → ℕ → List Text → List Text → List (List Text)
chunks_from n room begun [] = begun ∷ []
chunks_from n zero begun (x ∷ xs) = begun ∷ chunks_from n (n - 1) (x ∷ []) xs
chunks_from n (suc room) begun (x ∷ xs) = chunks_from n room (begun ++ (x ∷ [])) xs

unfoldable pub chunks : ℕ → List Text → List (List Text)
unfolding chunks_from
chunks n [] = []
chunks n (x ∷ xs) = chunks_from n (n - 1) (x ∷ []) xs

-- `or_default()` on a pending ack
abbrev pub pending_of : Option PendingAck → PendingAck
pending_of none = record { ts = pos 0; ids = [] }
pending_of (some p) = p

abbrev pub keep_or : Text → Option Text → Text
keep_or old none = old
keep_or old (some new) = new

abbrev pub keep_photo : Option Text → Option Text → Option Text
keep_photo old none = old
keep_photo old (some new) = some new

-- The delivered flags that an ack sets.
unfoldable pub mark_delivered : IdSet → List StoredMessage → List StoredMessage
mark_delivered ids [] = []
mark_delivered ids (m ∷ ms) =
    (if m.outgoing && contains m.id ids && not m.delivered
      then record m { delivered = true }
      else m)
    ∷ mark_delivered ids ms

unfoldable pub marks_any : IdSet → List StoredMessage → Bool
marks_any ids [] = false
marks_any ids (m ∷ ms) = (m.outgoing && contains m.id ids && not m.delivered) || marks_any ids ms
