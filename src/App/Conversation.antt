-- ===== src/App/Conversation.antt =====
-- Conversations and sets of ids: `insert_sorted`, `trim_history` and the union of two histories.
use skrepka.Base.{
  Bool, true, false, List, [], ◌∷◌, ◌++◌, Text, same_text, length, drop, ◌-◌, if◌then◌else◌, leb_ℤ,
}
use skrepka.Domain.{StoredMessage, max_messages_per_peer}
use skrepka.App.State.{IdSet}

-- `HashSet::insert`
unfoldable pub set_insert : Text → IdSet → IdSet
set_insert id [] = id ∷ []
set_insert id (x ∷ xs) = if same_text x id then x ∷ xs else x ∷ set_insert id xs

unfoldable pub contains : Text → IdSet → Bool
contains id [] = false
contains id (x ∷ xs) = if same_text x id then true else contains id xs

unfoldable pub extend : List Text → IdSet → IdSet
extend [] set = set
extend (id ∷ ids) set = extend ids (set_insert id set)

abbrev pub ids_of : List StoredMessage → List Text
ids_of [] = []
ids_of (m ∷ ms) = m.id ∷ ids_of ms

-- `partition_point` and `Vec::insert`: after every message whose `ts` is no greater. On a sorted
-- conversation the position is that of the first message with a greater `ts`.
unfoldable pub insert_sorted : List StoredMessage → StoredMessage → List StoredMessage
insert_sorted [] msg = msg ∷ []
insert_sorted (m ∷ ms) msg = if leb_ℤ m.ts msg.ts then m ∷ insert_sorted ms msg else msg ∷ m ∷ ms

unfoldable pub trim_history : List StoredMessage → List StoredMessage
trim_history convo = drop (length convo - max_messages_per_peer) convo

-- The messages of a list that a set of ids lacks.
unfoldable pub lacking : IdSet → List StoredMessage → List StoredMessage
lacking ids [] = []
lacking ids (m ∷ ms) = let rest = lacking ids ms in if contains m.id ids then rest else m ∷ rest

-- `sort_by_key(|m| m.ts)`, which is stable: the messages are put in one by one, each behind those
-- that come before it in the list and have its `ts`.
unfoldable pub sort_onto : List StoredMessage → List StoredMessage → List StoredMessage
sort_onto sorted [] = sorted
sort_onto sorted (m ∷ ms) = sort_onto (insert_sorted sorted m) ms

unfoldable pub sort_by_ts : List StoredMessage → List StoredMessage
sort_by_ts ms = sort_onto [] ms

-- The union of a conversation in memory with the one on disk.
unfoldable pub merge_history : List StoredMessage → List StoredMessage → List StoredMessage
merge_history existing list = trim_history (sort_by_ts (existing ++ lacking (ids_of existing) list))
