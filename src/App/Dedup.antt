-- ===== src/App/Dedup.antt =====
-- A text that comes again is filed once.
use skrepka.Base.{
  ℕ, zero, suc, ◌-◌, ◌≡◌, refl, true, false, some, List, [], ◌∷◌, arith, Text, ℤ, same_text_refl,
  take, length, Bool-cases, inl, inr,
}
use skrepka.Base.Map
use skrepka.Base.Map.{Map, get-insert}
use skrepka.Domain.{StoredMessage}
use skrepka.App.State.{Env, IdSet}
use skrepka.App.Guards.{or_empty}
use skrepka.App.Conversation.{contains, set_insert, insert_sorted, ids_of, trim_history}
use skrepka.App.Ingest.{PageFold, file_text, cap_ids, outside, seeded, max_seen_ids_per_peer}

contains-set_insert : (id : Text) (ids : IdSet) → contains id (set_insert id ids) ≡ true
unfolding contains set_insert
contains-set_insert id [] = ground (arith, same_text_refl id)
contains-set_insert id (x ∷ xs) = ground (arith, contains-set_insert id xs)

contains-outside_out :
    (id : Text) (gone ids : List Text)
    → contains id gone ≡ true
    → contains id (outside gone ids) ≡ false
unfolding contains outside
contains-outside_out id gone [] h = refl
contains-outside_out id gone (x ∷ xs) h = ground (arith, contains-outside_out id gone xs h)

contains-outside_kept :
    (id : Text) (gone ids : List Text)
    → contains id gone ≡ false
    → contains id ids ≡ true
    → contains id (outside gone ids) ≡ true
unfolding contains outside
contains-outside_kept id gone [] h k = k
contains-outside_kept id gone (x ∷ xs) h k = ground (arith, contains-outside_kept id gone xs h)

contains-take :
    (id : Text) (n : ℕ) (ids : List Text)
    → contains id ids ≡ false
    → contains id (take n ids) ≡ false
unfolding contains
contains-take id zero ids h = refl
contains-take id (suc n) [] h = refl
contains-take id (suc n) (x ∷ xs) h = ground (arith, contains-take id n xs)

contains-insert_sorted :
    (msg : StoredMessage) (ms : List StoredMessage)
    → contains msg.id (ids_of (insert_sorted ms msg)) ≡ true
unfolding contains insert_sorted
contains-insert_sorted msg [] = ground (arith, same_text_refl msg.id)
contains-insert_sorted msg (m ∷ ms) =
    ground (arith, contains-insert_sorted msg ms, same_text_refl msg.id)

contains-cap_ids :
    (order : IdSet → List Text) (id : Text) (convo : List StoredMessage) (ids : IdSet)
    → contains id (ids_of convo) ≡ true
    → contains id ids ≡ true
    → contains id (cap_ids order convo ids) ≡ true
unfolding cap_ids
contains-cap_ids order id convo ids h k = grind (
  arith,
  contains-outside_kept id
      (take (length ids - max_seen_ids_per_peer) (outside (ids_of convo) (order ids))) ids
      (contains-take id (length ids - max_seen_ids_per_peer) (outside (ids_of convo) (order ids))
        (contains-outside_out id (ids_of convo) (order ids) h))
      k,
)

-- The sender has a conversation and a set of ids, and the set has the id.
abbrev pub Filed : Text → Text → PageFold → Type 0
Filed sender msg_id g =
    (convo : List StoredMessage) × (ids : IdSet) × (Map.get sender g.model.messages ≡ some convo)
    × (Map.get sender g.model.seen_ids ≡ some ids)
    × (contains msg_id ids ≡ true)

get-insert_same :
    {V : Type 0} (k : Text) (v : V) (m : Map V) → Map.get k (Map.insert k v m) ≡ some v
get-insert_same k v m = ground (arith, get-insert k k v m, same_text_refl k)

-- Whatever the cap drops, the id of a text just filed stays known.
pub file_text-Filed :
    (env : Env) (now : ℤ) (sender : Text) (ts : ℤ) (msg_id body : Text) (g : PageFold)
    → Filed sender msg_id (file_text env now sender ts msg_id body g)
unfolding file_text
file_text-Filed env now sender ts msg_id body g =
    let convo = or_empty (Map.get sender g.model.messages) in
    let known = seeded convo (or_empty (Map.get sender g.model.seen_ids)) in
    let msg : StoredMessage = record {
      id = msg_id;
      body = body;
      ts = ts;
      outgoing = false;
      delivered = false;
    } in
    let filed = insert_sorted convo msg in
    elim (Bool-cases (contains msg_id known)) [
      | inl old ↦ rw old (convo, known, get-insert_same sender _ _, get-insert_same sender _ _, old)
      | inr new ↦ rw new (
        trim_history filed,
        cap_ids env.hash_order filed (set_insert msg_id known),
        get-insert_same sender _ _,
        get-insert_same sender _ _,
        contains-cap_ids env.hash_order msg_id filed (set_insert msg_id known)
            (contains-insert_sorted msg convo) (contains-set_insert msg_id known),
      )
    ]

-- What a text with a known id leaves as it was.
abbrev pub Unmoved : Text → PageFold → PageFold → Type 0
Unmoved peer g g' =
    (Map.get peer g'.model.messages ≡ Map.get peer g.model.messages)
    × (Map.get peer g'.model.seen_ids ≡ Map.get peer g.model.seen_ids)
    × (g'.touched ≡ g.touched)
    × (g'.ack_targets ≡ g.ack_targets)
    × (g'.model.outbox ≡ g.model.outbox)
