-- ===== src/App/History.antt =====
-- Conversations stay in the order of their times and within their cap.
use skrepka.Base.{
  ℕ, zero, suc, ◌-◌, ◌≤◌, ◌≡◌, refl, sym, min, List, [], ◌∷◌, ◌++◌, arith, length, drop, take,
  length-drop, take-append-drop, ◌≤ℤ◌, ≤ℤ_trans,
}
use skrepka.Domain.{StoredMessage, max_messages_per_peer}
use skrepka.App.Conversation.{
  insert_sorted, trim_history, sort_onto, sort_by_ts, merge_history, lacking, ids_of,
}

-- Every message of a list is no older than `m`.
abbrev pub Later : StoredMessage → List StoredMessage → Type 0
Later m [] = Unit
Later m (n ∷ ns) = (m.ts ≤ℤ n.ts) × Later m ns

abbrev pub IsSorted : List StoredMessage → Type 0
IsSorted [] = Unit
IsSorted (m ∷ ms) = Later m ms × IsSorted ms

insert_sorted-Later :
    (m msg : StoredMessage) (ms : List StoredMessage)
    → Later m ms
    → m.ts ≤ℤ msg.ts
    → Later m (insert_sorted ms msg)
unfolding insert_sorted
insert_sorted-Later m msg [] h le = (le, tt)
insert_sorted-Later m msg (n ∷ ns) h le = ground (arith, insert_sorted-Later m msg ns h.1 le)

Later-trans :
    (m n : StoredMessage) (ns : List StoredMessage) → m.ts ≤ℤ n.ts → Later n ns → Later m ns
Later-trans m n [] le h = tt
Later-trans m n (o ∷ ns) le h = (≤ℤ_trans m.ts n.ts o.ts le h.0, Later-trans m n ns le h.1)

-- A message put into a conversation in the order of its times leaves it in that order.
pub insert_sorted-IsSorted :
    (msg : StoredMessage) (ms : List StoredMessage) → IsSorted ms → IsSorted (insert_sorted ms msg)
unfolding insert_sorted
insert_sorted-IsSorted msg [] h = (tt, tt)
insert_sorted-IsSorted msg (m ∷ ms) h = ground (
  arith,
  insert_sorted-IsSorted msg ms h.1,
  insert_sorted-Later m msg ms h.0,
  Later-trans msg m ms,
)

-- How a list ends: `xs` is what is left of `ys` without its first messages.
abbrev pub EndsIn : List StoredMessage → List StoredMessage → Type 0
EndsIn ys xs = (older : List StoredMessage) × (ys ≡ older ++ xs)

drop-IsSorted : (n : ℕ) (ms : List StoredMessage) → IsSorted ms → IsSorted (drop n ms)
drop-IsSorted zero ms h = h
drop-IsSorted (suc n) [] h = h
drop-IsSorted (suc n) (m ∷ ms) h = drop-IsSorted n ms h.1

-- The cap on a conversation keeps its newest messages: at most a thousand, the end of the list, and
-- all of them if they are not more than a thousand.
pub trim_history_lem :
    (ms : List StoredMessage)
    → (length (trim_history ms) ≡ min (length ms) max_messages_per_peer)
      × EndsIn ms (trim_history ms)
unfolding trim_history
trim_history_lem ms =
    let n = length ms - max_messages_per_peer in
    (ground (arith, length-drop n ms), (take n ms, sym (take-append-drop n ms)))

pub trim_history-IsSorted : (ms : List StoredMessage) → IsSorted ms → IsSorted (trim_history ms)
unfolding trim_history
trim_history-IsSorted ms h = drop-IsSorted (length ms - max_messages_per_peer) ms h

length-insert_sorted :
    (msg : StoredMessage) (ms : List StoredMessage)
    → length (insert_sorted ms msg) ≡ suc (length ms)
unfolding insert_sorted
length-insert_sorted msg [] = refl
length-insert_sorted msg (m ∷ ms) = ground (arith, length-insert_sorted msg ms)

sort_onto-IsSorted :
    (sorted ms : List StoredMessage) → IsSorted sorted → IsSorted (sort_onto sorted ms)
unfolding sort_onto
sort_onto-IsSorted sorted [] h = h
sort_onto-IsSorted sorted (m ∷ ms) h =
    sort_onto-IsSorted (insert_sorted sorted m) ms (insert_sorted-IsSorted m sorted h)

-- A history joined with the one on disk is in order and within the cap.
pub merge_history-IsSorted :
    (existing list : List StoredMessage)
    → IsSorted (merge_history existing list)
      × (length (merge_history existing list) ≤ max_messages_per_peer)
unfolding merge_history sort_by_ts
merge_history-IsSorted existing list =
    let sorted = sort_onto-IsSorted [] (existing ++ lacking (ids_of existing) list) tt in
    let t = trim_history_lem (sort_onto [] (existing ++ lacking (ids_of existing) list)) in
    (trim_history-IsSorted _ sorted, omega (arith, t.0))
