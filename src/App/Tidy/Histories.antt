-- ===== src/App/Tidy/Histories.antt =====
-- What the operations on one conversation and one contact leave in good order.
use skrepka.Base.{
  ◌≤◌, ◌≡◌, refl, Bool, true, false, not, ◌&&◌, some, List, [], ◌∷◌, arith, length, Text, ℤ,
  Option-cases, inl, inr, ◌⊎◌, if◌then◌else◌,
}
use skrepka.Base.Map
use skrepka.Base.Map.{Map}
use skrepka.Domain.{StoredMessage, Contact, new_contact, max_messages_per_peer}
use skrepka.App.State.{Env, IdSet}
use skrepka.App.Guards.{or_empty}
use skrepka.App.Conversation.{insert_sorted, trim_history, merge_history, contains}
use skrepka.App.History.{
  IsSorted, Later, trim_history_lem, trim_history-IsSorted, insert_sorted-IsSorted,
  merge_history-IsSorted,
}
use skrepka.App.Ingest.{mark_delivered}
use skrepka.App.Loads.{join_history, collect_contacts}
use skrepka.App.User.{upsert, set_flag}
use skrepka.App.Tidy.Maps.{
  AllEntries, AllEntries-insert, AllEntries-remove, AllEntries-get, Ascending, Ascending-insert,
  Ascending-remove,
}

-- A conversation in the order of its times, of at most a thousand messages.
abbrev pub IsGood : List StoredMessage → Type 0
IsGood ms = IsSorted ms × (length ms ≤ max_messages_per_peer)

-- The conversations of a map are good, and its keys go up.
abbrev pub AreGood : Map (List StoredMessage) → Type 0
AreGood talks = AllEntries (λ peer ms. IsGood ms) talks × Ascending talks

-- The contacts stand under their own keys, which go up.
abbrev pub AreNamed : Map Contact → Type 0
AreNamed contacts = AllEntries (λ peer c. c.pubkey ≡ peer) contacts × Ascending contacts

pub AreGood-insert :
    (peer : Text) (ms : List StoredMessage) (talks : Map (List StoredMessage))
    → IsGood ms
    → AreGood talks
    → AreGood (Map.insert peer ms talks)
AreGood-insert peer ms talks g h =
    (AllEntries-insert (λ k v. IsGood v) peer ms talks g h.0, Ascending-insert peer ms talks h.1)

pub AreGood-remove :
    (peer : Text) (talks : Map (List StoredMessage))
    → AreGood talks
    → AreGood (Map.remove peer talks)
AreGood-remove peer talks h =
    (AllEntries-remove (λ k v. IsGood v) peer talks h.0, Ascending-remove peer talks h.1)

pub AreGood-get :
    (peer : Text) (talks : Map (List StoredMessage))
    → AreGood talks
    → IsGood (or_empty (Map.get peer talks))
AreGood-get peer talks h = elim (Option-cases (Map.get peer talks)) [
  | inl nothing ↦ rw nothing (tt, omega arith)
  | inr (ms, found) ↦ rw found (AllEntries-get (λ k v. IsGood v) peer talks h.0 found)
]

pub AreNamed-insert :
    (peer : Text) (c : Contact) (contacts : Map Contact)
    → c.pubkey ≡ peer
    → AreNamed contacts
    → AreNamed (Map.insert peer c contacts)
AreNamed-insert peer c contacts e h = (
  AllEntries-insert (λ k v. v.pubkey ≡ k) peer c contacts e h.0,
  Ascending-insert peer c contacts h.1,
)

pub AreNamed-remove :
    (peer : Text) (contacts : Map Contact) → AreNamed contacts → AreNamed (Map.remove peer contacts)
AreNamed-remove peer contacts h =
    (AllEntries-remove (λ k v. v.pubkey ≡ k) peer contacts h.0, Ascending-remove peer contacts h.1)

pub AreNamed-get :
    (peer : Text) (contacts : Map Contact) {c : Contact}
    → AreNamed contacts
    → Map.get peer contacts ≡ some c
    → c.pubkey ≡ peer
AreNamed-get peer contacts h e = AllEntries-get (λ k v. v.pubkey ≡ k) peer contacts h.0 e

pub filed-IsGood :
    (ms : List StoredMessage) (x : StoredMessage)
    → IsGood ms
    → IsGood (trim_history (insert_sorted ms x))
filed-IsGood ms x h = (
  trim_history-IsSorted (insert_sorted ms x) (insert_sorted-IsSorted x ms h.0),
  omega (arith, (trim_history_lem (insert_sorted ms x)).0),
)

mark_delivered-Later :
    (ids : IdSet) (x : StoredMessage) (ms : List StoredMessage)
    → Later x ms
    → Later x (mark_delivered ids ms)
unfolding mark_delivered
mark_delivered-Later ids x [] h = tt
mark_delivered-Later ids x (m ∷ ms) h = ground (arith, mark_delivered-Later ids x ms h.1)

Later-mark :
    (b : Bool) (x : StoredMessage) (ms : List StoredMessage)
    → Later x ms
    → Later (if b then record x { delivered = true } else x) ms
Later-mark true x [] h = tt
Later-mark true x (m ∷ ms) h = (h.0, Later-mark true x ms h.1)
Later-mark false x ms h = h

mark_delivered-IsSorted :
    (ids : IdSet) (xs : List StoredMessage) → IsSorted xs → IsSorted (mark_delivered ids xs)
unfolding mark_delivered
mark_delivered-IsSorted ids [] s = tt
mark_delivered-IsSorted ids (x ∷ xs) s = (
  Later-mark (x.outgoing && contains x.id ids && not x.delivered) x (mark_delivered ids xs)
      (mark_delivered-Later ids x xs s.0),
  mark_delivered-IsSorted ids xs s.1,
)

length-mark_delivered :
    (ids : IdSet) (xs : List StoredMessage) → length (mark_delivered ids xs) ≡ length xs
unfolding mark_delivered
length-mark_delivered ids [] = refl
length-mark_delivered ids (x ∷ xs) = omega (arith, length-mark_delivered ids xs)

pub mark_delivered-IsGood :
    (ids : IdSet) (ms : List StoredMessage) → IsGood ms → IsGood (mark_delivered ids ms)
mark_delivered-IsGood ids ms h =
    (mark_delivered-IsSorted ids ms h.0, omega (arith, length-mark_delivered ids ms))

pub join_history-AreGood :
    (env : Env) (peer : Text) (list : List StoredMessage) (talks : Map (List StoredMessage))
    → IsGood list
    → AreGood talks
    → AreGood (join_history env peer list talks)
unfolding join_history
join_history-AreGood env peer list talks g h = elim (Option-cases (Map.get peer talks)) [
  | inl nothing ↦
      let e : join_history env peer list talks ≡ Map.insert peer list talks =
        ground (arith, nothing) in
      rw e (AreGood-insert peer list talks g h)
  | inr (existing, found) ↦
      let merged = merge_history existing list in
      let e : join_history env peer list talks ≡ Map.insert peer merged talks =
        ground (arith, found) in
      rw e (AreGood-insert peer merged talks (merge_history-IsSorted existing list) h)
]

pub collect_contacts-AreNamed :
    (m : Map Contact) (cs : List Contact) → AreNamed m → AreNamed (collect_contacts m cs)
unfolding collect_contacts
collect_contacts-AreNamed m [] h = h
collect_contacts-AreNamed m (c ∷ cs) h =
    collect_contacts-AreNamed (Map.insert c.pubkey c m) cs (AreNamed-insert c.pubkey c m refl h)

pub upsert-AreNamed :
    (hex nickname : Text) (now : ℤ) (contacts : Map Contact)
    → AreNamed contacts
    → AreNamed (upsert hex nickname now contacts)
unfolding upsert new_contact
upsert-AreNamed hex nickname now contacts h = elim (Option-cases (Map.get hex contacts)) [
  | inl nothing ↦
      let e : upsert hex nickname now contacts
          ≡ Map.insert hex (new_contact hex nickname now) contacts =
        ground (arith, nothing) in
      rw e (AreNamed-insert hex (new_contact hex nickname now) contacts refl h)
  | inr (c, found) ↦
      let renamed = record c { nickname = nickname } in
      let either : (upsert hex nickname now contacts ≡ contacts)
          ⊎ (upsert hex nickname now contacts ≡ Map.insert hex renamed contacts) =
        ground (arith, found) in
      elim either [
        | inl same ↦ rw same h
        | inr e ↦ rw e (AreNamed-insert hex renamed contacts (AreNamed-get hex contacts h found) h)
      ]
]

pub set_flag-AreNamed :
    (peer : Text) (blocked : Bool) (contacts : Map Contact)
    → AreNamed contacts
    → AreNamed (set_flag peer blocked contacts)
unfolding set_flag
set_flag-AreNamed peer blocked contacts h = elim (Option-cases (Map.get peer contacts)) [
  | inl nothing ↦
      let e : set_flag peer blocked contacts ≡ contacts = ground (arith, nothing) in rw e h
  | inr (c, found) ↦
      let flagged = record c { blocked = blocked } in
      let e : set_flag peer blocked contacts ≡ Map.insert peer flagged contacts =
        ground (arith, found) in
      rw e (AreNamed-insert peer flagged contacts (AreNamed-get peer contacts h found) h)
]
