-- ===== src/App/Batching.antt =====
-- What `gather` puts into one request.
use skrepka.Base.{
  ℕ, ◌+◌, ◌≤◌, ◌<◌, ◌≡◌, refl, ◌⊎◌, inl, inr, Bool, false, Option, none, some, List, [], ◌∷◌, ◌++◌,
  arith, Text, Bytes, length, Bool-cases, Option-cases, leb, ltb, ◌&&◌, ◌||◌, text_len,
}
use skrepka.Crypto.{Identity}
use skrepka.Domain.{OutboxItem}
use skrepka.Protocol.{Envelope}
use skrepka.App.State.{Env, World}
use skrepka.App.Outbox.{gather, encrypt_for, max_send_batch, other_recipient}

-- Every item is for `r`.
abbrev pub AllTo : Text → List OutboxItem → Type 0
AllTo r [] = Unit
AllTo r (item ∷ items) = (item.recipient ≡ r) × AllTo r items

abbrev pub AllSentTo : Text → List Envelope → Type 0
AllSentTo r [] = Unit
AllSentTo r (e ∷ es) = (e.to ≡ r) × AllSentTo r es

-- Every item taken, and every envelope made, is for the recipient of the first item taken.
abbrev pub OneRecipient : List OutboxItem → List Envelope → Type 0
OneRecipient [] es = es ≡ []
OneRecipient (item ∷ items) es = AllTo item.recipient items × AllSentTo item.recipient es

-- The list with some unsendable items taken out, the others in their order.
pub data Dropped (env : Env) (w : World) (id : Identity)
    : List OutboxItem → List OutboxItem → Type 0 where
  same : (items : List OutboxItem) → Dropped env w id items items
  keep :
      (item : OutboxItem) {items rest : List OutboxItem}
      → Dropped env w id items rest
      → Dropped env w id (item ∷ items) (item ∷ rest)
  drop_item :
      (i : ℕ) (item : OutboxItem) {items rest : List OutboxItem}
      → encrypt_for env w i id item ≡ none
      → Dropped env w id items rest
      → Dropped env w id (item ∷ items) rest

-- One envelope for each item, in order, with the item's recipient and what the item was sealed to.
pub data Sealed (env : Env) (w : World) (id : Identity)
    : List OutboxItem → List Envelope → Type 0 where
  no_more : Sealed env w id [] []
  seal :
      (i : ℕ) (item : OutboxItem) (blob : Bytes) {items : List OutboxItem} {es : List Envelope}
      → encrypt_for env w i id item ≡ some blob
      → Sealed env w id items es
      → Sealed env w id
          (item ∷ items)
          (record { to = item.recipient; encrypted_blob = env.prims.hex_encode blob } ∷ es)

-- The size of the blobs of a request.
abbrev pub sent_size : List Envelope → ℕ
sent_size [] = 0
sent_size (e ∷ es) = text_len e.encrypted_blob + sent_size es

module _ (env : Env) (w : World) (id : Identity) (budget : ℕ) where
  -- The bytes that the loop counts are those of the blobs that it takes.
  pub gather-sent_size :
      (items : List OutboxItem) (i count bytes : ℕ) (r : Option Text) (dirty : Bool)
      (error : Option Text)
      → let g = gather env w id budget i count bytes r dirty error items in
        g.bytes ≡ bytes + sent_size g.messages
  unfolding gather
  gather-sent_size [] i count bytes r dirty error = ground arith
  gather-sent_size (item ∷ items) i count bytes r dirty error =
      grind (arith, gather-sent_size items)

  gather-Sealed :
      (items : List OutboxItem) (i count bytes : ℕ) (r : Option Text) (dirty : Bool)
      (error : Option Text)
      → let g = gather env w id budget i count bytes r dirty error items in
        Sealed env w id g.taken g.messages
  unfolding gather
  gather-Sealed [] i count bytes r dirty error = no_more
  gather-Sealed (item ∷ items) i count bytes r dirty error =
      elim (Bool-cases (leb max_send_batch count || other_recipient r item.recipient)) [
        | inl stop ↦ rw stop no_more
        | inr go ↦ rw go (elim (Option-cases (encrypt_for env w i id item)) [
          | inl bad ↦ rw bad (gather-Sealed items _ _ _ _ _ _)
          | inr (blob, good) ↦
              rw good
                (elim (Bool-cases
                  (ltb 0 count && ltb budget (bytes + text_len (env.prims.hex_encode blob)))) [
                    | inl full ↦ rw full no_more
                    | inr room ↦ rw room (seal i item blob good (gather-Sealed items _ _ _ _ _ _))
                  ])
        ])
      ]

  -- The size of a batch, for one begun with `count` items.
  pub gather_size :
      (items : List OutboxItem) (i count bytes : ℕ) (r : Option Text) (dirty : Bool)
      (error : Option Text)
      → count ≤ max_send_batch
      → let g = gather env w id budget i count bytes r dirty error items in
        (count + length g.taken ≤ max_send_batch) × (length g.messages ≡ length g.taken)
  unfolding gather
  gather_size [] i count bytes r dirty error h = ground arith
  gather_size (item ∷ items) i count bytes r dirty error h = grind (arith, gather_size items)

  gather_to :
      (items : List OutboxItem) (i count bytes : ℕ) (r : Text) (dirty : Bool) (error : Option Text)
      → let g = gather env w id budget i count bytes (some r) dirty error items in
        AllTo r g.taken × AllSentTo r g.messages
  unfolding gather
  gather_to [] i count bytes r dirty error = (tt, tt)
  gather_to (item ∷ items) i count bytes r dirty error = grind (arith, gather_to items)

  -- A request over its budget takes no more items.
  gather_full :
      (items : List OutboxItem) (i count bytes : ℕ) (r : Option Text) (dirty : Bool)
      (error : Option Text)
      → 0 < count
      → budget < bytes
      → let g = gather env w id budget i count bytes r dirty error items in
        (g.taken ≡ []) × (g.bytes ≡ bytes)
  unfolding gather
  gather_full [] i count bytes r dirty error h k = ground arith
  gather_full (item ∷ items) i count bytes r dirty error h k = grind (arith, gather_full items)

  gather_within :
      (items : List OutboxItem) (i count bytes : ℕ) (r : Option Text) (dirty : Bool)
      (error : Option Text)
      → 0 < count
      → bytes ≤ budget
      → (gather env w id budget i count bytes r dirty error items).bytes ≤ budget
  unfolding gather
  gather_within [] i count bytes r dirty error h k = ground arith
  gather_within (item ∷ items) i count bytes r dirty error h k = grind (arith, gather_within items)

  pub gather-Dropped :
      (items : List OutboxItem) (i count bytes : ℕ) (r : Option Text) (dirty : Bool)
      (error : Option Text)
      → let g = gather env w id budget i count bytes r dirty error items in
        Dropped env w id items (g.taken ++ g.rest)
  unfolding gather
  gather-Dropped [] i count bytes r dirty error = same []
  gather-Dropped (item ∷ items) i count bytes r dirty error =
      elim (Bool-cases (leb max_send_batch count || other_recipient r item.recipient)) [
        | inl stop ↦ rw stop (same (item ∷ items))
        | inr go ↦ rw go (elim (Option-cases (encrypt_for env w i id item)) [
          | inl bad ↦ rw bad (drop_item i item bad (gather-Dropped items _ _ _ _ _ _))
          | inr (blob, good) ↦
              rw good
                (elim (Bool-cases
                  (ltb 0 count && ltb budget (bytes + text_len (env.prims.hex_encode blob)))) [
                    | inl full ↦ rw full (same (item ∷ items))
                    | inr room ↦ rw room (keep item (gather-Dropped items _ _ _ _ _ _))
                  ])
        ])
      ]

  pub gather_bytes :
      (items : List OutboxItem) (i : ℕ) (dirty : Bool) (error : Option Text)
      → let g = gather env w id budget i 0 0 none dirty error items in
        (g.bytes ≤ budget) ⊎ (length g.taken ≡ 1)
  unfolding gather
  gather_bytes [] i dirty error = inl (omega arith)
  gather_bytes (item ∷ items) i dirty error =
      grind (arith, gather_bytes items, gather_full items, gather_within items)

  pub gather-OneRecipient :
      (items : List OutboxItem) (i : ℕ) (dirty : Bool) (error : Option Text)
      → let g = gather env w id budget i 0 0 none dirty error items in
        OneRecipient g.taken g.messages
  unfolding gather
  gather-OneRecipient [] i dirty error = refl
  gather-OneRecipient (item ∷ items) i dirty error =
      grind (arith, gather-OneRecipient items, gather_to items)

-- One round of the send loop takes at most a hundred items, all for one recipient, with one
-- envelope for each, in order, that has the blob that the item is sealed to; the bytes counted are
-- those of these blobs, and they fit the budget unless there is only one item; and the items left,
-- taken or not, are those of the outbox in order, without some that could not be encrypted.
pub gather_lem :
    (env : Env) (w : World) (id : Identity) (budget : ℕ) (items : List OutboxItem)
    (error : Option Text)
    → let g = gather env w id budget 0 0 0 none false error items in
      (length g.taken ≤ max_send_batch)
      × Sealed env w id g.taken g.messages
      × OneRecipient g.taken g.messages
      × (g.bytes ≡ sent_size g.messages)
      × ((sent_size g.messages ≤ budget) ⊎ (length g.taken ≡ 1))
      × Dropped env w id items (g.taken ++ g.rest)
gather_lem env w id budget items error =
    let size = gather_size env w id budget items 0 0 0 none false error (omega arith) in
    let counted = gather-sent_size env w id budget items 0 0 0 none false error in
    (
      omega (arith, size.0),
      gather-Sealed env w id budget items 0 0 0 none false error,
      gather-OneRecipient env w id budget items 0 false error,
      omega (arith, counted),
      elim (gather_bytes env w id budget items 0 false error) [
        | inl fits ↦ inl (omega (arith, fits, counted))
        | inr one ↦ inr one
      ],
      gather-Dropped env w id budget items 0 0 0 none false error,
    )
