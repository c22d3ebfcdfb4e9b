-- ===== src/App/Acks.antt =====
-- The acks owed go out in parts that their reader accepts.
use skrepka.Base.{
  ℕ, zero, suc, ◌+◌, ◌-◌, ◌≤◌, ◌<◌, ◌≡◌, refl, List, [], ◌∷◌, ◌++◌, arith, Text, length,
  length-append,
}
use mathlib.Core.List.{append_assoc, append-nil}
use skrepka.Base.{true, ◌⊎◌, inl, inr, ℤ}
use skrepka.Base.Map.{Map}
use skrepka.Domain.{OutboxItem, new_item}
use skrepka.Protocol.{delivery_ack, serialize_payload, max_ack_ids}
use skrepka.App.State.{Env}
use skrepka.App.Ingest.{PageFold, chunks, chunks_from, ack_items, queue_acks}

-- No part is empty or larger than `n`.
abbrev Sized : ℕ → List (List Text) → Type 0
Sized n [] = Unit
Sized n (part ∷ parts) = (0 < length part) × (length part ≤ n) × Sized n parts

abbrev joined : List (List Text) → List Text
joined [] = []
joined (part ∷ parts) = part ++ joined parts

append_cons :
    {A : Type 0} (xs : List A) (y : A) (ys : List A) → (xs ++ (y ∷ [])) ++ ys ≡ xs ++ (y ∷ ys)
append_cons [] y ys = refl
append_cons (x ∷ xs) y ys = rw (append_cons xs y ys)

chunks_from_lem :
    (n room : ℕ) (begun ids : List Text)
    → 0 < n
    → 0 < length begun
    → length begun + room ≡ n
    → Sized n (chunks_from n room begun ids)
      × (joined (chunks_from n room begun ids) ≡ begun ++ ids)
unfolding chunks_from
chunks_from_lem n room begun [] h k e = ground arith
chunks_from_lem n zero begun (x ∷ xs) h k e =
    ground (arith, chunks_from_lem n (n - 1) (x ∷ []) xs h (omega arith) (omega arith))
chunks_from_lem n (suc room) begun (x ∷ xs) h k e =
    let longer = length-append begun (x ∷ []) in
    ground (
      arith,
      append_cons begun x xs,
      chunks_from_lem n room (begun ++ (x ∷ [])) xs h (omega (arith, longer))
          (omega (arith, longer)),
    )

-- A list cut into parts of at most `n` has no empty part and is all in them, in order.
chunks_lem :
    (n : ℕ) (ids : List Text) → 0 < n → Sized n (chunks n ids) × (joined (chunks n ids) ≡ ids)
unfolding chunks
chunks_lem n [] h = (tt, refl)
chunks_lem n (x ∷ xs) h = chunks_from_lem n (n - 1) (x ∷ []) xs h (omega arith) (omega arith)

module _ (env : Env) (ts : ℤ) where
  -- The messages that acknowledge the ids to the sender: every id stands in one, in order, and no
  -- message has none or more than its reader accepts.
  pub data Acks (sender : Text) : List Text → List OutboxItem → Type 0 where
    no_more : Acks sender [] []
    ack :
        (part : List Text) {ids : List Text} {items : List OutboxItem}
        → 0 < length part
        → length part ≤ max_ack_ids
        → Acks sender ids items
        → Acks sender
            (part ++ ids)
            (new_item sender (serialize_payload env.render_json (delivery_ack part) ts) ∷ items)

  pub data AllAcks : Map (List Text) → List OutboxItem → Type 0 where
    no_more : AllAcks [] []
    to :
        (sender : Text) {ids : List Text} {rest : Map (List Text)} {items others : List OutboxItem}
        → Acks sender ids items
        → AllAcks rest others
        → AllAcks ((sender, ids) ∷ rest) (items ++ others)

  ack_items-Acks :
      (sender : Text) (parts : List (List Text))
      → Sized max_ack_ids parts
      → Acks sender (joined parts) (ack_items env ts sender parts)
  unfolding ack_items
  ack_items-Acks sender [] sized = no_more
  ack_items-Acks sender (part ∷ parts) (some_id, fits, sized) =
      ack part some_id fits (ack_items-Acks sender parts sized)

  queue_acks-outbox_dirty :
      (owed : Map (List Text)) (g : PageFold)
      → g.outbox_dirty ≡ true
      → (queue_acks env ts owed g).outbox_dirty ≡ true
  unfolding queue_acks
  queue_acks-outbox_dirty [] g dirty = dirty
  queue_acks-outbox_dirty ((sender, ids) ∷ rest) g dirty = queue_acks-outbox_dirty rest _ refl

  -- The acks owed go to the end of the outbox, those of each sender in messages that its reader
  -- accepts and that have all the ids owed to it, in order; nothing else of the model changes, and
  -- the outbox is marked to be written if anything was owed.
  pub queue_acks_lem :
      (owed : Map (List Text)) (g : PageFold)
      → let after = queue_acks env ts owed g in
        (items : List OutboxItem) × AllAcks owed items
        × (after.model ≡ record (g.model) { outbox = g.model.outbox ++ items })
        × ((owed ≡ []) ⊎ (after.outbox_dirty ≡ true))
  unfolding queue_acks
  queue_acks_lem [] g = ([], no_more, rw (append-nil g.model.outbox) refl, inl refl)
  queue_acks_lem ((sender, ids) ∷ rest) g =
      let cut = chunks_lem max_ack_ids ids (omega arith) in
      let own = ack_items env ts sender (chunks max_ack_ids ids) in
      let told_own : Acks sender ids own = rw cut.1 at (ack_items-Acks sender _ cut.0) in
      let (others, told, same, d) = queue_acks_lem rest (record g {
        model = record (g.model) { outbox = g.model.outbox ++ own };
        outbox_dirty = true;
      }) in
      (
        own ++ others,
        to sender told_own told,
        rw same (rw (append_assoc g.model.outbox own others) refl),
        inr (queue_acks-outbox_dirty rest _ refl),
      )
