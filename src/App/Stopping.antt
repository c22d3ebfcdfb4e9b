-- ===== src/App/Stopping.antt =====
-- Why a round of the send loop takes no more.
use skrepka.Base.{
  ℕ, ◌+◌, ◌≤◌, ◌<◌, ◌≡◌, refl, ◌⊎◌, inl, inr, Bool, true, false, ◌&&◌, ◌||◌, Option, none, some,
  List, [], ◌∷◌, Bytes, arith, Text, length, leb, ltb, text_len, Bool-cases, Option-cases,
}
use skrepka.Crypto.{Identity}
use skrepka.Domain.{OutboxItem}
use skrepka.App.State.{Env, World}
use skrepka.App.Batching.{sent_size, gather-sent_size}
use skrepka.App.Outbox.{gather, Gathered, encrypt_for, max_send_batch, other_recipient}

-- The recipient of a batch, `r` before anything is taken.
abbrev pub recipient_of : Option Text → List OutboxItem → Option Text
recipient_of r [] = r
recipient_of r (x ∷ xs) = recipient_of (some x.recipient) xs

module _ (env : Env) (w : World) (id : Identity) (budget : ℕ) where
  -- A batch of `n` items, `bytes` large and for `to`, does not take `next`: it is full, or for
  -- another, or there is something in it and `next` is too large to go with it.
  abbrev pub Refuses : ℕ → ℕ → Option Text → OutboxItem → Type 0
  Refuses n bytes to next =
      (max_send_batch ≤ n)
      ⊎ ((other_recipient to next.recipient ≡ true)
          ⊎ ((j : ℕ) × (blob : Bytes) × (encrypt_for env w j id next ≡ some blob)
              × (0 < n)
              × (budget < bytes + text_len (env.prims.hex_encode blob))))

  -- A round whose batch has `n` items and is `bytes` large leaves nothing, or its batch refuses the
  -- first item that it leaves.
  abbrev pub Stops : ℕ → ℕ → Option Text → Gathered → Type 0
  Stops n bytes to g =
      (g.rest ≡ [])
      ⊎ ((next : OutboxItem) × (others : List OutboxItem) × (g.rest ≡ next ∷ others)
          × Refuses n bytes to next)

  stopped :
      (next : OutboxItem) (count n bytes : ℕ) (r : Option Text)
      → leb max_send_batch count || other_recipient r next.recipient ≡ true
      → count ≡ n
      → Refuses n bytes r next
  stopped next count n bytes r stop e = elim (Bool-cases (leb max_send_batch count)) [
    | inl full ↦ inl (ground arith)
    | inr room ↦ inr (inl (ground (arith, room)))
  ]

  gather-Stops :
      (items : List OutboxItem) (i count bytes : ℕ) (r : Option Text) (dirty : Bool)
      (error : Option Text) (n : ℕ)
      → let g = gather env w id budget i count bytes r dirty error items in
        count + length g.taken ≡ n → Stops n g.bytes (recipient_of r g.taken) g
  unfolding gather
  gather-Stops [] i count bytes r dirty error n = λ e. inl refl
  gather-Stops (item ∷ items) i count bytes r dirty error n =
      elim (Bool-cases (leb max_send_batch count || other_recipient r item.recipient)) [
        | inl stop ↦
            rw stop
              (λ e. inr (item, items, refl, stopped item count n bytes r stop (omega (arith, e))))
        | inr go ↦ rw go (elim (Option-cases (encrypt_for env w i id item)) [
          | inl bad ↦ rw bad (gather-Stops items _ _ _ _ _ _ n)
          | inr (blob, good) ↦
              rw good
                (elim (Bool-cases
                  (ltb 0 count && ltb budget (bytes + text_len (env.prims.hex_encode blob)))) [
                    | inl full ↦ rw full (λ e.
                        inr (
                          item,
                          items,
                          refl,
                          inr (inr (i, blob, good, ground arith, ground arith)),
                        ))
                    | inr room ↦ rw room (λ e. gather-Stops items _ _ _ _ _ _ n (omega (arith, e)))
                  ])
        ])
      ]

-- A round of the send loop leaves nothing, or stops before an item for one of three reasons: the batch
-- has a hundred items, the item is for another recipient than the batch, or the batch is not empty
-- and the item's blob does not fit the budget with the blobs of the batch.
pub round-Stops :
    (env : Env) (w : World) (id : Identity) (budget : ℕ) (items : List OutboxItem)
    (error : Option Text)
    → let g = gather env w id budget 0 0 0 none false error items in
      Stops env w id budget (length g.taken) (sent_size g.messages) (recipient_of none g.taken) g
round-Stops env w id budget items error =
    let g = gather env w id budget 0 0 0 none false error items in
    let counted : sent_size g.messages ≡ g.bytes =
      omega (arith, gather-sent_size env w id budget items 0 0 0 none false error) in
    rw counted
      (gather-Stops env w id budget items 0 0 0 none false error (length g.taken) (omega arith))
