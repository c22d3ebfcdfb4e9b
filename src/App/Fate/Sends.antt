-- ===== src/App/Fate/Sends.antt =====
-- What the send loop makes of the items of the outbox.
use skrepka.Base.{
  ℕ, ◌+◌, ◌<◌, ◌/◌, ◌≡◌, refl, Bool, true, false, ◌&&◌, ◌||◌, leb, ltb, ◌==◌, Option, none, some,
  List, [], ◌∷◌, ◌++◌, arith, Text, drop, map, Option-cases, Bool-cases, inl, inr, ◌⊎◌,
}
use skrepka.Crypto.{Identity}
use skrepka.Domain.{OutboxItem, is_expired, saturating_inc}
use skrepka.App.State.{Model, Env, World, InFlight, Response, retry_at, flush_start}
use skrepka.App.Guards.{identity, persist_outbox}
use skrepka.App.Outbox.{
  stamp, charge, encrypt_for, Gathered, launch, flush_from, flush_next, retry_batch, send_answered,
  budget_of, splittable, batch_bytes, park, rate_limit_delay, batch_count,
}
use skrepka.App.Batching.{gather-Dropped}
use skrepka.App.Alignment.Queue.{Carried}
use skrepka.App.Fate.Lists.{
  Fate, SameMail, Fate-same, Fate-drop, Fate-charge, Fate-Dropped, Fate-stamp, Fate-trans, Fate-map,
}

-- A reason for which the send loop drops an item that it cannot encrypt.
abbrev pub Unsendable : Env → World → Model → OutboxItem → Type 0
Unsendable env w m x =
    (id : Identity) × (i : ℕ) × (identity env m ≡ some id) × (encrypt_for env w i id x ≡ none)

pub Unsendable-SameMail :
    (env : Env) (w : World) (m : Model) (x y : OutboxItem)
    → SameMail x y
    → Unsendable env w m y
    → Unsendable env w m x
unfolding encrypt_for
Unsendable-SameMail env w m x y s (id, i, e, bad) =
    (id, i, e, ground (arith, s.recipient, s.envelope))

module _ (env : Env) (w : World) where
  -- `flush_next` does nothing, or sends with the identity and the token of the model.
  pub flush_next_cases :
      (m : Model)
      → (flush_next env w m ≡ (m, []))
        ⊎ ((id : Identity) × (token : Text) × (identity env m ≡ some id)
            × (flush_next env w m ≡ flush_from env w id token m))
  unfolding flush_next
  flush_next_cases m = elim (Option-cases (identity env m)) [
    | inl nobody ↦ inl (ground arith)
    | inr (id, mine) ↦ elim (Option-cases m.token) [
      | inl signed_out ↦ inl (ground arith)
      | inr (token, known) ↦
          let either : (flush_next env w m ≡ (m, []))
              ⊎ (flush_next env w m ≡ flush_from env w id token m) =
            ground arith in
          elim either [ inl idle ↦ inl idle | inr sends ↦ inr (id, token, mine, sends) ]
    ]
  ]

module _ (env : Env) (w : World) {Reason : ℕ → OutboxItem → Type 0} where
  launch-Fate :
      (token : Text) (m : Model) (g : Gathered) (taken : List OutboxItem)
      → g.taken ≡ taken
      → m.outbox ≡ taken ++ g.rest
      → Fate SameMail Reason 0 (taken ++ g.rest) (launch env w token m g).0.outbox
  unfolding launch persist_outbox
  launch-Fate token m g [] e o =
      let same : (launch env w token m g).0.outbox ≡ g.rest = ground arith in
      rw same (Fate-same g.rest)
  launch-Fate token m g (item ∷ items) e o =
      let sent : (launch env w token m g).0.outbox
          ≡ map (stamp (w.now flush_start)) (item ∷ items) ++ g.rest =
        ground arith in
      rw sent (Fate-stamp (w.now flush_start) (item ∷ items) g.rest)

module _ (env : Env) (w : World) where
  flush_from-Fate :
      (id : Identity) (token : Text) (m : Model)
      → identity env m ≡ some id
      → Fate SameMail (λ i. Unsendable env w m) 0 m.outbox (flush_from env w id token m).0.outbox
  unfolding flush_from
  flush_from-Fate id token m mine =
      Fate-trans (λ k. Unsendable-SameMail env w m)
        (Fate-Dropped env w id (λ i k x e. (id, i, mine, e))
          (gather-Dropped env w id (budget_of m.send_batch_budget) m.outbox 0 0 0 none false
            m.error))
        (launch-Fate env w token _ _ _ refl refl)

  pub flush_next-Fate :
      (m : Model) → Fate SameMail (λ i. Unsendable env w m) 0 m.outbox (flush_next env w m).0.outbox
  flush_next-Fate m = elim (flush_next_cases env w m) [
    | inl idle ↦ rw idle (Fate-same m.outbox)
    | inr (id, token, mine, sends) ↦ rw sends (flush_from-Fate id token m mine)
  ]

-- The item at place `i` of the outbox is one of the batch.
abbrev pub InBatch : Option InFlight → ℕ → OutboxItem → Type 0
InBatch none i x = ⊥
InBatch (some b) i x = (x.recipient ≡ b.recipient) × (i < b.count)

abbrev pub Spent : World → OutboxItem → Type 0
Spent w x = is_expired (record x { retries = saturating_inc x.retries }) (w.now retry_at) ≡ true

-- A sent batch is answered for good by a status in the 200s, and by 400.
abbrev pub is_final : Response → Bool
is_final resp = (leb 200 resp.status && ltb resp.status 300) || resp.status == 400

module _ (env : Env) (w : World) (m : Model) where
  -- A send that goes on from `m` with the outbox `items`.
  abbrev GoesOn : List OutboxItem → Model → Type 0
  GoesOn items after =
      (n : Model) × (n.outbox ≡ items)
      × (n.secret_key ≡ m.secret_key)
      × (after ≡ (flush_next env w n).0)

  retry_cases :
      (b : InFlight)
      → let kept = (charge b.count (w.now retry_at) m.outbox).0 in
        let after = (retry_batch env w m (some b)).0 in (after.outbox ≡ kept) ⊎ GoesOn kept after
  unfolding retry_batch persist_outbox
  retry_cases b = elim (Bool-cases ((charge b.count (w.now retry_at) m.outbox).1 == 0)) [
    | inl none_left ↦ inl (ground arith)
    | inr some_left ↦ inr (rw some_left (_, ground arith, ground arith, refl))
  ]

  send_cases :
      (b : Option InFlight) (resp : Response)
      → let after = (send_answered env w m b resp).0 in
        (after.outbox ≡ m.outbox)
        ⊎ (GoesOn m.outbox after
            ⊎ (((is_final resp ≡ true) × GoesOn (drop (batch_count b) m.outbox) after)
                ⊎ ((is_final resp ≡ false) × (after ≡ (retry_batch env w m b).0))))
  unfolding send_answered persist_outbox park rate_limit_delay
  send_cases b resp = elim (Bool-cases (resp.status == 401 || resp.status == 429)) [
    | inl stops ↦ inl (ground arith)
    | inr runs ↦ elim (Bool-cases (resp.status == 413 && splittable b)) [
      | inl splits ↦ inr (
          inl (record m { send_batch_budget = some (batch_bytes b / 2) }, refl, refl, ground arith))
      | inr whole ↦ elim (Bool-cases (is_final resp)) [
        | inl final ↦ elim (Bool-cases m.kv_load_failed) [
          | inl latched ↦
              let n = (persist_outbox env (record m { send_retries = 0 })).0 in
              inr (inl (n, ground arith, ground arith, ground arith))
          | inr writable ↦
              let n =
                (persist_outbox env
                  (record m { send_retries = 0; outbox = drop (batch_count b) m.outbox })).0 in
              inr (inr (inl (final, (n, ground arith, ground arith, ground arith))))
        ]
        | inr failed ↦ inr (inr (inr (failed, ground arith)))
      ]
    ]
  ]

pub Unsendable-same_key :
    (env : Env) (w : World) (m n : Model) (x : OutboxItem)
    → n.secret_key ≡ m.secret_key
    → Unsendable env w n x
    → Unsendable env w m x
unfolding identity
Unsendable-same_key env w m n x k (id, i, e, bad) = (id, i, ground arith, bad)

GoesOn-Fate :
    (env : Env) (w : World) (m : Model) (items : List OutboxItem) (after : Model)
    → GoesOn env w m items after
    → Fate SameMail (λ i. Unsendable env w m) 0 items after.outbox
GoesOn-Fate env w m items after (n, o, k, e) =
    rw (e, ← o) (Fate-map (λ i x u. Unsendable-same_key env w m n x k u) (flush_next-Fate env w n))

module _ (env : Env) (w : World) (m : Model) {Reason : ℕ → OutboxItem → Type 0}
    (bad : (i : ℕ) (x : OutboxItem) → Unsendable env w m x → Reason i x) where
  -- What a step leaves, and then a flush.
  then_on :
      {xs : List OutboxItem} (items : List OutboxItem) (after : Model)
      → Fate SameMail Reason 0 xs items
      → GoesOn env w m items after
      → Fate SameMail Reason 0 xs after.outbox
  then_on items after f runs =
      Fate-trans (λ i x y s u. bad i x (Unsendable-SameMail env w m x y s u)) f
        (GoesOn-Fate env w m items after runs)

  pub retry_batch-Fate :
      (b : Option InFlight)
      → Carried b m.outbox
      → ((i : ℕ) (x : OutboxItem) → InBatch b i x → Spent w x → Reason i x)
      → Fate SameMail Reason 0 m.outbox (retry_batch env w m b).0.outbox
  retry_batch-Fate none c old = unfold retry_batch in (Fate-same m.outbox)
  retry_batch-Fate (some b) c old =
      let charged =
        Fate-charge (w.now retry_at) b.recipient b.count m.outbox c.2
          (λ i x e (l : i < 0 + b.count) spent. old i x (e, omega arith) spent) in
      elim (retry_cases env w m b) [
        | inl stops ↦ rw stops charged
        | inr runs ↦ then_on _ _ charged runs
      ]

  popped-Fate :
      (b : Option InFlight)
      → Carried b m.outbox
      → ((i : ℕ) (x : OutboxItem) → InBatch b i x → Reason i x)
      → Fate SameMail Reason 0 m.outbox (drop (batch_count b) m.outbox)
  popped-Fate none c done = Fate-same m.outbox
  popped-Fate (some b) c done =
      Fate-drop b.recipient b.count m.outbox c.2
        (λ i x e (l : i < 0 + b.count). done i x (e, omega arith))

  pub send_answered-Fate :
      (b : Option InFlight) (resp : Response)
      → Carried b m.outbox
      → ((i : ℕ) (x : OutboxItem) → InBatch b i x → Spent w x → is_final resp ≡ false → Reason i x)
      → ((i : ℕ) (x : OutboxItem) → InBatch b i x → is_final resp ≡ true → Reason i x)
      → Fate SameMail Reason 0 m.outbox (send_answered env w m b resp).0.outbox
  send_answered-Fate b resp c old done = elim (send_cases env w m b resp) [
    | inl stops ↦ rw stops (Fate-same m.outbox)
    | inr (inl runs) ↦ then_on _ _ (Fate-same m.outbox) runs
    | inr (inr (inl (final, runs))) ↦ then_on _ _ (popped-Fate b c (λ k x i. done k x i final)) runs
    | inr (inr (inr (failed, e))) ↦
        rw e (retry_batch-Fate b c (λ k x i spent. old k x i spent failed))
  ]
