-- ===== src/App/Exhaust.antt =====
-- The send loop against a relay that cannot be reached.
use skrepka.Base.{
  ℕ, zero, suc, ◌+◌, ◌-◌, ◌*◌, ◌≤◌, ◌≡◌, refl, ap, ◌⊎◌, inl, inr, true, false, none, some, List, [],
  ◌∷◌, arith, Text, length, err, ltb_ℤ, Bool-cases, ◌==◌, ℤ,
}
use skrepka.Domain.{OutboxItem, max_outbox_retries, is_expired}
use skrepka.App.State.{
  Model, Env, World, send_result, start_flush, InFlight, Body, flush_gate, retry_at,
}
use skrepka.App.Guards.{persist_outbox, refuse_write}
use skrepka.App.Outbox.{flush_next, retry_batch, on_send_result, charge}
use skrepka.App.Drain.{IsReady, Busy, Keeps, Keeps-IsReady, load, flush_next_serves}
use skrepka.App.Update.{update}

-- A send is under way, or the guard is down.
abbrev pub IsAwake : Model → Type 0
IsAwake m = Busy m ⊎ (m.flushing ≡ false)

load-charge :
    (n : ℕ) (now : ℤ) (xs : List OutboxItem) → 1 ≤ n → load (charge n now xs).0 ≤ load xs - 1
unfolding charge is_expired
load-charge zero now xs h = absurd (omega arith)
load-charge (suc n) now [] h = omega arith
load-charge (suc zero) now (x ∷ []) h = ground arith
load-charge (suc zero) now (x ∷ y ∷ xs) h = ground arith
load-charge (suc (suc n)) now (x ∷ xs) h = ground (arith, load-charge (suc n) now xs)

load-zero : (xs : List OutboxItem) → load xs ≤ 0 → xs ≡ []
load-zero [] h = refl
load-zero (x ∷ xs) h = absurd (omega arith)

load_bound : (xs : List OutboxItem) → load xs ≤ length xs * (max_outbox_retries + 1)
load_bound [] = omega arith
load_bound (x ∷ xs) = omega (arith, load_bound xs)

module _ (env : Env) (w : World) (buildable : (body : Body) → env.buildable body ≡ true) where
  -- A refused batch is charged, and then the loop goes on or rests.
  abbrev Charged : Model → InFlight → Model → Type 0
  Charged m b n =
      let kept = (charge b.count (w.now retry_at) m.outbox).0 in
      (Keeps m n × (n.outbox ≡ kept) × (n.flushing ≡ false))
      ⊎ ((k : Model) × Keeps m k
          × (k.outbox ≡ kept)
          × (k.flushing ≡ false)
          × (n ≡ (flush_next env w k).0))

  retry-Charged :
      (m : Model) (b : InFlight)
      → m.flushing ≡ false
      → m.kv_load_failed ≡ false
      → Charged m b (retry_batch env w m (some b)).0
  unfolding retry_batch persist_outbox refuse_write
  retry-Charged m b idle writable =
      elim (Bool-cases ((charge b.count (w.now retry_at) m.outbox).1 == 0)) [
        | inl none_left ↦ inl (
          record {
            secret = ground arith;
            token = ground arith;
            latch = ground arith;
            pause = ground arith;
          },
          ground arith,
          ground arith,
        )
        | inr some_left ↦ inr (
            rw some_left (
              _,
              record {
                secret = ground arith;
                token = ground arith;
                latch = ground arith;
                pause = ground arith;
              },
              ground arith,
              ground arith,
              refl,
            ))
      ]

  refused_lem :
      (worlds : ℕ → World) (m : Model) (e : Text)
      → IsReady env worlds m
      → ltb_ℤ (w.now flush_gate) m.flush_paused_until ≡ false
      → Busy m
      → let n = (on_send_result env w m.flush_gen (err e) m).0 in
        IsReady env worlds n × (load n.outbox ≤ load m.outbox - 1) × IsAwake n
  unfolding on_send_result
  refused_lem worlds m e r now (b, up, flown, many) =
      let landed = record m { flushing = false; in_flight = none } in
      let k0 : Keeps m landed = record {
        secret = refl;
        token = refl;
        latch = refl;
        pause = refl;
      } in
      let ready = Keeps-IsReady env worlds m landed k0 r in
      let less = load-charge b.count (w.now retry_at) m.outbox many in
      let steps : (on_send_result env w m.flush_gen (err e) m).0
          ≡ (retry_batch env w landed (some b)).0 =
        ground (arith, flown) in
      rw steps (elim (retry-Charged landed b refl r.writable) [
        | inl (k, left, idle) ↦ (Keeps-IsReady env worlds landed _ k ready, rw left less, inr idle)
        | inr (n, k, left, idle, runs) ↦
            let (ready', size, served) =
              flush_next_serves env w buildable worlds n (Keeps-IsReady env worlds landed n k ready)
                (rw k.pause now) idle in
            rw runs (
              ready',
              omega (arith, size.1, ap load left, less),
              elim served [ inl busy ↦ inl busy | inr done ↦ inr done.0 ],
            )
      ])

-- `n` rounds of a shell without a network: a send under way fails with the error `e`, and where none
-- is under way the loop is started again. A round that `k` more follow is in the world `worlds k`.
unfoldable pub strive : Env → (ℕ → World) → Text → ℕ → Model → Model
strive env worlds e zero m = m
strive env worlds e (suc n) m = elim m.flushing [
  | true ↦ strive env worlds e n (update env (worlds n) (send_result m.flush_gen (err e)) m).0
  | false ↦ strive env worlds e n (update env (worlds n) start_flush m).0
]

strive_fails :
    (env : Env) (worlds : ℕ → World) (e : Text) (n : ℕ) (m : Model)
    → m.flushing ≡ true
    → strive env worlds e (suc n) m
      ≡ strive env worlds e n (on_send_result env (worlds n) m.flush_gen (err e) m).0
unfolding strive update
strive_fails env worlds e n m up = ground arith

strive_starts :
    (env : Env) (worlds : ℕ → World) (e : Text) (n : ℕ) (m : Model)
    → m.flushing ≡ false
    → strive env worlds e (suc n) m ≡ strive env worlds e n (flush_next env (worlds n) m).0
unfolding strive update
strive_starts env worlds e n m idle = ground arith

module _ (env : Env) (worlds : ℕ → World) (e : Text)
    (buildable : (body : Body) → env.buildable body ≡ true) where
  -- Once the outbox is empty it stays so.
  strive_empty :
      (n : ℕ) (m : Model)
      → IsReady env worlds m
      → IsAwake m
      → load m.outbox ≤ 0
      → (strive env worlds e n m).outbox ≡ []
  strive_empty zero m r a h = unfold strive in load-zero m.outbox h
  strive_empty (suc n) m r (inl busy) h =
      let (r', less, a') = refused_lem env (worlds n) buildable worlds m e r (r.unpaused n) busy in
      rw (strive_fails env worlds e n m busy.1) (strive_empty n _ r' a' (omega (arith, less)))
  strive_empty (suc n) m r (inr idle) h =
      let (r', size, served) =
        flush_next_serves env (worlds n) buildable worlds m r (r.unpaused n) idle in
      rw (strive_starts env worlds e n m idle) (
        strive_empty n _ r' (elim served [ inl busy ↦ inl busy | inr done ↦ inr done.0 ])
          (omega (arith, size.1)))

  -- Two rounds for every attempt left, and one to begin.
  abbrev Lasts : ℕ → Model → Type 0
  Lasts n m =
      (Busy m × (2 * load m.outbox ≤ n)) ⊎ ((m.flushing ≡ false) × (2 * load m.outbox + 1 ≤ n))

  strive_lem :
      (n : ℕ) (m : Model) → IsReady env worlds m → Lasts n m → (strive env worlds e n m).outbox ≡ []
  strive_lem zero m r (inl (busy, h)) = strive_empty zero m r (inl busy) (omega arith)
  strive_lem zero m r (inr (idle, h)) = absurd (omega arith)
  strive_lem (suc n) m r (inl (busy, h)) =
      let after = (on_send_result env (worlds n) m.flush_gen (err e) m).0 in
      let (r', less, a') = refused_lem env (worlds n) buildable worlds m e r (r.unpaused n) busy in
      let either : (load after.outbox ≤ 0) ⊎ (2 * load after.outbox + 1 ≤ n) =
        omega (arith, less) in
      rw (strive_fails env worlds e n m busy.1) (elim either [
        | inl nothing ↦ strive_empty n after r' a' nothing
        | inr enough ↦
            strive_lem n after r'
              (elim a' [ inl again ↦ inl (again, omega arith) | inr rests ↦ inr (rests, enough) ])
      ])
  strive_lem (suc n) m r (inr (idle, h)) =
      let (r', size, served) =
        flush_next_serves env (worlds n) buildable worlds m r (r.unpaused n) idle in
      rw (strive_starts env worlds e n m idle) (elim served [
        | inl busy ↦ strive_lem n _ r' (inl (busy, omega (arith, size.1)))
        | inr (rests, nothing) ↦ strive_empty n _ r' (inr rests) (rw nothing (omega arith))
      ])

-- Against a relay that cannot be reached the loop ends: from a model that is signed in, has readable
-- storage, no pause to wait for and no send under way, with requests that can be built, the outbox
-- is empty after 22 rounds for each item and one more, in which a send under way fails and a loop at
-- rest is started again.
pub outbox_exhausts :
    (env : Env) (worlds : ℕ → World) (e : Text) (m : Model)
    → ((body : Body) → env.buildable body ≡ true)
    → IsReady env worlds m
    → m.flushing ≡ false
    → (strive env worlds e (length m.outbox * 22 + 1) m).outbox ≡ []
outbox_exhausts env worlds e m builds r idle =
    strive_lem env worlds e builds (length m.outbox * 22 + 1) m r
      (inr (idle, omega (arith, load_bound m.outbox)))
