-- ===== src/App/Drain/Rounds.antt =====
-- What a flush and the answer to a batch that was taken leave to be sent.
use skrepka.Base.{
  ◌+◌, ℕ, zero, suc, ◌-◌, ◌≤◌, ◌≡◌, refl, ◌∙◌, ◌⊎◌, inl, inr, Bool, true, false, ◌&&◌, leb, ltb,
  Option, none, some, List, [], ◌∷◌, ◌++◌, arith, Text, length, drop, map, ltb_ℤ, ok,
}
use skrepka.Crypto.{Identity}
use skrepka.Domain.{OutboxItem, max_outbox_retries}
use skrepka.App.State.{
  Model, Env, World, Response, InFlight, send_batch, Body, flush_gate, flush_start,
}
use skrepka.App.Guards.{identity, persist_outbox, refuse_write, next_flush_gen}
use skrepka.App.Outbox.{
  gather, Gathered, launch, flush_from, flush_next, send_answered, on_send_result, budget_of, stamp,
}
use skrepka.App.Batching.{Dropped, same, keep, drop_item, gather-Dropped}

-- Signed in, with storage that can be written and with no pause to wait for.
pub record IsReady (env : Env) (worlds : ℕ → World) (m : Model) : Type 0 where
  pub mine : (id : Identity) × (identity env m ≡ some id)
  pub token : (t : Text) × (m.token ≡ some t)
  pub writable : m.kv_load_failed ≡ false
  pub unpaused : (n : ℕ) → ltb_ℤ ((worlds n).now flush_gate) m.flush_paused_until ≡ false

-- A batch is on its way, or there is nothing to send.
abbrev pub Busy : Model → Type 0
Busy m = (b : InFlight) × (m.flushing ≡ true) × (m.in_flight ≡ some b) × (1 ≤ b.count)

abbrev pub IsServed : Model → Type 0
IsServed m = Busy m ⊎ ((m.flushing ≡ false) × (m.outbox ≡ []))

-- What a later model keeps of an earlier one.
pub record Keeps (m n : Model) : Type 0 where
  pub secret : n.secret_key ≡ m.secret_key
  pub token : n.token ≡ m.token
  pub latch : n.kv_load_failed ≡ m.kv_load_failed
  pub pause : n.flush_paused_until ≡ m.flush_paused_until

pub Keeps-IsReady :
    (env : Env) (worlds : ℕ → World) (m n : Model)
    → Keeps m n
    → IsReady env worlds m
    → IsReady env worlds n
unfolding identity
Keeps-IsReady env worlds m n k r = record {
  mine = (r.mine.0, ground (arith, k.secret, r.mine.1));
  token = (r.token.0, k.token ∙ r.token.1);
  writable = k.latch ∙ r.writable;
  unpaused = λ i. rw k.pause (r.unpaused i);
}

pub length-zero : (xs : List OutboxItem) → length xs ≤ 0 → xs ≡ []
length-zero [] h = refl
length-zero (x ∷ xs) h = absurd (omega arith)

length-drop_lem : (n : ℕ) (xs : List OutboxItem) → 1 ≤ n → length (drop n xs) ≤ length xs - 1
length-drop_lem zero xs h = absurd (omega arith)
length-drop_lem (suc n) [] h = omega arith
length-drop_lem (suc zero) (x ∷ xs) h = omega arith
length-drop_lem (suc (suc n)) (x ∷ xs) h = omega (arith, length-drop_lem (suc n) xs)

-- The failed sends that an item outlives at most, and one more.
abbrev pub attempts : OutboxItem → ℕ
attempts x = suc (max_outbox_retries - x.retries)

abbrev pub load : List OutboxItem → ℕ
load [] = 0
load (x ∷ xs) = attempts x + load xs

abbrev pub NoLarger : List OutboxItem → List OutboxItem → Type 0
NoLarger xs ys = (length ys ≤ length xs) × (load ys ≤ load xs)

NoLarger-eq : (xs ys : List OutboxItem) → ys ≡ xs → NoLarger xs ys
NoLarger-eq xs ys e = rw e (omega arith, omega arith)

stamped-NoLarger :
    (env : Env) (w : World) (xs ys : List OutboxItem)
    → NoLarger (xs ++ ys) (map (stamp (w.now flush_start)) xs ++ ys)
unfolding stamp
stamped-NoLarger env w [] ys = (omega arith, omega arith)
stamped-NoLarger env w (x ∷ xs) ys = ground (arith, stamped-NoLarger env w xs ys)

Dropped-NoLarger :
    (env : Env) (w : World) (id : Identity) {xs ys : List OutboxItem}
    → Dropped env w id xs ys
    → NoLarger xs ys
Dropped-NoLarger env w id (same items) = (omega arith, omega arith)
Dropped-NoLarger env w id (keep item d) = ground (arith, Dropped-NoLarger env w id d)
Dropped-NoLarger env w id (drop_item i item e d) = ground (arith, Dropped-NoLarger env w id d)

-- A round that begins with nothing takes something, unless it leaves nothing.
gather_takes :
    (env : Env) (w : World) (id : Identity) (budget : ℕ) (items : List OutboxItem) (i : ℕ)
    (dirty : Bool) (error : Option Text)
    → let g = gather env w id budget i 0 0 none dirty error items in g.taken ≡ [] → g.rest ≡ []
unfolding gather
gather_takes env w id budget [] i dirty error e = refl
gather_takes env w id budget (item ∷ items) i dirty error e =
    grind (arith, gather_takes env w id budget items)

module _ (env : Env) (w : World) (buildable : (body : Body) → env.buildable body ≡ true) where
  launch_lem :
      (token : Text) (m : Model) (g : Gathered) (taken : List OutboxItem)
      → g.taken ≡ taken
      → m.outbox ≡ taken ++ g.rest
      → m.flushing ≡ false
      → m.kv_load_failed ≡ false
      → let n = (launch env w token m g).0 in
        Keeps m n
        × (NoLarger (taken ++ g.rest) n.outbox
            × (Busy n ⊎ ((n.flushing ≡ false) × (taken ≡ []) × (n.outbox ≡ g.rest))))
  unfolding launch persist_outbox refuse_write next_flush_gen
  launch_lem token m g [] e o idle writable = (
    record {
      secret = ground arith;
      token = ground arith;
      latch = ground arith;
      pause = ground arith;
    },
    (NoLarger-eq _ _ (ground arith), inr (ground arith)),
  )
  launch_lem token m g (item ∷ items) e o idle writable =
      let builds = buildable (send_batch g.messages) in
      let k : Keeps m (launch env w token m g).0 = record {
        secret = ground (arith, builds);
        token = ground (arith, builds);
        latch = ground (arith, builds);
        pause = ground (arith, builds);
      } in
      let sent : (launch env w token m g).0.outbox
          ≡ map (stamp (w.now flush_start)) (item ∷ items) ++ g.rest =
        ground (arith, builds) in
      let up : (launch env w token m g).0.flushing ≡ true = ground (arith, builds) in
      let flown : (launch env w token m g).0.in_flight
          ≡ some (record {
            recipient = item.recipient;
            count = length (item ∷ items);
            bytes = g.bytes;
          }) =
        ground (arith, builds) in
      (k, (rw sent (stamped-NoLarger env w (item ∷ items) g.rest), inl (_, up, flown, omega arith)))

  flush_next_runs :
      (m : Model) (id : Identity) (token : Text)
      → identity env m ≡ some id
      → m.token ≡ some token
      → m.kv_load_failed ≡ false
      → ltb_ℤ (w.now flush_gate) m.flush_paused_until ≡ false
      → m.flushing ≡ false
      → flush_next env w m ≡ flush_from env w id token m
  unfolding flush_next
  flush_next_runs m id token mine known writable now idle = ground arith

  flush_from_serves :
      (id : Identity) (token : Text) (m : Model)
      → m.kv_load_failed ≡ false
      → m.flushing ≡ false
      → let n = (flush_from env w id token m).0 in
        Keeps m n × NoLarger m.outbox n.outbox × IsServed n
  unfolding flush_from
  flush_from_serves id token m writable idle =
      let g = gather env w id (budget_of m.send_batch_budget) 0 0 0 none false m.error m.outbox in
      let m' = record m { outbox = g.taken ++ g.rest; error = g.error } in
      let (k, (size, served)) = launch_lem token m' g g.taken refl refl idle writable in
      let fits = Dropped-NoLarger env w id (
        gather-Dropped env w id (budget_of m.send_batch_budget) m.outbox 0 0 0 none false
          m.error) in
      (
        record { secret = k.secret; token = k.token; latch = k.latch; pause = k.pause },
        (omega (arith, size.0, fits.0), omega (arith, size.1, fits.1)),
        elim served [
          | inl busy ↦ inl busy
          | inr (rests, nothing, left) ↦ inr (
            rests,
            left
                ∙ gather_takes env w id (budget_of m.send_batch_budget) m.outbox 0 false m.error
                    nothing,
          )
        ],
      )

  pub flush_next_serves :
      (worlds : ℕ → World) (m : Model)
      → IsReady env worlds m
      → ltb_ℤ (w.now flush_gate) m.flush_paused_until ≡ false
      → m.flushing ≡ false
      → let n = (flush_next env w m).0 in
        IsReady env worlds n × NoLarger m.outbox n.outbox × IsServed n
  flush_next_serves worlds m r now idle =
      let (k, size, served) = flush_from_serves r.mine.0 r.token.0 m r.writable idle in
      rw (flush_next_runs m r.mine.0 r.token.0 r.mine.1 r.token.1 r.writable now idle)
        (Keeps-IsReady env worlds m _ k r, size, served)

  -- The answer to a batch that the relay took.
  pub accepted_serves :
      (worlds : ℕ → World) (m : Model) (resp : Response)
      → leb 200 resp.status && ltb resp.status 300 ≡ true
      → IsReady env worlds m
      → ltb_ℤ (w.now flush_gate) m.flush_paused_until ≡ false
      → Busy m
      → let n = (on_send_result env w m.flush_gen (ok resp) m).0 in
        IsReady env worlds n × (length n.outbox ≤ length m.outbox - 1) × IsServed n
  unfolding on_send_result send_answered persist_outbox refuse_write
  accepted_serves worlds m resp taken r now (b, up, flown, many) =
      let popped = record m {
        flushing = false;
        in_flight = none;
        send_retries = 0;
        outbox = drop b.count m.outbox;
      } in
      let steps : (on_send_result env w m.flush_gen (ok resp) m).0 ≡ (flush_next env w popped).0 =
        ground (arith, r.writable) in
      let k : Keeps m popped = record { secret = refl; token = refl; latch = refl; pause = refl } in
      let (ready, size, served) =
        flush_next_serves worlds popped (Keeps-IsReady env worlds m popped k r) now refl in
      rw steps (ready, omega (arith, size.0, length-drop_lem b.count m.outbox many), served)
