-- ===== src/App/Storage/Launch.antt =====
-- A round of the send loop writes the outbox if it has changed it.
use skrepka.Base.{
  ℕ, ◌≡◌, refl, inl, inr, Bool, true, false, ◌||◌, Option, none, some, List, [], ◌∷◌, ◌++◌, arith,
  Text, map, Bool-cases, codes, ℤ, if◌then◌else◌, ap, ◌∙◌, sym,
}
use skrepka.Crypto.{Identity}
use skrepka.Domain.{OutboxItem}
use skrepka.App.State.{
  Model, Env, World, Cmd, flush_start, render, http_post, notify_after, send_batch, send_result,
  flush_watchdog, watchdog_ms,
}
use skrepka.App.Guards.{persist_outbox, next_flush_gen}
use skrepka.App.Outbox.{
  stamp, any_unsent, Gathered, gather, launch, flush_from, flush_next, budget_of, and_render,
}
use skrepka.App.Latch.{NoWrites}
use skrepka.App.Fate.Sends.{flush_next_cases}
use skrepka.App.Storage.{
  Disk, Stale, clean, Saved, KeepsData, SameParts, performed, SameParts-Saved, after-Saved,
}
use skrepka.App.Storage.Writes.{persist_outbox-Saved}

module _ (env : Env) (w : World) (id : Identity) (budget : ℕ) where
  gather_stays_dirty :
      (items : List OutboxItem) (i count bytes : ℕ) (r : Option Text) (error : Option Text)
      → (gather env w id budget i count bytes r true error items).dirty ≡ true
  unfolding gather
  gather_stays_dirty [] i count bytes r error = refl
  gather_stays_dirty (item ∷ items) i count bytes r error = grind (arith, gather_stays_dirty items)

  -- A round that reports no drop has dropped nothing.
  gather_whole :
      (items : List OutboxItem) (i count bytes : ℕ) (r : Option Text) (error : Option Text)
      → let g = gather env w id budget i count bytes r false error items in
        g.dirty ≡ false → g.taken ++ g.rest ≡ items
  unfolding gather
  gather_whole [] i count bytes r error h = refl
  gather_whole (item ∷ items) i count bytes r error h =
      grind (arith, gather_whole items, gather_stays_dirty items)

stamp_sent :
    (now : ℤ) (items : List OutboxItem) → any_unsent items ≡ false → map (stamp now) items ≡ items
unfolding any_unsent stamp
stamp_sent now [] h = refl
stamp_sent now (item ∷ items) h = ground (arith, stamp_sent now items)

-- The model after a round of the loop, when storage is behind with the outbox just if items were
-- dropped.
abbrev pub behind : Bool → Stale
behind dirty = record clean { outbox = dirty }

module _ (env : Env) (w : World) (codec : KeepsData env) where
  -- The write of `launch` before it posts.
  stamped_Saved :
      (d : Disk) (m : Model) (g : Gathered) (item : OutboxItem) (items : List OutboxItem)
      → m.outbox ≡ (item ∷ items) ++ g.rest
      → Saved env d m (behind g.dirty)
      → let stamped = record m {
        outbox = map (stamp (w.now flush_start)) (item ∷ items) ++ g.rest;
      } in
        let wrote =
          (if g.dirty || any_unsent (item ∷ items)
            then persist_outbox env stamped
            else (stamped, [])) in
        Saved env (performed wrote.1 d) wrote.0 clean
  stamped_Saved d m g item items e h =
      let stamped = record m {
        outbox = map (stamp (w.now flush_start)) (item ∷ items) ++ g.rest;
      } in
      elim (Bool-cases (g.dirty || any_unsent (item ∷ items))) [
        | inl due ↦ rw due (
            persist_outbox-Saved env d stamped (behind true)
              (record {
                readable = h.readable;
                settings = h.settings;
                profile = h.profile;
                contacts = h.contacts;
                cursor = h.cursor;
                outbox = tt;
                talks = h.talks;
              })
              codec.outbox)
        | inr sent ↦
            let whole : g.dirty ≡ false = ground arith in
            let known : any_unsent (item ∷ items) ≡ false = ground arith in
            let stays : map (stamp (w.now flush_start)) (item ∷ items) ++ g.rest ≡ m.outbox =
              ap (λ xs. xs ++ g.rest) (stamp_sent (w.now flush_start) (item ∷ items) known)
              ∙ sym e in
            rw sent (
              SameParts-Saved env d m stamped clean
                (record {
                  kv_load_failed = refl;
                  settings = refl;
                  profile = refl;
                  contacts = refl;
                  cursor = refl;
                  outbox = stays;
                  messages = refl;
                })
                (rw whole at h))
      ]

  launch-Saved :
      (d : Disk) (token : Text) (m : Model) (g : Gathered) (taken : List OutboxItem)
      → g.taken ≡ taken
      → m.outbox ≡ taken ++ g.rest
      → Saved env d m (behind g.dirty)
      → Saved env (performed (launch env w token m g).1 d) (launch env w token m g).0 clean
  unfolding launch
  launch-Saved d token m g [] e o h = elim (Bool-cases g.dirty) [
    | inl due ↦
        let step : launch env w token m g ≡ and_render (persist_outbox env m) = ground arith in
        rw step (
          after-Saved env d (persist_outbox env m) (and_render (persist_outbox env m)) (render ∷ [])
            clean refl (refl, tt) (ground arith)
            (persist_outbox-Saved env d m (behind true) (rw due at h) codec.outbox))
    | inr whole ↦
        let step : launch env w token m g ≡ (m, []) = ground arith in rw step (rw whole at h)
  ]
  launch-Saved d token m g (item ∷ items) e o h =
      let stamped = record m {
        outbox = map (stamp (w.now flush_start)) (item ∷ items) ++ g.rest;
      } in
      let wrote =
        (if g.dirty || any_unsent (item ∷ items)
          then persist_outbox env stamped
          else (stamped, [])) in
      let step : (ds : List Cmd) × ((launch env w token m g).1 ≡ wrote.1 ++ ds)
          × NoWrites ds
          × SameParts wrote.0 (launch env w token m g).0 =
        elim (Bool-cases (env.buildable (send_batch g.messages))) [
          | inl sends ↦ (
            http_post (m.settings.server_url ++ codes "/messages") (some token)
                  (send_batch g.messages) (send_result (next_flush_gen wrote.0).flush_gen)
                ∷ notify_after watchdog_ms (flush_watchdog (next_flush_gen wrote.0).flush_gen)
                ∷ [],
            ground arith,
            (refl, (refl, tt)),
            ground arith,
          )
          | inr unbuilt ↦ (render ∷ [], ground arith, (refl, tt), ground arith)
        ] in
      after-Saved env d wrote (launch env w token m g) step.0 clean step.1 step.2 step.3
        (stamped_Saved d m g item items o h)

  flush_from-Saved :
      (d : Disk) (id : Identity) (token : Text) (m : Model)
      → Saved env d m clean
      → Saved env
          (performed (flush_from env w id token m).1 d)
          (flush_from env w id token m).0
          clean
  unfolding flush_from
  flush_from-Saved d id token m h =
      let g = gather env w id (budget_of m.send_batch_budget) 0 0 0 none false m.error m.outbox in
      launch-Saved d token (record m { outbox = g.taken ++ g.rest; error = g.error }) g g.taken refl
        refl
        (record {
          readable = h.readable;
          settings = h.settings;
          profile = h.profile;
          contacts = h.contacts;
          cursor = h.cursor;
          outbox = elim (Bool-cases g.dirty) [
            | inl due ↦ rw due tt
            | inr whole ↦
                rw
                  (
                    whole,
                    gather_whole env w id (budget_of m.send_batch_budget) m.outbox 0 0 0 none
                        m.error whole,
                  )
                  h.outbox
          ];
          talks = h.talks;
        })

  pub flush_next-Saved :
      (d : Disk) (m : Model)
      → Saved env d m clean
      → Saved env (performed (flush_next env w m).1 d) (flush_next env w m).0 clean
  flush_next-Saved d m h = elim (flush_next_cases env w m) [
    | inl idle ↦ rw idle h
    | inr (id, token, mine, sends) ↦ rw sends (flush_from-Saved d id token m h)
  ]
