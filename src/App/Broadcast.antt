-- ===== src/App/Broadcast.antt =====
-- The broadcast of a new profile: `Event::SaveProfile`.
use skrepka.Base.{
  ℕ, zero, suc, ◌≤◌, ◌≡◌, refl, ◌∙◌, ap, ◌⊎◌, inl, inr, true, false, ◌&&◌, ltb, Option, none, some,
  List, [], ◌∷◌, arith, Text, length, take, drop, same_text, Bool-cases, text_dec, codes,
}
use skrepka.Base.Map
use skrepka.Domain.{OutboxItem, OwnProfile, is_profile, profile_item}
use skrepka.Protocol.{serialize_payload, max_display_name_len, max_bio_len}
use skrepka.App.State.{Model, Env, World, save_profile, save_profile_at, InFlight}
use skrepka.App.Guards.{in_flight_count, persist_profile, persist_outbox, refuse_write}
use skrepka.App.User.{
  on_save_profile, broadcast, supersede, unblocked, own_payload, too_large, not_base64,
}
use skrepka.App.Alignment.Queue.{IsAligned, Carried, Leads}
use skrepka.App.Fate.Lists.{Fate, rest, stays, leaves}
use skrepka.App.Update.{update}

-- The list holds a profile for the peer with this text.
abbrev pub Told : Text → Text → List OutboxItem → Type 0
Told payload peer [] = ⊥
Told payload peer (x ∷ xs) =
    ((is_profile x ≡ true) × (x.recipient ≡ peer) × (x.envelope_json ≡ payload))
    ⊎ Told payload peer xs

abbrev pub AllTold : Text → List Text → List OutboxItem → Type 0
AllTold payload [] xs = Unit
AllTold payload (peer ∷ peers) xs = Told payload peer xs × AllTold payload peers xs

-- The item itself, or a profile that has got a new text.
abbrev pub Renewal : Text → OutboxItem → OutboxItem → Type 0
Renewal payload x y = (y ≡ x) ⊎ ((is_profile x ≡ true) × (y ≡ record x { envelope_json = payload }))

-- Nothing leaves.
abbrev pub Never : ℕ → OutboxItem → Type 0
Never i x = ⊥

module _ (payload : Text) where
  Renewal-trans :
      (x y z : OutboxItem) → Renewal payload x y → Renewal payload y z → Renewal payload x z
  unfolding is_profile
  Renewal-trans x y z (inl e) (inl f) = inl (f ∙ e)
  Renewal-trans x y z (inl e) (inr (p, f)) = inr (rw e at p, rw e at f)
  Renewal-trans x y z (inr (p, e)) (inl f) = inr (p, f ∙ e)
  Renewal-trans x y z (inr (p, e)) (inr (q, f)) = inr (p, ground (arith, e, f))

  Fate-unchanged : {k : ℕ} (xs : List OutboxItem) → Fate (Renewal payload) Never k xs xs
  Fate-unchanged [] = rest []
  Fate-unchanged (x ∷ xs) = stays (inl refl) (Fate-unchanged xs)

  Fate-twice :
      {k : ℕ} {xs ys zs : List OutboxItem}
      → Fate (Renewal payload) Never k xs ys
      → Fate (Renewal payload) Never k ys zs
      → Fate (Renewal payload) Never k xs zs
  Fate-twice (rest ys) g = rest _
  Fate-twice (stays s f) (stays t g) = stays (Renewal-trans _ _ _ s t) (Fate-twice f g)
  Fate-twice (stays s f) (leaves r g) = absurd r
  Fate-twice (leaves r f) g = absurd r

  supersede-Fate :
      {k : ℕ} (live : ℕ) (peer : Text) (xs : List OutboxItem)
      → Fate (Renewal payload) Never k xs (supersede live peer payload xs)
  unfolding supersede
  supersede-Fate live peer [] = rest _
  supersede-Fate zero peer (x ∷ xs) =
      elim (Bool-cases (is_profile x && same_text x.recipient peer)) [
        | inl due ↦ rw due (stays (inr (ground arith, refl)) (Fate-unchanged xs))
        | inr other ↦ rw other (stays (inl refl) (supersede-Fate zero peer xs))
      ]
  supersede-Fate (suc live) peer (x ∷ xs) = stays (inl refl) (supersede-Fate live peer xs)

  -- What is in flight stays, and the step works on what is behind it.
  supersede_behind :
      (live : ℕ) (peer : Text) (xs : List OutboxItem)
      → live ≤ length xs
      → (take live (supersede live peer payload xs) ≡ take live xs)
        × (drop live (supersede live peer payload xs) ≡ supersede 0 peer payload (drop live xs))
        × (live ≤ length (supersede live peer payload xs))
  unfolding supersede
  supersede_behind zero peer xs h = (refl, refl, omega arith)
  supersede_behind (suc live) peer [] h = absurd (omega arith)
  supersede_behind (suc live) peer (x ∷ xs) h =
      let (t, d, n) = supersede_behind live peer xs (omega arith) in
      (ap (λ ys. x ∷ ys) t, d, omega (arith, n))

  supersede_cases :
      (peer : Text) (x : OutboxItem) (xs : List OutboxItem)
      → ((is_profile x ≡ true)
          × (x.recipient ≡ peer)
          × (supersede 0 peer payload (x ∷ xs) ≡ record x { envelope_json = payload } ∷ xs))
        ⊎ (supersede 0 peer payload (x ∷ xs) ≡ x ∷ supersede 0 peer payload xs)
  unfolding supersede
  supersede_cases peer x xs = elim (Bool-cases (is_profile x && same_text x.recipient peer)) [
    | inl due ↦ inl (ground arith, ground arith, ground (arith, due))
    | inr other ↦ inr (ground (arith, other))
  ]

  supersede-Told :
      (peer : Text) (xs : List OutboxItem) → Told payload peer (supersede 0 peer payload xs)
  supersede-Told peer [] =
      unfold supersede profile_item is_profile text_dec codes in inl (refl, refl, refl)
  supersede-Told peer (x ∷ xs) = elim (supersede_cases peer x xs) [
    | inl (p, r, e) ↦ rw e (inl (unfold is_profile in p, r, refl))
    | inr e ↦ rw e (inr (supersede-Told peer xs))
  ]

  Told-supersede :
      (peer other : Text) (xs : List OutboxItem)
      → Told payload peer xs
      → Told payload peer (supersede 0 other payload xs)
  Told-supersede peer other [] t = elim t [ ]
  Told-supersede peer other (x ∷ xs) t = elim (supersede_cases other x xs) [
    | inl (p, r, e) ↦
        rw e (elim t [ inl (q, s, f) ↦ inl (unfold is_profile in q, s, refl) | inr u ↦ inr u ])
    | inr e ↦ rw e (elim t [ inl h ↦ inl h | inr u ↦ inr (Told-supersede peer other xs u) ])
  ]

  AllTold-supersede :
      (peers : List Text) (other : Text) (xs : List OutboxItem)
      → AllTold payload peers xs
      → AllTold payload peers (supersede 0 other payload xs)
  AllTold-supersede [] other xs h = tt
  AllTold-supersede (peer ∷ peers) other xs h =
      (Told-supersede peer other xs h.0, AllTold-supersede peers other xs h.1)

  Told-broadcast :
      (peer : Text) (peers : List Text) (xs : List OutboxItem)
      → Told payload peer xs
      → Told payload peer (broadcast 0 payload peers xs)
  unfolding broadcast
  Told-broadcast peer [] xs t = t
  Told-broadcast peer (other ∷ peers) xs t =
      Told-broadcast peer peers (supersede 0 other payload xs) (Told-supersede peer other xs t)

  broadcast-AllTold :
      (peers : List Text) (xs : List OutboxItem)
      → AllTold payload peers (broadcast 0 payload peers xs)
  unfolding broadcast
  broadcast-AllTold [] xs = tt
  broadcast-AllTold (peer ∷ peers) xs = (
    Told-broadcast peer peers (supersede 0 peer payload xs) (supersede-Told peer xs),
    broadcast-AllTold peers (supersede 0 peer payload xs),
  )

  broadcast-Fate :
      (live : ℕ) (peers : List Text) (xs : List OutboxItem)
      → Fate (Renewal payload) Never 0 xs (broadcast live payload peers xs)
  unfolding broadcast
  broadcast-Fate live [] xs = Fate-unchanged xs
  broadcast-Fate live (peer ∷ peers) xs =
      Fate-twice (supersede-Fate live peer xs)
        (broadcast-Fate live peers (supersede live peer payload xs))

  broadcast_behind :
      (live : ℕ) (peers : List Text) (xs : List OutboxItem)
      → live ≤ length xs
      → (take live (broadcast live payload peers xs) ≡ take live xs)
        × (drop live (broadcast live payload peers xs) ≡ broadcast 0 payload peers (drop live xs))
  unfolding broadcast
  broadcast_behind live [] xs h = (refl, refl)
  broadcast_behind live (peer ∷ peers) xs h =
      let (t, d, n) = supersede_behind live peer xs h in
      let (u, e) = broadcast_behind live peers (supersede live peer payload xs) n in
      (u ∙ t, e ∙ ap (broadcast 0 payload peers) d)

Leads-length : (r : Text) (n : ℕ) (xs : List OutboxItem) → Leads r n xs → n ≤ length xs
Leads-length r zero xs h = omega arith
Leads-length r (suc n) [] h = elim h [ ]
Leads-length r (suc n) (x ∷ xs) h = omega (arith, Leads-length r n xs h.1)

in_flight_fits : (m : Model) → IsAligned m → in_flight_count m ≤ length m.outbox
unfolding in_flight_count
in_flight_fits m h = go m.in_flight h.carried
  where
    go :
        (b : Option InFlight)
        → Carried b m.outbox
        → (elim b [ none ↦ 0 | some f ↦ f.count ]) ≤ length m.outbox
    go none c = omega arith
    go (some f) c = Leads-length f.recipient f.count m.outbox c.2

saved_outbox :
    (env : Env) (w : World) (name bio : Text) (photo : Option Text) (m : Model)
    → ltb max_display_name_len (length name) ≡ false
    → ltb max_bio_len (length bio) ≡ false
    → too_large photo ≡ false
    → not_base64 env.is_base64 photo ≡ false
    → let own : OwnProfile = record { display_name = name; bio = bio; photo = photo } in
      (update env w (save_profile name bio photo) m).0.outbox
      ≡ broadcast
          (in_flight_count m)
          (serialize_payload env.render_json (own_payload own) (w.now save_profile_at))
          (unblocked (Map.values m.contacts))
          m.outbox
unfolding update on_save_profile persist_profile persist_outbox refuse_write
saved_outbox env w name bio photo m a b c d = ground arith

-- A profile within its caps that is saved, while the batch in flight stands at the head of the
-- outbox, leaves that batch as it is; behind it there is a profile with the new text for every
-- contact that is not blocked; and of the items queued none is lost, and none is changed but
-- profiles, in their text.
pub save_profile_tells :
    (env : Env) (w : World) (name bio : Text) (photo : Option Text) (m : Model)
    → IsAligned m
    → ltb max_display_name_len (length name) ≡ false
    → ltb max_bio_len (length bio) ≡ false
    → too_large photo ≡ false
    → not_base64 env.is_base64 photo ≡ false
    → let own : OwnProfile = record { display_name = name; bio = bio; photo = photo } in
      let payload = serialize_payload env.render_json (own_payload own) (w.now save_profile_at) in
      let after = (update env w (save_profile name bio photo) m).0.outbox in
      let live = in_flight_count m in
      (take live after ≡ take live m.outbox)
      × AllTold payload (unblocked (Map.values m.contacts)) (drop live after)
      × Fate (Renewal payload) Never 0 m.outbox after
save_profile_tells env w name bio photo m h short_name short_bio small encoded =
    let own : OwnProfile = record { display_name = name; bio = bio; photo = photo } in
    let payload = serialize_payload env.render_json (own_payload own) (w.now save_profile_at) in
    let peers = unblocked (Map.values m.contacts) in
    let saves : (update env w (save_profile name bio photo) m).0.outbox
        ≡ broadcast (in_flight_count m) payload peers m.outbox =
      saved_outbox env w name bio photo m short_name short_bio small encoded in
    let (t, d) = broadcast_behind payload (in_flight_count m) peers m.outbox (in_flight_fits m h) in
    rw saves (
      t,
      rw d (broadcast-AllTold payload peers (drop (in_flight_count m) m.outbox)),
      broadcast-Fate payload (in_flight_count m) peers m.outbox,
    )
