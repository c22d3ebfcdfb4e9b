-- ===== src/App/Profiles.antt =====
-- The profiles that contacts send, and their replay.
use skrepka.Base.{
  ◌≡◌, ◌⊎◌, inl, inr, true, Option, none, some, arith, Text, ℤ, ltb_ℤ, leb_ℤ, ◌≤ℤ◌, Option-cases,
  Bool-cases,
}
use skrepka.Base.Map
use skrepka.Base.Map.{get-insert}
use skrepka.Domain.{Contact}
use skrepka.App.State.{Env}
use skrepka.App.Ingest.{PageFold, ingest_profile, update_profile}

-- The sender is no contact, or one with a watermark that is not before `ts`.
abbrev pub Guarded : Text → ℤ → PageFold → Type 0
Guarded sender ts g =
    (Map.get sender g.model.contacts ≡ none)
    ⊎ ((c : Contact) × (Map.get sender g.model.contacts ≡ some c) × (ts ≤ℤ c.last_profile_ts))

module _ (env : Env) where
  pub ingest_profile-Guarded :
      (now : ℤ) (sender : Text) (ts : ℤ) (name bio photo : Option Text) (g : PageFold)
      → ts ≤ℤ now
      → Guarded sender ts (ingest_profile env now sender ts name bio photo g)
  unfolding ingest_profile
  ingest_profile-Guarded now sender ts name bio photo g h =
      elim (Option-cases (Map.get sender g.model.contacts)) [
        | inl nobody ↦ inl (ground (arith, nobody))
        | inr (c, found) ↦
            let told = update_profile env now ts name bio photo c in
            let stands : Map.get sender (Map.insert sender told g.model.contacts) ≡ some told =
              ground (arith, get-insert sender sender told g.model.contacts) in
            elim (Bool-cases (leb_ℤ c.last_profile_ts ts)) [
              | inl new ↦ inr (told, ground (arith, found, stands), ground arith)
              | inr old ↦ inr (c, ground (arith, found), ground arith)
            ]
      ]

  Guarded-ingest_profile :
      (now : ℤ) (sender : Text) (ts old : ℤ) (name bio photo : Option Text) (g : PageFold)
      → ltb_ℤ old ts ≡ true
      → Guarded sender ts g
      → ingest_profile env now sender old name bio photo g ≡ g
  unfolding ingest_profile
  Guarded-ingest_profile now sender ts old name bio photo g lt (inl nobody) = ground (arith, nobody)
  Guarded-ingest_profile now sender ts old name bio photo g lt (inr (c, found, le)) =
      ground (arith, found)

-- A profile whose time is not ahead of the clock leaves its sender without a contact or with a
-- watermark not before that time; and as long as that is so, an older profile of the sender changes
-- nothing, whatever it says.
pub stale_profile_ignored :
    (env : Env) (now later : ℤ) (sender : Text) (ts old : ℤ)
    (name bio photo old_name old_bio old_photo : Option Text) (g h : PageFold)
    → ts ≤ℤ now
    → ltb_ℤ old ts ≡ true
    → Guarded sender ts h
    → Guarded sender ts (ingest_profile env now sender ts name bio photo g)
      × (ingest_profile env later sender old old_name old_bio old_photo h ≡ h)
stale_profile_ignored env now later sender ts old name bio photo old_name old_bio old_photo g h le
      lt guarded =
    (
      ingest_profile-Guarded env now sender ts name bio photo g le,
      Guarded-ingest_profile env later sender ts old old_name old_bio old_photo h lt guarded,
    )
