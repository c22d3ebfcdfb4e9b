-- ===== src/App/Tidy/Maps.antt =====
-- Ordered maps: what holds of every entry, and the order of the keys.
use Prim.Native.Nat.Ordering.{lt, eq, gt}
use Prim.Native.Nat.{Ordering}
use skrepka.Base.{
  ◌≡◌, refl, ◌⊎◌, inl, inr, some, [], ◌∷◌, arith, Text, compare_text, compare_text-eq,
  compare_text_swap, compare_text_trans, same_text, Bool-cases,
}
use skrepka.Base.Map
use skrepka.Base.Map.{Map}

Order-cases : (o : Ordering) → (o ≡ lt) ⊎ ((o ≡ gt) ⊎ (o ≡ eq))
Order-cases lt = inl refl
Order-cases gt = inr (inl refl)
Order-cases eq = inr (inr refl)

module _ {ℓ} {V : Type ℓ} where
  abbrev pub AllEntries : (Text → V → Type 0) → Map V → Type 0
  AllEntries P [] = Unit
  AllEntries P ((k, v) ∷ m) = P k v × AllEntries P m

  -- Where an entry goes, against the first of a map.
  pub insert_cases :
      (k j : Text) (v w : V) (m : Map V)
      → ((compare_text k j ≡ lt) × (Map.insert k v ((j, w) ∷ m) ≡ (k, v) ∷ (j, w) ∷ m))
        ⊎ (((compare_text k j ≡ gt) × (Map.insert k v ((j, w) ∷ m) ≡ (j, w) ∷ Map.insert k v m))
            ⊎ ((k ≡ j) × (Map.insert k v ((j, w) ∷ m) ≡ (j, v) ∷ m)))
  unfolding Map.insert
  insert_cases k j v w m = elim (Order-cases (compare_text k j)) [
    | inl before ↦ inl (before, ground (arith, before))
    | inr (inl behind) ↦ inr (inl (behind, ground (arith, behind)))
    | inr (inr same) ↦ inr (inr (compare_text-eq k j same, ground (arith, same)))
  ]

  pub AllEntries-insert :
      (P : Text → V → Type 0) (k : Text) (v : V) (m : Map V)
      → P k v
      → AllEntries P m
      → AllEntries P (Map.insert k v m)
  AllEntries-insert P k v [] p h = unfold Map.insert in (p, tt)
  AllEntries-insert P k v ((j, w) ∷ m) p h = elim (insert_cases k j v w m) [
    | inl (before, e) ↦ rw e (p, h)
    | inr (inl (behind, e)) ↦ rw e (h.0, AllEntries-insert P k v m p h.1)
    | inr (inr (same, e)) ↦ rw (e, ← same) (p, h.1)
  ]

  pub AllEntries-remove :
      (P : Text → V → Type 0) (k : Text) (m : Map V)
      → AllEntries P m
      → AllEntries P (Map.remove k m)
  unfolding Map.remove
  AllEntries-remove P k [] h = tt
  AllEntries-remove P k ((j, w) ∷ m) h = ground (arith, AllEntries-remove P k m h.1)

  pub AllEntries-get :
      (P : Text → V → Type 0) (k : Text) (m : Map V) {v : V}
      → AllEntries P m
      → Map.get k m ≡ some v
      → P k v
  unfolding Map.get
  AllEntries-get P k [] h e = cc
  AllEntries-get P k ((j, w) ∷ m) {v = v} h e = elim (Bool-cases (same_text j k)) [
    | inl hit ↦
        let here : j ≡ k = ground arith in
        let held : w ≡ v = ground arith in rw (← here, ← held) h.0
    | inr miss ↦ AllEntries-get P k m h.1 (ground arith)
  ]

  -- The keys go up.
  abbrev pub Above : Text → Map V → Type 0
  Above j [] = Unit
  Above j ((k, v) ∷ m) = compare_text j k ≡ lt

  abbrev pub Ascending : Map V → Type 0
  Ascending [] = Unit
  Ascending ((j, w) ∷ m) = Above j m × Ascending m

  pub Above-trans : (j k : Text) (m : Map V) → compare_text j k ≡ lt → Above k m → Above j m
  Above-trans j k [] lo h = tt
  Above-trans j k ((i, v) ∷ m) lo h = compare_text_trans j k i lo h

  Above-insert :
      (j k : Text) (v : V) (m : Map V)
      → compare_text j k ≡ lt
      → Above j m
      → Above j (Map.insert k v m)
  Above-insert j k v [] lo h = unfold Map.insert in lo
  Above-insert j k v ((i, w) ∷ m) lo h = elim (insert_cases k i v w m) [
    | inl (before, e) ↦ rw e lo
    | inr (inl (behind, e)) ↦ rw e h
    | inr (inr (same, e)) ↦ rw e h
  ]

  pub Ascending-insert : (k : Text) (v : V) (m : Map V) → Ascending m → Ascending (Map.insert k v m)
  Ascending-insert k v [] h = unfold Map.insert in (tt, tt)
  Ascending-insert k v ((j, w) ∷ m) h = elim (insert_cases k j v w m) [
    | inl (before, e) ↦ rw e (before, h)
    | inr (inl (behind, e)) ↦
        rw e (Above-insert j k v m (compare_text_swap k j behind) h.0, Ascending-insert k v m h.1)
    | inr (inr (same, e)) ↦ rw e h
  ]

  Above-remove : (j k : Text) (m : Map V) → Above j m → Ascending m → Above j (Map.remove k m)
  unfolding Map.remove
  Above-remove j k [] h a = tt
  Above-remove j k ((i, w) ∷ m) h a =
      ground (arith, Above-remove j k m (Above-trans j i m h a.0) a.1)

  pub Ascending-remove : (k : Text) (m : Map V) → Ascending m → Ascending (Map.remove k m)
  unfolding Map.remove
  Ascending-remove k [] h = tt
  Ascending-remove k ((j, w) ∷ m) h =
      ground (arith, Ascending-remove k m h.1, Above-remove j k m h.0 h.1)
