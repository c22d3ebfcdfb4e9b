-- ===== src/App/Storage/Contacts.antt =====
-- The list of the contacts makes the map that it was taken from.
use Prim.Native.Nat.Ordering.{lt}
use mathlib.Core.List.{append_assoc, append-nil}
use skrepka.Base.{
  ◌≡◌, refl, sym, ap, ◌∙◌, inl, inr, false, List, [], ◌∷◌, ◌++◌, arith, Text, compare_text,
  compare_text_refl, compare_text_trans,
}
use skrepka.Base.Map
use skrepka.Base.Map.{Map}
use skrepka.Domain.{Contact}
use skrepka.App.Conversation.{contains}
use skrepka.App.User.{is_some}
use skrepka.App.Loads.{collect_contacts}
use skrepka.App.Tidy.Maps.{AllEntries, Ascending, Above, Above-trans, insert_cases}

not_below : (j k : Text) → compare_text j k ≡ lt → compare_text k j ≡ lt → ⊥
not_below j k a b = cc (compare_text_trans j k j a b, compare_text_refl j)

-- No key twice.
abbrev pub Distinct : List Text → Type 0
Distinct [] = Unit
Distinct (p ∷ ps) = (contains p ps ≡ false) × Distinct ps

module _ {ℓ} {V : Type ℓ} where
  below_next :
      (j : Text) (w : V) (before : Map V) (k : Text) (v : V) (behind : Map V)
      → Ascending ((j, w) ∷ (before ++ ((k, v) ∷ behind)))
      → compare_text j k ≡ lt
  below_next j w [] k v behind h = h.0
  below_next j w ((i, u) ∷ before) k v behind h =
      compare_text_trans j i k h.0 (below_next i u before k v behind h.1)

  -- An entry behind all the others.
  insert_last :
      (before : Map V) (k : Text) (v : V) (behind : Map V)
      → Ascending (before ++ ((k, v) ∷ behind))
      → Map.insert k v before ≡ before ++ ((k, v) ∷ [])
  insert_last [] k v behind h = unfold Map.insert in refl
  insert_last ((j, w) ∷ before) k v behind h =
      let up = below_next j w before k v behind h in
      elim (insert_cases k j v w before) [
        | inl (lower, e) ↦ absurd (not_below j k up lower)
        | inr (inl (upper, e)) ↦ rw (e, insert_last before k v behind h.1) refl
        | inr (inr (same, e)) ↦ cc (same, up, compare_text_refl j)
      ]

  -- A key below those of a map is none of them.
  Above-absent : (j : Text) (m : Map V) → Above j m → Ascending m → contains j (Map.keys m) ≡ false
  unfolding contains
  Above-absent j [] a h = refl
  Above-absent j ((k, v) ∷ m) a h =
      ground (arith, Above-absent j m (Above-trans j k m a h.0) h.1, compare_text_refl j)

  pub keys-Distinct : (m : Map V) → Ascending m → Distinct (Map.keys m)
  keys-Distinct [] h = tt
  keys-Distinct ((k, v) ∷ m) h = (Above-absent k m h.0 h.1, keys-Distinct m h.1)

  pub contains-keys : (k : Text) (m : Map V) → contains k (Map.keys m) ≡ is_some (Map.get k m)
  unfolding contains Map.get
  contains-keys k [] = refl
  contains-keys k ((j, v) ∷ m) = ground (arith, contains-keys k m)

collect_contacts_onto :
    (before people : Map Contact)
    → AllEntries (λ k c. c.pubkey ≡ k) people
    → Ascending (before ++ people)
    → collect_contacts before (Map.values people) ≡ before ++ people
unfolding collect_contacts
collect_contacts_onto before [] named up = sym (append-nil before)
collect_contacts_onto before ((k, c) ∷ people) named up =
    let assoc : (before ++ ((k, c) ∷ [])) ++ people ≡ before ++ ((k, c) ∷ people) =
      append_assoc before ((k, c) ∷ []) people in
    let step : Map.insert c.pubkey c before ≡ before ++ ((k, c) ∷ []) =
      ap (λ j. Map.insert j c before) named.0 ∙ insert_last before k c people up in
    ap (λ acc. collect_contacts acc (Map.values people)) step
    ∙ (collect_contacts_onto (before ++ ((k, c) ∷ [])) people named.1 (rw assoc up) ∙ assoc)

pub collect_contacts-values :
    (people : Map Contact)
    → AllEntries (λ k c. c.pubkey ≡ k) people
    → Ascending people
    → collect_contacts [] (Map.values people) ≡ people
collect_contacts-values people named up = collect_contacts_onto [] people named up
