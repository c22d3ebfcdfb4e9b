-- ===== src/App/Rows.antt =====
-- The list of conversations in the view is sorted, and shows every contact once.
use Prim.Native.Nat.{Ordering}
use Prim.Native.Nat.Ordering.{lt, eq, gt}
use skrepka.Base.{
  ◌≡◌, refl, ◌⊎◌, inl, inr, true, List, [], ◌∷◌, ◌++◌, map, arith, compare_text, compare_text-eq,
  compare_text_swap, ◌≤ℤ◌, ltb_ℤ,
}
use mathlib.Core.List.{Perm}
use mathlib.Core.List.Perm
use mathlib.Core.List.{perm_middle, append-nil}
use skrepka.Base.Map
use skrepka.Crypto.{Primitives}
use skrepka.App.State.{Model}
use skrepka.App.View.{ContactVm, compare_rows, insert_row, sort_rows, contact_row, view}

-- `r` may stand before `s`: its last message is newer, or of the same time and its name is not
-- behind the other's.
abbrev pub Before : ContactVm → ContactVm → Type 0
Before r s =
    (ltb_ℤ s.last_ts r.last_ts ≡ true)
    ⊎ ((s.last_ts ≤ℤ r.last_ts)
        × (r.last_ts ≤ℤ s.last_ts)
        × ((compare_text r.name s.name ≡ lt) ⊎ (r.name ≡ s.name)))

abbrev pub First : ContactVm → List ContactVm → Type 0
First r [] = Unit
First r (s ∷ rows) = Before r s

abbrev pub IsOrdered : List ContactVm → Type 0
IsOrdered [] = Unit
IsOrdered (r ∷ rows) = First r rows × IsOrdered rows

Ordering-cases : (o : Ordering) → (o ≡ gt) ⊎ ((o ≡ lt) ⊎ (o ≡ eq))
Ordering-cases lt = inr (inl refl)
Ordering-cases eq = inr (inr refl)
Ordering-cases gt = inl refl

-- What the comparison of two rows says of their order.
rows-gt : (r s : ContactVm) → compare_rows s r ≡ gt → Before r s
unfolding compare_rows
rows-gt r s h = ground (arith, compare_text_swap s.name r.name)

rows-lt : (r s : ContactVm) → compare_rows s r ≡ lt → Before s r
unfolding compare_rows
rows-lt r s h = ground arith

rows-eq : (r s : ContactVm) → compare_rows s r ≡ eq → Before s r
unfolding compare_rows
rows-eq r s h = ground (arith, compare_text-eq s.name r.name)

-- Where a row goes, against the first of a list.
insert_row_cases :
    (r s : ContactVm) (rows : List ContactVm)
    → ((insert_row r (s ∷ rows) ≡ r ∷ s ∷ rows) × Before r s)
      ⊎ ((insert_row r (s ∷ rows) ≡ s ∷ insert_row r rows) × Before s r)
unfolding insert_row
insert_row_cases r s rows = elim (Ordering-cases (compare_rows s r)) [
  | inl before ↦ inl (ground (arith, before), rows-gt r s before)
  | inr (inl behind) ↦ inr (ground (arith, behind), rows-lt r s behind)
  | inr (inr same) ↦ inr (ground (arith, same), rows-eq r s same)
]

insert_row-First :
    (x r : ContactVm) (rows : List ContactVm)
    → Before x r
    → First x rows
    → First x (insert_row r rows)
insert_row-First x r [] b f = unfold insert_row in b
insert_row-First x r (s ∷ rows) b f = elim (insert_row_cases r s rows) [
  | inl (e, _) ↦ rw e b
  | inr (e, _) ↦ rw e f
]

insert_row-IsOrdered :
    (r : ContactVm) (rows : List ContactVm) → IsOrdered rows → IsOrdered (insert_row r rows)
insert_row-IsOrdered r [] h = unfold insert_row in (tt, tt)
insert_row-IsOrdered r (s ∷ rows) h = elim (insert_row_cases r s rows) [
  | inl (e, before) ↦ rw e (before, h)
  | inr (e, behind) ↦ rw e (insert_row-First s r rows behind h.0, insert_row-IsOrdered r rows h.1)
]

insert_row-Perm : (r : ContactVm) (rows : List ContactVm) → Perm (insert_row r rows) (r ∷ rows)
insert_row-Perm r [] = unfold insert_row in Perm.rfl
insert_row-Perm r (s ∷ rows) = elim (insert_row_cases r s rows) [
  | inl (e, _) ↦ rw e Perm.rfl
  | inr (e, _) ↦ rw e (Perm.trans (Perm.cons s (insert_row-Perm r rows)) (Perm.swap r s rows))
]

sort_rows-IsOrdered :
    (sorted rows : List ContactVm) → IsOrdered sorted → IsOrdered (sort_rows sorted rows)
unfolding sort_rows
sort_rows-IsOrdered sorted [] h = h
sort_rows-IsOrdered sorted (r ∷ rows) h =
    sort_rows-IsOrdered (insert_row r sorted) rows (insert_row-IsOrdered r sorted h)

sort_rows-Perm : (sorted rows : List ContactVm) → Perm (sort_rows sorted rows) (rows ++ sorted)
unfolding sort_rows
sort_rows-Perm sorted [] = Perm.rfl
sort_rows-Perm sorted (r ∷ rows) =
    Perm.trans (sort_rows-Perm (insert_row r sorted) rows)
      (Perm.trans (Perm.append_left rows (insert_row-Perm r sorted)) (perm_middle rows sorted))

-- The list of conversations in the view has one row for each contact, and the conversation with
-- the newest last message comes first, those of one time in the order of their names.
pub view_rows :
    (p : Primitives) (m : Model)
    → IsOrdered (view p m).contacts
      × Perm (view p m).contacts (map (contact_row p m) (Map.values m.contacts))
unfolding view
view_rows p m =
    let rows = map (contact_row p m) (Map.values m.contacts) in
    (sort_rows-IsOrdered [] rows tt, rw (append-nil rows) at (sort_rows-Perm [] rows))
