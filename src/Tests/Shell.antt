-- ===== src/Tests/Shell.antt =====
-- Runs of the theorems on what the shell sees and sends.
use skrepka.Base.{◌≡◌, none, [], ◌∷◌, map, arith, codes, ok, err, pos}
use mathlib.Core.List.{Perm}
use skrepka.Base.Map
use skrepka.Domain.{new_contact}
use skrepka.App.{Model, loaded_outbox, loaded_seen_ids, update, view, contact_row}
use skrepka.App.Rows.{view_rows, IsOrdered}
use skrepka.App.LoadOrder.{loads_commute, unsaid}
use skrepka.Tests.Setup.{toy_env, toy_prims, noon, signed_in, said, key}

-- The first contact has written at the time 3, the second at 5, and the third never.
abbrev talking : Model
talking = record signed_in {
  contacts =
      (key 2, new_contact (key 2) [] (pos 0))
      ∷ (key 3, new_contact (key 3) [] (pos 0))
      ∷ (key 4, new_contact (key 4) [] (pos 0))
      ∷ [];
  messages = (key 2, said 3 ∷ []) ∷ (key 3, said 1 ∷ said 5 ∷ []) ∷ [];
}

view_rows_example :
    IsOrdered (view toy_prims talking).contacts
    × Perm
        (view toy_prims talking).contacts
        (map (contact_row toy_prims talking) (Map.values talking.contacts))
view_rows_example = view_rows toy_prims talking

-- The outbox cannot be read, and there are no known ids.
loads_commute_example :
    let first = (update toy_env noon (loaded_outbox (err (codes "io"))) signed_in).0 in
    let second = (update toy_env noon (loaded_seen_ids (ok none)) signed_in).0 in
    unsaid (update toy_env noon (loaded_seen_ids (ok none)) first).0
    ≡ unsaid (update toy_env noon (loaded_outbox (err (codes "io"))) second).0
loads_commute_example =
    loads_commute toy_env noon (loaded_outbox (err (codes "io"))) (loaded_seen_ids (ok none))
      signed_in (omega arith) (omega arith) (λ e. omega (arith, e))
