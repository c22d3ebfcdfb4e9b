-- ===== src/App/Urls.antt =====
-- `server_host` and `normalize_server_url`, over the parser of the `url` crate.
use skrepka.Base.{
  ℕ, Bool, true, false, ◌||◌, not, Option, none, some, [], ◌∷◌, Text, codes, same_text, ◌==◌,
  if◌then◌else◌,
}
use mathlib.Core.List.{reverse}
use skrepka.Phonemic.{trim, to_lowercase}
use skrepka.App.State.{Env}

drop_while : ℕ → Text → Text
drop_while c [] = []
drop_while c (d ∷ s) = let rest = drop_while c s in if d == c then rest else d ∷ s

-- `str::trim_end_matches(c)`
unfoldable pub trim_end_matches : ℕ → Text → Text
unfolding drop_while
trim_end_matches c s = reverse (drop_while c (reverse s))

abbrev no_host : Option Text → Bool
no_host none = true
no_host (some []) = true
no_host (some (c ∷ s)) = false

module _ (env : Env) where
  unfoldable pub server_host : Text → Text
  server_host url = elim (env.parse_url url) [
    | none ↦ []
    | some u ↦ elim u.host_str [
      | none ↦ []
      | some h ↦ to_lowercase env.wide (trim_end_matches b'.' h)
    ]
  ]

  unfoldable pub normalize_server_url : Text → Option Text
  normalize_server_url input = elim (env.parse_url (trim input)) [
    | none ↦ none
    | some url ↦
        if not (same_text url.scheme (codes "http") || same_text url.scheme (codes "https"))
        then none
        else if no_host url.host_str
        then none
        else if url.has_query || url.has_fragment
        then none
        else some (trim_end_matches b'/' url.as_str)
  ]
