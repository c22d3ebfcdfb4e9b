-- ===== src/Tests/Data.antt =====
-- Runs of the theorems on conversations, payloads and blobs.
use skrepka.Base.{
  ◌+◌, ◌*◌, ◌%◌, ◌≤◌, ◌≡◌, ◌⊎◌, some, [], ◌∷◌, arith, pos, codes, min, length, true, text_len,
}
use skrepka.Domain.{max_messages_per_peer}
use skrepka.Crypto.{padded_len, padding_buckets}
use skrepka.Crypto.Lengths.{padded_len_lem, AnyOf}
use skrepka.Protocol.{text, parse_value, payload_value}
use skrepka.Protocol.Roundtrip.{parse_value-payload_value, cleaned}
use skrepka.App.{trim_history}
use skrepka.App.History.{EndsIn, trim_history_lem}
use skrepka.Tests.Setup.{said}

trim_history_lem_example :
    (length (trim_history (said 1 ∷ said 2 ∷ [])) ≡ min 2 max_messages_per_peer)
    × EndsIn (said 1 ∷ said 2 ∷ []) (trim_history (said 1 ∷ said 2 ∷ []))
trim_history_lem_example = trim_history_lem (said 1 ∷ said 2 ∷ [])

padded_len_lem_example :
    (300 ≤ padded_len 300)
    × (AnyOf (padded_len 300) padding_buckets ⊎ (padded_len 300 % 65536 ≡ 0))
    × (padded_len 300 ≤ 2 * 300 + 65536)
padded_len_lem_example = padded_len_lem 300

parse_value-payload_value_example :
    parse_value (λ s. true) (payload_value (text (codes "m1") (codes "hi")) (pos 9))
    ≡ some (record { ts = pos 9; payload = cleaned (text (codes "m1") (codes "hi")) })
unfolding text_len codes
parse_value-payload_value_example =
    parse_value-payload_value (λ s. true) (text (codes "m1") (codes "hi")) (pos 9)
      (omega arith, omega arith)
