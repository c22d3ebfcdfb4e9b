-- ===== src/App/Outbox/Batch.antt =====
-- The loops of `flush_next` and `retry_batch`.
use skrepka.Base.{
  ℕ, zero, suc, ◌+◌, ◌*◌, Bool, true, false, ◌&&◌, ◌||◌, not, Option, none, some, List, [], ◌∷◌,
  ◌++◌, Bytes, Text, codes, utf8, text_len, same_text, length, ltb, leb, ◌==◌, if◌then◌else◌, ok,
  err, ℤ, pos, negsuc,
}
use skrepka.Crypto.{Identity, encrypt}
use skrepka.Domain.{OutboxItem, is_expired, saturating_inc, trunc_ob}
use skrepka.Protocol.{Envelope}
use skrepka.App.State.{Env, World}

abbrev pub max_send_batch : ℕ
max_send_batch = 100

abbrev pub max_send_batch_bytes : ℕ
max_send_batch_bytes = 4 * 1024 * 1024

abbrev pub max_retry_after_ms : ℕ
max_retry_after_ms = 5 * 60 * 1000

-- What the loop of `flush_next` leaves: the items to send, the rest of the outbox behind them, the
-- request built from them, and whether items were dropped, with the last error about one.
pub record Gathered : Type 0 where
  pub taken : List OutboxItem
  pub rest : List OutboxItem
  pub messages : List Envelope
  pub bytes : ℕ
  pub dirty : Bool
  pub error : Option Text

abbrev pub stop_at : List OutboxItem → ℕ → Bool → Option Text → Gathered
stop_at rest bytes dirty error = record {
  taken = [];
  rest = rest;
  messages = [];
  bytes = bytes;
  dirty = dirty;
  error = error;
}

abbrev pub take_item : OutboxItem → Text → Gathered → Gathered
take_item item hex_blob g = record g {
  taken = item ∷ g.taken;
  messages = record { to = item.recipient; encrypted_blob = hex_blob } ∷ g.messages;
}

-- `recipient.as_ref().is_some_and(|r| r != &item.recipient)`
abbrev pub other_recipient : Option Text → Text → Bool
other_recipient none to = false
other_recipient (some r) to = not (same_text r to)

abbrev pub is_zero : ℤ → Bool
is_zero (pos zero) = true
is_zero (pos (suc n)) = false
is_zero (negsuc n) = false

-- The stamp of the items that go out for the first time.
unfoldable pub stamp : ℤ → OutboxItem → OutboxItem
stamp now item = if is_zero item.first_attempt then record item { first_attempt = now } else item

unfoldable pub any_unsent : List OutboxItem → Bool
any_unsent [] = false
any_unsent (item ∷ items) = is_zero item.first_attempt || any_unsent items

-- The loop of `retry_batch`: the kept items, and how many were given up.
unfoldable pub charge : ℕ → ℤ → List OutboxItem → List OutboxItem × ℕ
charge count now [] = ([], 0)
charge zero now (item ∷ items) = (item ∷ items, 0)
charge (suc count) now (item ∷ items) =
    let (kept, expired) = charge count now items in
    let charged = record item { retries = saturating_inc item.retries } in
    if is_expired charged now then (kept, expired + 1) else (charged ∷ kept, expired)

module _ (env : Env) (w : World) where
  unfoldable pub encrypt_for : ℕ → Identity → OutboxItem → Option Bytes
  encrypt_for i sender item = elim (env.prims.hex_decode item.recipient) [
    | none ↦ none
    | some recipient ↦
        if not (length recipient == 32)
        then none
        else elim (encrypt env.prims (w.draws i) sender recipient (utf8 item.envelope_json)) [
          | ok blob ↦ some blob
          | err e ↦ none
        ]
  ]

  -- `i` counts the rounds and `count` is `messages.len()`.
  unfoldable pub gather :
      Identity → ℕ → ℕ → ℕ → ℕ → Option Text → Bool → Option Text → List OutboxItem → Gathered
  gather id budget i count bytes recipient dirty error [] = stop_at [] bytes dirty error
  gather id budget i count bytes recipient dirty error (item ∷ items) =
      if leb max_send_batch count || other_recipient recipient item.recipient
      then stop_at (item ∷ items) bytes dirty error
      else elim (encrypt_for i id item) [
        | none ↦
            gather id budget (suc i) count bytes recipient true
              (some (
                codes "cannot send to "
                ++ (trunc_ob env.prims item.recipient ++ codes ": invalid key")))
              items
        | some blob ↦
            let hex_blob = env.prims.hex_encode blob in
            let taken = take_item item hex_blob (
              gather id budget (suc i) (suc count) (bytes + text_len hex_blob) (some item.recipient)
                dirty error items) in
            if ltb 0 count && ltb budget (bytes + text_len hex_blob)
            then stop_at (item ∷ items) bytes dirty error
            else taken
      ]
