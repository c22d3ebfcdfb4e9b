-- ===== src/App/Retry.antt =====
-- What a failed send charges the items of its batch.
use skrepka.Base.{
  ℕ, zero, suc, ◌+◌, ◌≤◌, ◌≡◌, refl, Bool, true, false, List, [], ◌∷◌, ◌++◌, arith, length, ℤ, min,
  if◌then◌else◌,
}
use skrepka.Domain.{OutboxItem, is_expired, saturating_inc}
use skrepka.App.State.{Model, Env, World, Response}
use skrepka.App.Guards.{backoff_ms}
use skrepka.App.Outbox.{charge, rate_limit_delay, max_retry_after_ms}

-- An item with one more attempt counted.
abbrev pub charged_item : OutboxItem → OutboxItem
charged_item item = record item { retries = saturating_inc item.retries }

-- What is kept of a batch: each item with one more attempt counted, in order, without those that
-- are then given up.
pub data Survivors (now : ℤ) : List OutboxItem → List OutboxItem → Type 0 where
  no_more : Survivors now [] []
  kept :
      (item : OutboxItem) {batch left : List OutboxItem}
      → is_expired (charged_item item) now ≡ false
      → Survivors now batch left
      → Survivors now (item ∷ batch) (charged_item item ∷ left)
  given_up :
      (item : OutboxItem) {batch left : List OutboxItem}
      → is_expired (charged_item item) now ≡ true
      → Survivors now batch left
      → Survivors now (item ∷ batch) left

-- The split of a charged batch: what is kept of it, what lay behind it, how many were given up.
abbrev pub Charged : ℤ → List OutboxItem → List OutboxItem → List OutboxItem × ℕ → Type 0
Charged now batch rest (left, expired) =
    (mine : List OutboxItem) × (left ≡ mine ++ rest)
    × (length mine + expired ≡ length batch)
    × Survivors now batch mine

charge-step :
    (now : ℤ) (item : OutboxItem) (batch rest : List OutboxItem) (r : List OutboxItem × ℕ)
    (b : Bool)
    → is_expired (charged_item item) now ≡ b
    → Charged now batch rest r
    → Charged now (item ∷ batch) rest (if b then (r.0, r.1 + 1) else (charged_item item ∷ r.0, r.1))
charge-step now item batch rest r true e (mine, split, n, survive) =
    (mine, split, ground arith, given_up item e survive)
charge-step now item batch rest r false e (mine, split, n, survive) =
    (charged_item item ∷ mine, ground arith, ground arith, kept item e survive)

-- A failed batch is charged alone: one more attempt is counted on every item of it, those that are
-- then to be given up are left out and counted, the others are kept in order, and what lies behind
-- the batch is as it was.
pub charge_lem :
    (now : ℤ) (batch rest : List OutboxItem)
    → Charged now batch rest (charge (length batch) now (batch ++ rest))
unfolding charge
charge_lem now [] [] = ([], refl, refl, no_more)
charge_lem now [] (item ∷ rest) = ([], refl, refl, no_more)
charge_lem now (item ∷ batch) rest =
    charge-step now item batch rest _ _ refl (charge_lem now batch rest)

min_above : (n : ℕ) → 4 ≤ n → min n 4 ≡ 4
min_above n h = ground arith

-- The waits between reconnections are from 3 to 30 seconds, and not shorter after more failures.
pub backoff_ms_bounds :
    (n : ℕ) → (3000 ≤ backoff_ms n) × (backoff_ms n ≤ 30_000) × (backoff_ms n ≤ backoff_ms (suc n))
unfolding backoff_ms
backoff_ms_bounds zero = ground arith
backoff_ms_bounds (suc zero) = ground arith
backoff_ms_bounds (suc (suc zero)) = ground arith
backoff_ms_bounds (suc (suc (suc zero))) = ground arith
backoff_ms_bounds (suc (suc (suc (suc n)))) =
    ground (arith, min_above (n + 4) (omega arith), min_above (n + 5) (omega arith))

module _ (env : Env) (w : World) where
  -- A pause after a 429 is at most five minutes, whatever the relay asks for.
  pub rate_limit_delay_bound :
      (m : Model) (resp : Response) → (rate_limit_delay env w m resp).1 ≤ max_retry_after_ms
  unfolding rate_limit_delay backoff_ms
  rate_limit_delay_bound m resp = ground arith
