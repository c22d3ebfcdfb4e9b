-- ===== src/Ffi.antt =====
-- core/src/ffi.rs: what the shell calls. The bridge of the crux crate is a parameter.
use skrepka.Base.{ℕ, [], Bytes, Result, ok, err, Text}

-- What a call of the bridge comes to: it returns, with the bytes that it wrote, or it panics.
pub data Outcome : Type 0 where
  returned : Result Text (Unit {0}) → Bytes → Outcome
  panicked : Outcome

-- `Bridge<Skrepka>` over the states of the core. The state that a panic leaves is kept.
pub record Bridge (S : Type 0) : Type 0 where
  pub fresh : S
  pub update : Bytes → S → S × Outcome
  pub resolve : ℕ → Bytes → S → S × Outcome
  pub view : S → Outcome

-- What the body of an exported method comes to.
pub data Run : Type 0 where
  done : Bytes → Run
  unwinds : Run

-- `catch_unwind(f).unwrap_or_default()`
unfoldable pub guard : Run → Bytes
guard (done bytes) = bytes
guard unwinds = []

-- `Ok(()) => effects, Err(_) => Vec::new()`
abbrev pub answer : Outcome → Run
answer (returned (ok u) effects) = done effects
answer (returned (err e) effects) = done []
answer panicked = unwinds

module _ {S : Type 0} (bridge : Bridge S) where
  unfoldable pub new : S
  new = bridge.fresh

  unfoldable pub ffi_update : Bytes → S → S × Bytes
  unfolding guard
  ffi_update bytes s = let (s', o) = bridge.update bytes s in (s', guard (answer o))

  unfoldable pub ffi_resolve : ℕ → Bytes → S → S × Bytes
  unfolding guard
  ffi_resolve id bytes s = let (s', o) = bridge.resolve id bytes s in (s', guard (answer o))

  unfoldable pub ffi_view : S → Bytes
  unfolding guard
  ffi_view s = guard (answer (bridge.view s))
