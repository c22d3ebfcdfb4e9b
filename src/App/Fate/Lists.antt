-- ===== src/App/Fate/Lists.antt =====
-- Reasons for which an item leaves the outbox, and the steps of the outbox item by item.
use skrepka.Base.{
  ℕ, zero, suc, ◌≡◌, refl, ◌∙◌, inl, inr, true, none, ◌<◌, ◌+◌, List, [], ◌∷◌, ◌++◌, arith, Text, ℤ,
  drop, map, same_text, Bool-cases,
}
use skrepka.Crypto.{Identity}
use skrepka.Domain.{OutboxItem, is_expired, saturating_inc}
use skrepka.App.State.{Env, World}
use skrepka.App.Outbox.{stamp, charge, encrypt_for}
use skrepka.App.User.{retain_others}
use skrepka.App.Batching.{Dropped, same, keep, drop_item}
use skrepka.App.Alignment.Queue.{Leads}

-- `ys` is `xs` in its order, without the items that left for a reason, with new items at the end.
-- The number is the place of the first item of `xs` in the outbox.
pub data Fate (Same : OutboxItem → OutboxItem → Type 0) (Reason : ℕ → OutboxItem → Type 0)
    : ℕ → List OutboxItem → List OutboxItem → Type 0 where
  rest : {k : ℕ} (ys : List OutboxItem) → Fate Same Reason k [] ys
  stays :
      {k : ℕ} {x y : OutboxItem} {xs ys : List OutboxItem}
      → Same x y
      → Fate Same Reason (suc k) xs ys
      → Fate Same Reason k (x ∷ xs) (y ∷ ys)
  leaves :
      {k : ℕ} {x : OutboxItem} {xs ys : List OutboxItem}
      → Reason k x
      → Fate Same Reason (suc k) xs ys
      → Fate Same Reason k (x ∷ xs) ys

-- The same message, perhaps tried once more.
pub record SameMail (x y : OutboxItem) : Type 0 where
  pub recipient : y.recipient ≡ x.recipient
  pub envelope : y.envelope_json ≡ x.envelope_json
  pub kind : y.kind ≡ x.kind

SameMail-refl : (x : OutboxItem) → SameMail x x
SameMail-refl x = record { recipient = refl; envelope = refl; kind = refl }

SameMail-trans : {x y z : OutboxItem} → SameMail x y → SameMail y z → SameMail x z
SameMail-trans s t = record {
  recipient = t.recipient ∙ s.recipient;
  envelope = t.envelope ∙ s.envelope;
  kind = t.kind ∙ s.kind;
}

module _ {Reason : ℕ → OutboxItem → Type 0} where
  pub Fate-same : {k : ℕ} (xs : List OutboxItem) → Fate SameMail Reason k xs xs
  Fate-same [] = rest []
  Fate-same (x ∷ xs) = stays (SameMail-refl x) (Fate-same xs)

  pub Fate-append : {k : ℕ} (xs ys : List OutboxItem) → Fate SameMail Reason k xs (xs ++ ys)
  Fate-append [] ys = rest ys
  Fate-append (x ∷ xs) ys = stays (SameMail-refl x) (Fate-append xs ys)

  pub Fate-retain_others :
      {k : ℕ} (peer : Text) (xs : List OutboxItem)
      → ((i : ℕ) (x : OutboxItem) → same_text x.recipient peer ≡ true → Reason i x)
      → Fate SameMail Reason k xs (retain_others peer xs)
  unfolding retain_others
  Fate-retain_others peer [] cut = rest []
  Fate-retain_others peer (x ∷ xs) cut = elim (Bool-cases (same_text x.recipient peer)) [
    | inl gone ↦ rw gone (leaves (cut _ x gone) (Fate-retain_others peer xs cut))
    | inr here ↦ rw here (stays (SameMail-refl x) (Fate-retain_others peer xs cut))
  ]

  pub Fate-drop :
      {k : ℕ} (r : Text) (n : ℕ) (xs : List OutboxItem)
      → Leads r n xs
      → ((i : ℕ) (x : OutboxItem) → x.recipient ≡ r → i < k + n → Reason i x)
      → Fate SameMail Reason k xs (drop n xs)
  Fate-drop r zero xs h done = Fate-same xs
  Fate-drop r (suc n) [] h done = elim h [ ]
  Fate-drop r (suc n) (x ∷ xs) h done =
      leaves (done _ x h.0 (omega arith))
        (Fate-drop r n xs h.1 (λ i y e b. done i y e (omega arith)))

  pub Fate-charge :
      {k : ℕ} (now : ℤ) (r : Text) (n : ℕ) (xs : List OutboxItem)
      → Leads r n xs
      → ((i : ℕ) (x : OutboxItem)
          → x.recipient ≡ r
          → i < k + n
          → is_expired (record x { retries = saturating_inc x.retries }) now ≡ true
          → Reason i x)
      → Fate SameMail Reason k xs (charge n now xs).0
  unfolding charge
  Fate-charge now r zero [] h old = rest []
  Fate-charge now r (suc n) [] h old = rest []
  Fate-charge now r zero (x ∷ xs) h old = Fate-same (x ∷ xs)
  Fate-charge {k = k} now r (suc n) (x ∷ xs) h old =
      let later =
        Fate-charge now r n xs h.1 (λ i y e (b : i < suc k + n). old i y e (omega arith)) in
      elim (Bool-cases (is_expired (record x { retries = saturating_inc x.retries }) now)) [
        | inl gone ↦ rw gone (leaves (old _ x h.0 (omega arith) gone) later)
        | inr here ↦
            rw here (stays (record { recipient = refl; envelope = refl; kind = refl }) later)
      ]

  pub Fate-Dropped :
      (env : Env) (w : World) (id : Identity) {k : ℕ} {xs ys : List OutboxItem}
      → ((i j : ℕ) (x : OutboxItem) → encrypt_for env w i id x ≡ none → Reason j x)
      → Dropped env w id xs ys
      → Fate SameMail Reason k xs ys
  Fate-Dropped env w id bad (same items) = Fate-same items
  Fate-Dropped env w id bad (keep item d) = stays (SameMail-refl item) (Fate-Dropped env w id bad d)
  Fate-Dropped env w id bad (drop_item i item e d) =
      leaves (bad i _ item e) (Fate-Dropped env w id bad d)

  pub Fate-stamp :
      {k : ℕ} (now : ℤ) (xs ys : List OutboxItem)
      → Fate SameMail Reason k (xs ++ ys) (map (stamp now) xs ++ ys)
  unfolding stamp
  Fate-stamp now [] ys = Fate-same ys
  Fate-stamp now (x ∷ xs) ys = stays (ground arith) (Fate-stamp now xs ys)

module _ {Reason : ℕ → OutboxItem → Type 0} {Later : OutboxItem → Type 0} where
  -- One change after another, where a reason of the second is one of the message before the first
  -- wherever it stood.
  pub Fate-trans :
      {k j : ℕ} {xs ys zs : List OutboxItem}
      → ((i : ℕ) (x y : OutboxItem) → SameMail x y → Later y → Reason i x)
      → Fate SameMail Reason k xs ys
      → Fate SameMail (λ i. Later) j ys zs
      → Fate SameMail Reason k xs zs
  Fate-trans back (rest ys) g = rest _
  Fate-trans back (stays s f) (stays t g) = stays (SameMail-trans s t) (Fate-trans back f g)
  Fate-trans back (stays s f) (leaves r g) = leaves (back _ _ _ s r) (Fate-trans back f g)
  Fate-trans back (leaves r f) g = leaves r (Fate-trans back f g)

  pub Fate-map :
      {k : ℕ} {xs ys : List OutboxItem}
      → ((i : ℕ) (x : OutboxItem) → Later x → Reason i x)
      → Fate SameMail (λ i. Later) k xs ys
      → Fate SameMail Reason k xs ys
  Fate-map f (rest ys) = rest ys
  Fate-map f (stays s g) = stays s (Fate-map f g)
  Fate-map f (leaves r g) = leaves (f _ _ r) (Fate-map f g)
