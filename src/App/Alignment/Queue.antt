-- ===== src/App/Alignment/Queue.antt =====
-- What the changes to the outbox leave of its head.
use skrepka.Base.{
  ℕ, zero, suc, ◌≤◌, ◌<◌, ◌≡◌, ◌≢◌, false, Option, none, some, List, [], ◌∷◌, ◌++◌, arith, Text,
  length, map, ℤ,
}
use skrepka.Domain.{OutboxItem}
use skrepka.App.State.{Model, InFlight}
use skrepka.App.Guards.{detached}
use skrepka.App.Outbox.{stamp, max_send_batch, batch_count}
use skrepka.App.User.{retain_others, supersede, broadcast}
use skrepka.App.Batching.{AllTo}

-- The outbox begins with `n` items for `r`.
abbrev pub Leads : Text → ℕ → List OutboxItem → Type 0
Leads r zero items = Unit
Leads r (suc n) [] = ⊥
Leads r (suc n) (item ∷ items) = (item.recipient ≡ r) × Leads r n items

-- What is in flight heads the outbox: at least one item and no more than a batch holds.
abbrev pub Carried : Option InFlight → List OutboxItem → Type 0
Carried none items = Unit
Carried (some f) items =
    (0 < f.count) × (f.count ≤ max_send_batch) × Leads f.recipient f.count items

-- The guard is up while a batch is in flight, and the batch heads the outbox.
pub record IsAligned (m : Model) : Type 0 where
  pub idle : m.flushing ≡ false → m.in_flight ≡ none
  pub carried : Carried m.in_flight m.outbox

Leads-append : (r : Text) (n : ℕ) (xs ys : List OutboxItem) → Leads r n xs → Leads r n (xs ++ ys)
Leads-append r zero xs ys h = tt
Leads-append r (suc n) [] ys h = elim h [ ]
Leads-append r (suc n) (x ∷ xs) ys h = (h.0, Leads-append r n xs ys h.1)

pub Carried-append :
    (f : Option InFlight) (xs ys : List OutboxItem) → Carried f xs → Carried f (xs ++ ys)
Carried-append none xs ys h = tt
Carried-append (some f) xs ys h = (h.0, h.1, Leads-append f.recipient f.count xs ys h.2)

Leads-retain_others :
    (r peer : Text) (n : ℕ) (xs : List OutboxItem)
    → r ≢ peer
    → Leads r n xs
    → Leads r n (retain_others peer xs)
unfolding retain_others
Leads-retain_others r peer zero xs ne h = tt
Leads-retain_others r peer (suc n) [] ne h = elim h [ ]
Leads-retain_others r peer (suc n) (x ∷ xs) ne h =
    ground (arith, Leads-retain_others r peer n xs ne h.1)

pub Carried-retain_others :
    (peer : Text) (f : Option InFlight) (xs : List OutboxItem)
    → Carried f xs
    → Carried (detached peer f) (retain_others peer xs)
Carried-retain_others peer none xs h = tt
Carried-retain_others peer (some f) xs h =
    ground (arith, Leads-retain_others f.recipient peer f.count xs)

Leads-supersede :
    (r peer json : Text) (n : ℕ) (xs : List OutboxItem)
    → Leads r n xs
    → Leads r n (supersede n peer json xs)
unfolding supersede
Leads-supersede r peer json zero xs h = tt
Leads-supersede r peer json (suc n) [] h = elim h [ ]
Leads-supersede r peer json (suc n) (x ∷ xs) h = (h.0, Leads-supersede r peer json n xs h.1)

pub Leads-broadcast :
    (r json : Text) (n : ℕ) (peers : List Text) (xs : List OutboxItem)
    → Leads r n xs
    → Leads r n (broadcast n json peers xs)
unfolding broadcast
Leads-broadcast r json n [] xs h = h
Leads-broadcast r json n (p ∷ ps) xs h =
    Leads-broadcast r json n ps (supersede n p json xs) (Leads-supersede r p json n xs h)

pub Leads-stamp :
    (r : Text) (now : ℤ) (xs ys : List OutboxItem)
    → AllTo r xs
    → Leads r (length xs) (map (stamp now) xs ++ ys)
unfolding stamp
Leads-stamp r now [] ys h = tt
Leads-stamp r now (x ∷ xs) ys h = (ground arith, Leads-stamp r now xs ys h.1)

pub Carried-broadcast :
    (f : Option InFlight) (json : Text) (peers : List Text) (xs : List OutboxItem)
    → Carried f xs
    → Carried f (broadcast (batch_count f) json peers xs)
Carried-broadcast none json peers xs h = tt
Carried-broadcast (some f) json peers xs h =
    (h.0, h.1, Leads-broadcast f.recipient json f.count peers xs h.2)
