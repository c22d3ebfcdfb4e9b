-- ===== src/Tests/Codecs.antt =====
-- Codecs that read back what they wrote, for the stored records.
use skrepka.Base.{
  ℕ, zero, suc, ◌≡◌, refl, Bool, true, false, Option, none, some, List, [], ◌∷◌, arith, Bytes, Text,
  length, ℤ, pos, negsuc,
}
use skrepka.Domain.{Settings, OwnProfile, Contact, StoredMessage, OutboxItem}
use skrepka.App.{Codec}
use skrepka.App.Storage.{IsLossless}

-- A way to write a value before other bytes, and to read it off them.
pub record Form (A : Type 0) : Type 0 where
  pub put : A → Bytes → Bytes
  pub take : Bytes → Option (A × Bytes)

pub record IsForm {A : Type 0} (f : Form A) : Type 0 where
  pub take-put : (a : A) (rest : Bytes) → f.take (f.put a rest) ≡ some (a, rest)

abbrev pub codec_of : {A : Type 0} → Form A → Codec A
codec_of f = record {
  encode = λ a. f.put a [];
  decode = λ bytes. elim (f.take bytes) [ none ↦ none | some (a, rest) ↦ some a ];
}

pub codec_of-IsLossless : {A : Type 0} (f : Form A) → IsForm f → IsLossless (codec_of f)
codec_of-IsLossless f h = record { decode-encode = λ a. ground (arith, h.take-put a []) }

abbrev pub read_nat : Bytes → Option (ℕ × Bytes)
read_nat [] = none
read_nat (n ∷ rest) = some (n, rest)

abbrev pub nat_form : Form ℕ
nat_form = record { put = λ n rest. n ∷ rest; take = read_nat }

pub nat_form-IsForm : IsForm nat_form
nat_form-IsForm = record { take-put = λ n rest. refl }

module _ {A : Type 0} (f : Form A) where
  abbrev pub put_all : List A → Bytes → Bytes
  put_all [] rest = rest
  put_all (x ∷ xs) rest = f.put x (put_all xs rest)

  abbrev pub read_all : ℕ → Bytes → Option (List A × Bytes)
  read_all zero bytes = some ([], bytes)
  read_all (suc n) bytes = elim (f.take bytes) [
    | none ↦ none
    | some (x, rest) ↦ elim (read_all n rest) [
      | none ↦ none
      | some (xs, behind) ↦ some (x ∷ xs, behind)
    ]
  ]

  abbrev pub read_list : Bytes → Option (List A × Bytes)
  read_list [] = none
  read_list (n ∷ rest) = read_all n rest

  abbrev pub list_form : Form (List A)
  list_form = record { put = λ xs rest. length xs ∷ put_all xs rest; take = read_list }

  read_all-put_all :
      IsForm f
      → (xs : List A) (rest : Bytes) → read_all (length xs) (put_all xs rest) ≡ some (xs, rest)
  read_all-put_all h [] rest = refl
  read_all-put_all h (x ∷ xs) rest =
      ground (arith, h.take-put x (put_all xs rest), read_all-put_all h xs rest)

  pub list_form-IsForm : IsForm f → IsForm list_form
  list_form-IsForm h = record { take-put = read_all-put_all h }

  abbrev pub put_option : Option A → Bytes → Bytes
  put_option none rest = 0 ∷ rest
  put_option (some a) rest = 1 ∷ f.put a rest

  abbrev pub read_option : Bytes → Option (Option A × Bytes)
  read_option [] = none
  read_option (zero ∷ rest) = some (none, rest)
  read_option (suc n ∷ bytes) = elim (f.take bytes) [
    | none ↦ none
    | some (a, rest) ↦ some (some a, rest)
  ]

  abbrev pub option_form : Form (Option A)
  option_form = record { put = put_option; take = read_option }

  take-put_option :
      IsForm f → (o : Option A) (rest : Bytes) → read_option (put_option o rest) ≡ some (o, rest)
  take-put_option h none rest = refl
  take-put_option h (some a) rest = ground (arith, h.take-put a rest)

  pub option_form-IsForm : IsForm f → IsForm option_form
  option_form-IsForm h = record { take-put = take-put_option h }

module _ {A B : Type 0} (f : Form A) (g : Form B) where
  abbrev pub read_pair : Bytes → Option ((A × B) × Bytes)
  read_pair bytes = elim (f.take bytes) [
    | none ↦ none
    | some (a, rest) ↦ elim (g.take rest) [ none ↦ none | some (b, behind) ↦ some ((a, b), behind) ]
  ]

  abbrev pub pair_form : Form (A × B)
  pair_form = record { put = λ p rest. f.put p.0 (g.put p.1 rest); take = read_pair }

  pub pair_form-IsForm : IsForm f → IsForm g → IsForm pair_form
  pair_form-IsForm h k = record {
    take-put = λ p rest. ground (arith, h.take-put p.0 (g.put p.1 rest), k.take-put p.1 rest);
  }

-- The form of a type by that of another which holds the same.
module _ {A B : Type 0} (f : Form A) (to : A → B) (from : B → A) where
  abbrev pub form_by : Form B
  form_by = record {
    put = λ b rest. f.put (from b) rest;
    take = λ bytes. elim (f.take bytes) [ none ↦ none | some (a, rest) ↦ some (to a, rest) ];
  }

  pub form_by-IsForm : IsForm f → ((b : B) → to (from b) ≡ b) → IsForm form_by
  form_by-IsForm h same = record {
    take-put = λ b rest. ground (arith, h.take-put (from b) rest, same b);
  }

abbrev pub text_form : Form Text
text_form = list_form nat_form

pub text_form-IsForm : IsForm text_form
text_form-IsForm = list_form-IsForm nat_form nat_form-IsForm

abbrev pub to_bool : ℕ → Bool
to_bool zero = false
to_bool (suc n) = true

abbrev pub from_bool : Bool → ℕ
from_bool false = 0
from_bool true = 1

from_bool-to_bool : (b : Bool) → to_bool (from_bool b) ≡ b
from_bool-to_bool false = refl
from_bool-to_bool true = refl

abbrev pub bool_form : Form Bool
bool_form = form_by nat_form to_bool from_bool

pub bool_form-IsForm : IsForm bool_form
bool_form-IsForm = form_by-IsForm nat_form to_bool from_bool nat_form-IsForm from_bool-to_bool

abbrev pub to_int : ℕ × ℕ → ℤ
to_int (zero, n) = pos n
to_int (suc t, n) = negsuc n

abbrev pub from_int : ℤ → ℕ × ℕ
from_int (pos n) = (0, n)
from_int (negsuc n) = (1, n)

to_int-from_int : (z : ℤ) → to_int (from_int z) ≡ z
to_int-from_int (pos n) = refl
to_int-from_int (negsuc n) = refl

abbrev pub int_form : Form ℤ
int_form = form_by (pair_form nat_form nat_form) to_int from_int

pub int_form-IsForm : IsForm int_form
int_form-IsForm =
    form_by-IsForm (pair_form nat_form nat_form) to_int from_int
      (pair_form-IsForm nat_form nat_form nat_form-IsForm nat_form-IsForm) to_int-from_int

abbrev pub settings_form : Form Settings
settings_form = form_by text_form (λ url. record { server_url = url }) (λ s. s.server_url)

-- Two texts, and two of anything.
abbrev pub texts_form : Form (Text × Text)
texts_form = pair_form text_form text_form

pub texts_form-IsForm : IsForm texts_form
texts_form-IsForm = pair_form-IsForm text_form text_form text_form-IsForm text_form-IsForm

abbrev pub photo_form : Form (Option Text)
photo_form = option_form text_form

pub photo_form-IsForm : IsForm photo_form
photo_form-IsForm = option_form-IsForm text_form text_form-IsForm

abbrev pub profile_parts : Form ((Text × Text) × Option Text)
profile_parts = pair_form texts_form photo_form

abbrev pub profile_form : Form OwnProfile
profile_form =
    form_by profile_parts (λ p. record { display_name = p.0.0; bio = p.0.1; photo = p.1 })
      (λ own. ((own.display_name, own.bio), own.photo))

abbrev pub contact_texts : Form (((Text × Text) × (Text × Text)) × Option Text)
contact_texts = pair_form (pair_form texts_form texts_form) photo_form

abbrev pub contact_times : Form ((Bool × ℤ) × (ℤ × ℤ))
contact_times = pair_form (pair_form bool_form int_form) (pair_form int_form int_form)

abbrev pub contact_form : Form Contact
contact_form =
    form_by (pair_form contact_texts contact_times)
      (λ p. record {
        pubkey = p.0.0.0.0;
        nickname = p.0.0.0.1;
        display_name = p.0.0.1.0;
        bio = p.0.0.1.1;
        photo = p.0.1;
        blocked = p.1.0.0;
        last_profile_ts = p.1.0.1;
        last_ack_ts = p.1.1.0;
        added_at = p.1.1.1;
      })
      (λ c. (
        (((c.pubkey, c.nickname), (c.display_name, c.bio)), c.photo),
        ((c.blocked, c.last_profile_ts), (c.last_ack_ts, c.added_at)),
      ))

abbrev pub message_parts : Form ((Text × Text) × (ℤ × (Bool × Bool)))
message_parts = pair_form texts_form (pair_form int_form (pair_form bool_form bool_form))

abbrev pub message_form : Form StoredMessage
message_form =
    form_by message_parts
      (λ p. record {
        id = p.0.0;
        body = p.0.1;
        ts = p.1.0;
        outgoing = p.1.1.0;
        delivered = p.1.1.1;
      })
      (λ msg. ((msg.id, msg.body), (msg.ts, (msg.outgoing, msg.delivered))))

abbrev pub item_parts : Form ((Text × Text) × (Option Text × (ℕ × ℤ)))
item_parts = pair_form texts_form (pair_form photo_form (pair_form nat_form int_form))

abbrev pub item_form : Form OutboxItem
item_form =
    form_by item_parts
      (λ p. record {
        recipient = p.0.0;
        envelope_json = p.0.1;
        kind = p.1.0;
        retries = p.1.1.0;
        first_attempt = p.1.1.1;
      })
      (λ item.
        ((item.recipient, item.envelope_json), (item.kind, (item.retries, item.first_attempt))))

pub settings_form-IsForm : IsForm settings_form
settings_form-IsForm = form_by-IsForm _ _ _ text_form-IsForm (λ s. refl)

pub profile_form-IsForm : IsForm profile_form
profile_form-IsForm =
    form_by-IsForm _ _ _ (pair_form-IsForm _ _ texts_form-IsForm photo_form-IsForm) (λ own. refl)

pub contact_form-IsForm : IsForm contact_form
contact_form-IsForm =
    form_by-IsForm _ _ _
      (pair_form-IsForm _ _
        (pair_form-IsForm _ _ (pair_form-IsForm _ _ texts_form-IsForm texts_form-IsForm)
          photo_form-IsForm)
        (pair_form-IsForm _ _ (pair_form-IsForm _ _ bool_form-IsForm int_form-IsForm)
          (pair_form-IsForm _ _ int_form-IsForm int_form-IsForm)))
      (λ c. refl)

pub message_form-IsForm : IsForm message_form
message_form-IsForm =
    form_by-IsForm _ _ _
      (pair_form-IsForm _ _ texts_form-IsForm (
        pair_form-IsForm _ _ int_form-IsForm
          (pair_form-IsForm _ _ bool_form-IsForm bool_form-IsForm)))
      (λ msg. refl)

pub item_form-IsForm : IsForm item_form
item_form-IsForm =
    form_by-IsForm _ _ _
      (pair_form-IsForm _ _ texts_form-IsForm (
        pair_form-IsForm _ _ photo_form-IsForm
          (pair_form-IsForm _ _ nat_form-IsForm int_form-IsForm)))
      (λ item. refl)
