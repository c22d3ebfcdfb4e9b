-- ===== src/Domain.antt =====
-- core/src/model.rs: the persisted records, the outbox item and the `@p` labels.
use skrepka.Base.{
  ℕ, ◌+◌, ◌-◌, ◌^◌, Bool, false, ◌&&◌, ◌||◌, Option, none, some, [], ◌∷◌, ◌++◌, Text, codes,
  same_text, length, get_or, ltb, leb, if◌then◌else◌, ℤ, pos, ltb_ℤ, saturating_sub, min,
}
use skrepka.Crypto.{Primitives}
use skrepka.Phonemic.{to_ob, split}

abbrev pub default_server_url : Text
default_server_url = codes "http://localhost:8080"

abbrev pub max_messages_per_peer : ℕ
max_messages_per_peer = 1000

pub record Settings : Type 0 where
  pub server_url : Text

-- `Settings::default`
abbrev pub default_settings : Settings
default_settings = record { server_url = default_server_url }

pub record OwnProfile : Type 0 where
  pub display_name : Text
  pub bio : Text
  pub photo : Option Text

pub record Contact : Type 0 where
  pub pubkey : Text
  pub nickname : Text
  pub display_name : Text
  pub bio : Text
  pub photo : Option Text
  pub blocked : Bool
  pub last_profile_ts : ℤ
  pub last_ack_ts : ℤ
  pub added_at : ℤ

unfoldable pub new_contact : Text → Text → ℤ → Contact
new_contact pubkey nickname added_at = record {
  pubkey = pubkey;
  nickname = nickname;
  display_name = [];
  bio = [];
  photo = none;
  blocked = false;
  last_profile_ts = pos 0;
  last_ack_ts = pos 0;
  added_at = added_at;
}

pub record StoredMessage : Type 0 where
  pub id : Text
  pub body : Text
  pub ts : ℤ
  pub outgoing : Bool
  pub delivered : Bool

abbrev pub max_outbox_retries : ℕ
max_outbox_retries = 10

abbrev pub outbox_ttl_ms : ℤ
outbox_ttl_ms = pos 86_400_000

-- `u32::MAX`
abbrev pub u32_max : ℕ
u32_max = 2 ^ 32 - 1

-- `u32::saturating_add(1)`
abbrev pub saturating_inc : ℕ → ℕ
saturating_inc n = min (n + 1) u32_max

pub record OutboxItem : Type 0 where
  pub recipient : Text
  pub envelope_json : Text
  pub kind : Option Text
  pub retries : ℕ
  pub first_attempt : ℤ

unfoldable pub new_item : Text → Text → OutboxItem
new_item recipient envelope_json = record {
  recipient = recipient;
  envelope_json = envelope_json;
  kind = none;
  retries = 0;
  first_attempt = pos 0;
}

unfoldable pub profile_item : Text → Text → OutboxItem
unfolding new_item
profile_item recipient envelope_json = record (new_item recipient envelope_json) {
  kind = some (codes "profile");
}

unfoldable pub is_profile : OutboxItem → Bool
is_profile item = elim item.kind [ none ↦ false | some k ↦ same_text k (codes "profile") ]

unfoldable pub is_expired : OutboxItem → ℤ → Bool
is_expired item now =
    leb max_outbox_retries item.retries
    || (ltb_ℤ (pos 0) item.first_attempt
        && ltb_ℤ outbox_ttl_ms (saturating_sub now item.first_attempt))

module _ (p : Primitives) where
  unfoldable pub hex_to_ob : Text → Text
  hex_to_ob hex_key = elim (p.hex_decode hex_key) [
    | none ↦ hex_key
    | some bytes ↦ elim (to_ob bytes) [ none ↦ hex_key | some ob ↦ ob ]
  ]

  unfoldable pub trunc_ob : Text → Text
  unfolding hex_to_ob split
  trunc_ob hex_key =
      let ob = hex_to_ob hex_key in
      let parts = split b'-' ob in
      let n = length parts in
      if ltb 4 n
      then get_or parts 0 []
        ++ (codes "-"
            ++ (get_or parts 1 []
                ++ (codes "-…-"
                    ++ (get_or parts (n - 2) [] ++ (codes "-" ++ get_or parts (n - 1) [])))))
      else ob

  unfoldable pub label : Contact → Text
  unfolding trunc_ob
  label c = elim c.nickname [
    | d ∷ rest ↦ d ∷ rest
    | [] ↦ elim c.display_name [ d ∷ rest ↦ d ∷ rest | [] ↦ trunc_ob c.pubkey ]
  ]
