-- ===== src/App/View.antt =====
-- `view`, and the types that it fills for the shell.
use Prim.Native.Nat.{Ordering}
use Prim.Native.Nat.Ordering.{lt, eq, gt}
use skrepka.Base.{
  Bool, true, false, ◌&&◌, not, Option, none, some, List, [], ◌∷◌, Text, codes, same_text,
  compare_text, map, if◌then◌else◌, ℤ, pos, ltb_ℤ,
}
use skrepka.Base.Map
use skrepka.Crypto.{Primitives}
use skrepka.Domain.{Contact, StoredMessage, label, hex_to_ob, trunc_ob}
use skrepka.App.State.{
  Model, Page, conversations, chat, add_contact_page, settings_page, edit_profile, ConnStatus,
  offline, connecting, online,
}
use skrepka.App.User.{is_some, is_blocked}
use skrepka.App.Guards.{or_empty}

pub record ProfileVm : Type 0 where
  pub display_name : Text
  pub bio : Text
  pub photo : Text

pub record ContactVm : Type 0 where
  pub pubkey : Text
  pub name : Text
  pub ob : Text
  pub photo : Text
  pub blocked : Bool
  pub last_message : Text
  pub last_ts : ℤ

pub record MessageVm : Type 0 where
  pub id : Text
  pub body : Text
  pub ts : ℤ
  pub outgoing : Bool
  pub delivered : Bool

pub record ViewModel : Type 0 where
  pub page : Text
  pub has_identity : Bool
  pub my_pubkey_hex : Text
  pub my_pubkey_ob : Text
  pub conn_status : Text
  pub server_url : Text
  pub profile : ProfileVm
  pub contacts : List ContactVm
  pub active_peer : Text
  pub active_peer_name : Text
  pub active_peer_ob : Text
  pub active_peer_blocked : Bool
  pub messages : List MessageVm
  pub error : Text

abbrev page_name : Page → Text
page_name conversations = codes "conversations"
page_name chat = codes "chat"
page_name add_contact_page = codes "add_contact"
page_name settings_page = codes "settings"
page_name edit_profile = codes "edit_profile"

abbrev conn_name : ConnStatus → Text
conn_name offline = codes "offline"
conn_name connecting = codes "connecting"
conn_name online = codes "online"

abbrev pub is_chat : Page → Bool
is_chat chat = true
is_chat _ = false

abbrev pub last : List StoredMessage → Option StoredMessage
last [] = none
last (m ∷ []) = some m
last (m ∷ n ∷ ms) = last (n ∷ ms)

abbrev body_or_empty : Option StoredMessage → Text
body_or_empty none = []
body_or_empty (some m) = m.body

abbrev pub ts_or_zero : Option StoredMessage → ℤ
ts_or_zero none = pos 0
ts_or_zero (some m) = m.ts

-- `Ord for i64`
abbrev pub compare_ℤ : ℤ → ℤ → Ordering
compare_ℤ a b = if ltb_ℤ a b then lt else if ltb_ℤ b a then gt else eq

-- `b.last_ts.cmp(&a.last_ts).then(a.name.cmp(&b.name))`
unfoldable pub compare_rows : ContactVm → ContactVm → Ordering
compare_rows a b = elim (compare_ℤ b.last_ts a.last_ts) [
  | lt ↦ lt
  | gt ↦ gt
  | eq ↦ compare_text a.name b.name
]

-- One step of `sort_by`, which is stable: behind the rows that do not compare as greater.
unfoldable pub insert_row : ContactVm → List ContactVm → List ContactVm
insert_row r [] = r ∷ []
insert_row r (s ∷ rows) = elim (compare_rows s r) [
  | gt ↦ r ∷ s ∷ rows
  | eq ↦ s ∷ insert_row r rows
  | lt ↦ s ∷ insert_row r rows
]

unfoldable pub sort_rows : List ContactVm → List ContactVm → List ContactVm
sort_rows sorted [] = sorted
sort_rows sorted (r ∷ rows) = sort_rows (insert_row r sorted) rows

unfoldable pub message_vm : StoredMessage → MessageVm
message_vm s = record {
  id = s.id;
  body = s.body;
  ts = s.ts;
  outgoing = s.outgoing;
  delivered = s.delivered;
}

module _ (p : Primitives) where
  -- The row of one contact.
  unfoldable pub contact_row : Model → Contact → ContactVm
  contact_row m c =
      let newest = last (or_empty (Map.get c.pubkey m.messages)) in
      record {
        pubkey = c.pubkey;
        name = label p c;
        ob = hex_to_ob p c.pubkey;
        photo =
            if is_chat m.page && not (same_text c.pubkey (or_empty m.active_peer))
            then []
            else or_empty c.photo;
        blocked = c.blocked;
        last_message = body_or_empty newest;
        last_ts = ts_or_zero newest;
      }

  abbrev name_of : Text → Option Contact → Text
  name_of peer none = trunc_ob p peer
  name_of peer (some c) = label p c

  unfoldable pub view : Model → ViewModel
  unfolding contact_row sort_rows message_vm
  view m =
      let active_peer = or_empty m.active_peer in
      let active_contact = Map.get active_peer m.contacts in
      record {
        page = page_name m.page;
        has_identity = is_some m.secret_key;
        my_pubkey_hex = m.my_pubkey;
        my_pubkey_ob = hex_to_ob p m.my_pubkey;
        conn_status = conn_name m.conn;
        server_url = m.settings.server_url;
        profile = record {
          display_name = m.profile.display_name;
          bio = m.profile.bio;
          photo = or_empty m.profile.photo;
        };
        contacts = sort_rows [] (map (contact_row m) (Map.values m.contacts));
        active_peer = active_peer;
        active_peer_name = name_of active_peer active_contact;
        active_peer_ob = hex_to_ob p active_peer;
        active_peer_blocked = is_blocked active_contact;
        messages = map message_vm (or_empty (Map.get active_peer m.messages));
        error = or_empty m.error;
      }
