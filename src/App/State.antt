-- ===== src/App/State.antt =====
-- core/src/app.rs: events, effects, the `Model`, and what the core takes from outside.
use skrepka.Base.{
  ℕ, ◌+◌, ◌%◌, ◌^◌, Bool, false, Option, none, List, [], Bytes, Text, codes, ℤ, pos, Result,
}
use skrepka.Base.Map.{Map}
use skrepka.Crypto.{Primitives, Draws}
use skrepka.Domain.{Settings, OwnProfile, Contact, StoredMessage, OutboxItem, default_settings}
use skrepka.Protocol.{Value, Envelope}

-- `KvData`; an error carries its printed form.
abbrev pub KvData : Type 0
KvData = Result Text (Option Bytes)

-- What the handlers read of a response: `retry_after` is the last value of that header.
pub record Response : Type 0 where
  pub status : ℕ
  pub retry_after : Option Text
  pub body : Bytes

abbrev pub HttpResult : Type 0
HttpResult = Result Text Response

pub data Event : Type 0 where
  identity_loaded : Bytes → Event
  show_conversations show_settings show_add_contact show_edit_profile back : Event
  open_chat compose_changed : Text → Event
  send_text : Event
  add_contact : Text → Text → Event
  set_blocked : Text → Bool → Event
  delete_contact : Text → Event
  save_profile : Text → Text → Option Text → Event
  set_server_url : Text → Event
  connect : Event
  loaded_settings loaded_profile loaded_contacts loaded_cursor loaded_outbox : KvData → Event
  loaded_seen_ids : KvData → Event
  loaded_messages : Text → KvData → Event
  saved saved_cursor : KvData → Event
  authenticate poll start_flush : Event
  poll_watchdog flush_watchdog auth_watchdog : ℕ → Event
  challenge_result verify_result poll_result send_result : ℕ → HttpResult → Event

-- The bodies of the four requests.
pub data Body : Type 0 where
  challenge_req : Text → Body
  verify_req : Text → Text → Text → Bool → Body
  poll_req : ℤ → Body
  send_batch : List Envelope → Body

-- One effect or internal event of a `Command`, with the event that its result becomes.
pub data Cmd : Type 0 where
  render : Cmd
  kv_get : Text → (KvData → Event) → Cmd
  kv_set : Text → Bytes → (KvData → Event) → Cmd
  kv_delete : Text → (KvData → Event) → Cmd
  http_post : Text → Option Text → Body → (HttpResult → Event) → Cmd
  notify_after : ℕ → Event → Cmd
  emit : Event → Cmd

pub data ConnStatus : Type 0 where
  offline connecting online : ConnStatus

pub data Page : Type 0 where
  conversations chat add_contact_page settings_page edit_profile : Page

pub record InFlight : Type 0 where
  pub recipient : Text
  pub count : ℕ
  pub bytes : ℕ

-- A `HashSet<String>` is a list with no repetitions.
abbrev pub IdSet : Type 0
IdSet = List Text

pub record Model : Type 0 where
  pub secret_key : Option Bytes
  pub my_pubkey : Text
  pub settings : Settings
  pub profile : OwnProfile
  pub contacts : Map Contact
  pub messages : Map (List StoredMessage)
  pub seen_ids : Map IdSet
  pub outbox : List OutboxItem
  pub cursor : ℤ
  pub token : Option Text
  pub conn : ConnStatus
  pub poll_retries : ℕ
  pub send_retries : ℕ
  pub polling : Bool
  pub poll_gen : ℕ
  pub authenticating : Bool
  pub auth_gen : ℕ
  pub flushing : Bool
  pub flush_gen : ℕ
  pub in_flight : Option InFlight
  pub send_batch_budget : Option ℕ
  pub loads_pending : ℕ
  pub kv_load_failed : Bool
  pub flush_paused_until : ℤ
  pub page : Page
  pub active_peer : Option Text
  pub compose : Text
  pub error : Option Text

-- `Model::default`
abbrev pub default_model : Model
default_model = record {
  secret_key = none;
  my_pubkey = [];
  settings = default_settings;
  profile = record { display_name = []; bio = []; photo = none };
  contacts = [];
  messages = [];
  seen_ids = [];
  outbox = [];
  cursor = pos 0;
  token = none;
  conn = offline;
  poll_retries = 0;
  send_retries = 0;
  polling = false;
  poll_gen = 0;
  authenticating = false;
  auth_gen = 0;
  flushing = false;
  flush_gen = 0;
  in_flight = none;
  send_batch_budget = none;
  loads_pending = 0;
  kv_load_failed = false;
  flush_paused_until = pos 0;
  page = conversations;
  active_peer = none;
  compose = [];
  error = none;
}

-- The new state and the commands of one call.
abbrev pub Step : Type 0
Step = Model × List Cmd

pub record PollResp : Type 0 where
  pub events : List Text
  pub cursor : ℤ

-- What the `url` crate parses a text into.
pub record Url : Type 0 where
  pub scheme : Text
  pub host_str : Option Text
  pub has_query : Bool
  pub has_fragment : Bool
  pub as_str : Text

-- serde_json on one type: `to_vec` and `from_slice`.
pub record Codec (A : Type 0) : Type 0 where
  pub encode : A → Bytes
  pub decode : Bytes → Option A

-- The libraries that the core calls. `buildable` says whether `body_json` accepts a body, and
-- `hash_order` is the order in which a `HashSet` is iterated.
pub record Env : Type 0 where
  pub prims : Primitives
  pub wide : ℕ → Text
  pub parse_url : Text → Option Url
  pub buildable : Body → Bool
  pub is_base64 : Text → Bool
  pub render_json : Value → Text
  pub from_slice : Bytes → Option Value
  pub settings_json : Codec Settings
  pub profile_json : Codec OwnProfile
  pub contacts_json : Codec (List Contact)
  pub cursor_json : Codec ℤ
  pub outbox_json : Codec (List OutboxItem)
  pub messages_json : Codec (List StoredMessage)
  pub seen_ids_json : Codec (Map IdSet)
  pub decode_challenge : Bytes → Option Text
  pub decode_verify : Bytes → Option Text
  pub decode_poll : Bytes → Option PollResp
  pub hash_order : IdSet → List Text

-- The places where the code reads the clock. Each is passed at most once in one `update`.
pub data Reading : Type 0 where
  add_contact_at save_profile_at send_text_at flush_gate flush_start retry_at : Reading
  rate_limit_at page_cursor_at page_start page_acks_at : Reading

-- The clock, the random draws (one for each encryption) and the fresh id of one `update`.
pub record World : Type 0 where
  pub now : Reading → ℤ
  pub draws : ℕ → Draws
  pub uuid : Text

abbrev pub k_settings : Text
k_settings = codes "settings"

abbrev pub k_profile : Text
k_profile = codes "profile"

abbrev pub k_contacts : Text
k_contacts = codes "contacts"

abbrev pub k_cursor : Text
k_cursor = codes "cursor"

abbrev pub k_outbox : Text
k_outbox = codes "outbox"

abbrev pub k_seen_ids : Text
k_seen_ids = codes "seen_ids"

-- `u64::wrapping_add(1)`
abbrev pub wrapping_inc : ℕ → ℕ
wrapping_inc n = (n + 1) % 2 ^ 64

abbrev pub startup_loads : ℕ
startup_loads = 6

abbrev pub watchdog_ms : ℕ
watchdog_ms = 90_000

abbrev pub max_contacts : ℕ
max_contacts = 500
