-- ===== src/App/LoadOrder.antt =====
-- The startup reads may answer in any order.
use skrepka.Base.{
  ℕ, ◌-◌, ◌<◌, ◌≤◌, ◌≡◌, sym, ap, ◌∙◌, ◌≢◌, ◌⊎◌, inl, inr, Bool, false, ◌||◌, none, [], arith,
}
use skrepka.App.State.{
  Model, Env, World, Event, loaded_settings, loaded_profile, loaded_contacts, loaded_cursor,
  loaded_outbox, loaded_seen_ids,
}
use skrepka.App.Guards.{startup_done, startup_load_done}
use skrepka.App.Urls.{normalize_server_url}
use skrepka.App.Loads.{
  Load, value, absent, failed, parse_kv, collect_contacts, or_default, on_loaded_settings,
  on_loaded_profile, on_loaded_contacts, on_loaded_cursor, on_loaded_outbox, on_loaded_seen_ids,
}
use skrepka.App.Startup.{is_failed}
use skrepka.App.Update.{update}

-- Which of the startup reads an event answers, 0 if none.
abbrev pub read_of : Event → ℕ
read_of (loaded_settings res) = 1
read_of (loaded_profile res) = 2
read_of (loaded_contacts res) = 3
read_of (loaded_cursor res) = 4
read_of (loaded_outbox res) = 5
read_of (loaded_seen_ids res) = 6
read_of _ = 0

-- A model without its message to the user.
abbrev pub unsaid : Model → Model
unsaid m = record m { error = none }

abbrev from_load {ℓ} : {A : Type 0} {B : Type ℓ} → Load A → (A → B) → B → B → B
from_load (value a) f old lost = f a
from_load absent f old lost = old
from_load failed f old lost = lost

-- The change that the answer to one read makes.
abbrev counted : Bool → Model → Model
counted bad m = record m {
  loads_pending = m.loads_pending - 1;
  kv_load_failed = bad || m.kv_load_failed;
}

abbrev settled : Env → Event → Model → Model
settled env (loaded_settings res) m =
    let l = parse_kv env.settings_json res in
    record (counted (is_failed l) m) {
      settings =
          from_load l
            (λ s. record { server_url = or_default (normalize_server_url env s.server_url) })
            m.settings m.settings;
    }
settled env (loaded_profile res) m =
    let l = parse_kv env.profile_json res in
    record (counted (is_failed l) m) { profile = from_load l (λ p. p) m.profile m.profile }
settled env (loaded_contacts res) m =
    let l = parse_kv env.contacts_json res in
    record (counted (is_failed l) m) {
      contacts = from_load l (λ list. collect_contacts [] list) m.contacts m.contacts;
    }
settled env (loaded_cursor res) m =
    let l = parse_kv env.cursor_json res in
    record (counted (is_failed l) m) { cursor = from_load l (λ c. c) m.cursor m.cursor }
settled env (loaded_outbox res) m =
    let l = parse_kv env.outbox_json res in
    record (counted (is_failed l) m) { outbox = from_load l (λ list. list) m.outbox m.outbox }
settled env (loaded_seen_ids res) m =
    let l = parse_kv env.seen_ids_json res in
    record (counted false m) { seen_ids = from_load l (λ ids. ids) m.seen_ids [] }
settled env _ m = m

update-settled :
    (env : Env) (w : World) (e : Event) (m : Model)
    → 0 < read_of e
    → unsaid (update env w e m).0 ≡ settled env e (unsaid m)
unfolding update on_loaded_settings on_loaded_profile on_loaded_contacts on_loaded_cursor
    on_loaded_outbox on_loaded_seen_ids startup_done startup_load_done
update-settled env w (loaded_settings res) m h = ground arith
update-settled env w (loaded_profile res) m h = ground arith
update-settled env w (loaded_contacts res) m h = ground arith
update-settled env w (loaded_cursor res) m h = ground arith
update-settled env w (loaded_outbox res) m h = ground arith
update-settled env w (loaded_seen_ids res) m h = ground arith
update-settled env w _ m h = absurd (omega arith)

read_of_bound : (e : Event) → read_of e ≤ 6
read_of_bound e = ground arith

settled_in_order :
    (env : Env) (e f : Event) (m : Model)
    → 0 < read_of e
    → read_of e < read_of f
    → settled env f (settled env e m) ≡ settled env e (settled env f m)
settled_in_order env (loaded_settings r) (loaded_profile s) m lo lt = ground arith
settled_in_order env (loaded_settings r) (loaded_contacts s) m lo lt = ground arith
settled_in_order env (loaded_settings r) (loaded_cursor s) m lo lt = ground arith
settled_in_order env (loaded_settings r) (loaded_outbox s) m lo lt = ground arith
settled_in_order env (loaded_settings r) (loaded_seen_ids s) m lo lt = ground arith
settled_in_order env (loaded_profile r) (loaded_contacts s) m lo lt = ground arith
settled_in_order env (loaded_profile r) (loaded_cursor s) m lo lt = ground arith
settled_in_order env (loaded_profile r) (loaded_outbox s) m lo lt = ground arith
settled_in_order env (loaded_profile r) (loaded_seen_ids s) m lo lt = ground arith
settled_in_order env (loaded_contacts r) (loaded_cursor s) m lo lt = ground arith
settled_in_order env (loaded_contacts r) (loaded_outbox s) m lo lt = ground arith
settled_in_order env (loaded_contacts r) (loaded_seen_ids s) m lo lt = ground arith
settled_in_order env (loaded_cursor r) (loaded_outbox s) m lo lt = ground arith
settled_in_order env (loaded_cursor r) (loaded_seen_ids s) m lo lt = ground arith
settled_in_order env (loaded_outbox r) (loaded_seen_ids s) m lo lt = ground arith
settled_in_order env (loaded_seen_ids r) f m lo lt = absurd (omega (arith, read_of_bound f))
settled_in_order env _ f m lo lt = absurd (omega arith)

-- Two different reads of the startup may answer in either order, well or badly: but for the message
-- to the user, the model that both leave is the same.
pub loads_commute :
    (env : Env) (w : World) (e f : Event) (m : Model)
    → 0 < read_of e
    → 0 < read_of f
    → read_of e ≢ read_of f
    → unsaid (update env w f (update env w e m).0).0
      ≡ unsaid (update env w e (update env w f m).0).0
loads_commute env w e f m he hf ne =
    let ef =
      update-settled env w f (update env w e m).0 hf
      ∙ ap (settled env f) (update-settled env w e m he) in
    let fe =
      update-settled env w e (update env w f m).0 he
      ∙ ap (settled env e) (update-settled env w f m hf) in
    let either : (read_of e < read_of f) ⊎ (read_of f < read_of e) = omega arith in
    elim either [
      | inl lt ↦ ef ∙ (settled_in_order env e f (unsaid m) he lt ∙ sym fe)
      | inr gt ↦ ef ∙ (sym (settled_in_order env f e (unsaid m) hf gt) ∙ sym fe)
    ]
