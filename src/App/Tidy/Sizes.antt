-- ===== src/App/Tidy/Sizes.antt =====
-- A page makes contacts up to the cap only.
use Prim.Native.Nat.Ordering.{gt}
use skrepka.Base.{
  ℕ, suc, ◌≤◌, ◌≡◌, refl, ◌⊎◌, inl, inr, false, Option, none, some, [], ◌∷◌, arith, Text, ℤ, max,
  min_ℤ, leb, compare_text, compare_text_refl, same_text, Option-cases,
}
use skrepka.Base.Map
use skrepka.Base.Map.{Map}
use skrepka.Domain.{new_contact}
use skrepka.Protocol.{Payload, text, delivery_ack, profile}
use skrepka.App.State.{Model, Env, World, HttpResult, max_contacts}
use skrepka.App.Ingest.{
  PageFold, PendingAck, welcome, file_text, ingest_text, ingest_ack, ingest_profile, ingest_payload,
  mark_contact, mark_messages, update_profile,
}
use skrepka.App.Polling.{on_poll_result}
use skrepka.App.Tidy.Maps.{Above, Ascending, Above-trans, insert_cases}
use skrepka.App.Tidy.Page.{
  IsTidy, SameMaps, SameMaps-IsTidy, ingest_payload-IsTidy, mark_contact-IsTidy,
  mark_messages-IsTidy,
}
use skrepka.App.Tidy.Poll.{IsKept, on_poll_result-keeps}

module _ {ℓ} {V : Type ℓ} where
  -- A key below all those of a map is not in it.
  get-Above : (k : Text) (m : Map V) → Above k m → Ascending m → Map.get k m ≡ none
  unfolding Map.get
  get-Above k [] h a = refl
  get-Above k ((j, w) ∷ m) h a =
      let other : same_text j k ≡ false = ground (arith, compare_text_refl k) in
      ground (arith, other, get-Above k m (Above-trans k j m h a.0) a.1)

  -- A key above the first is looked for behind it.
  get_behind :
      (k j : Text) (w : V) (m : Map V)
      → compare_text k j ≡ gt
      → Map.get k ((j, w) ∷ m) ≡ Map.get k m
  unfolding Map.get
  get_behind k j w m h =
      let other : same_text j k ≡ false = ground (arith, compare_text_refl k) in
      ground (arith, other)

  size-insert : (k : Text) (v : V) (m : Map V) → Map.size (Map.insert k v m) ≤ suc (Map.size m)
  size-insert k v [] = unfold Map.insert in omega arith
  size-insert k v ((j, w) ∷ m) = elim (insert_cases k j v w m) [
    | inl (before, e) ↦ rw e (omega arith)
    | inr (inl (behind, e)) ↦ rw e (omega (arith, size-insert k v m))
    | inr (inr (same, e)) ↦ rw e (omega arith)
  ]

  -- A value that is replaced adds no entry.
  size-replace :
      (k : Text) (v : V) (m : Map V) {old : V}
      → Ascending m
      → Map.get k m ≡ some old
      → Map.size (Map.insert k v m) ≤ Map.size m
  size-replace k v [] a e = unfold Map.get in cc
  size-replace k v ((j, w) ∷ m) {old = old} a e = elim (insert_cases k j v w m) [
    | inl (before, f) ↦
        let missing : Map.get k ((j, w) ∷ m) ≡ none = get-Above k ((j, w) ∷ m) before a in cc
    | inr (inl (behind, f)) ↦
        let further : Map.get k m ≡ some old = rw (get_behind k j w m behind) at e in
        rw f (omega (arith, size-replace k v m a.1 further))
    | inr (inr (same, f)) ↦ rw f (omega arith)
  ]

-- The models with their maps in good order and at most `n` contacts.
abbrev Holds : ℕ → Model → Type 0
Holds n m = IsTidy m × (Map.size m.contacts ≤ n)

module _ (env : Env) (n : ℕ) (room : max_contacts ≤ n) where
  same-Holds : (a b : Model) → SameMaps a b → Holds n a → Holds n b
  same-Holds a b s (tidy, few) = (SameMaps-IsTidy a b s tidy, rw s.contacts few)

  ingest_text_few :
      (now : ℤ) (sender : Text) (ts : ℤ) (msg_id body : Text) (g : PageFold)
      → Map.size g.model.contacts ≤ n
      → Map.size (ingest_text env now sender ts msg_id body g).model.contacts ≤ n
  unfolding ingest_text file_text welcome
  ingest_text_few now sender ts msg_id body g few =
      let after = (ingest_text env now sender ts msg_id body g).model.contacts in
      let met = Map.insert sender (new_contact sender [] ts) g.model.contacts in
      let either : (after ≡ g.model.contacts)
          ⊎ ((after ≡ met) × (leb max_contacts (Map.size g.model.contacts) ≡ false)) =
        ground arith in
      elim either [
        | inl same ↦ rw same few
        | inr (new, below) ↦
            rw new (ground (arith, size-insert sender (new_contact sender [] ts) g.model.contacts))
      ]

  ingest_profile_few :
      (now : ℤ) (sender : Text) (ts : ℤ) (name bio photo : Option Text) (g : PageFold)
      → IsTidy g.model
      → Map.size g.model.contacts ≤ n
      → Map.size (ingest_profile env now sender ts name bio photo g).model.contacts ≤ n
  unfolding ingest_profile
  ingest_profile_few now sender ts name bio photo g tidy few =
      elim (Option-cases (Map.get sender g.model.contacts)) [
        | inl nobody ↦
            let e : ingest_profile env now sender ts name bio photo g ≡ g =
              ground (arith, nobody) in
            rw e few
        | inr (c, found) ↦
            let after = (ingest_profile env now sender ts name bio photo g).model.contacts in
            let told = update_profile env now ts name bio photo c in
            let either : (after ≡ g.model.contacts)
                ⊎ (after ≡ Map.insert sender told g.model.contacts) =
              ground (arith, found) in
            elim either [
              | inl old ↦ rw old few
              | inr new ↦
                  rw new
                    (omega (arith, size-replace sender told g.model.contacts tidy.people.1 found))
            ]
      ]

  mark_contact_few :
      (now : ℤ) (sender : Text) (pending : PendingAck) (g : PageFold)
      → IsTidy g.model
      → Map.size g.model.contacts ≤ n
      → Map.size (mark_contact now sender pending g).model.contacts ≤ n
  unfolding mark_contact
  mark_contact_few now sender pending g tidy few =
      elim (Option-cases (Map.get sender g.model.contacts)) [
        | inl nobody ↦
            let e : mark_contact now sender pending g ≡ g = ground (arith, nobody) in rw e few
        | inr (c, found) ↦
            let marked = record c { last_ack_ts = min_ℤ pending.ts now } in
            let e : (mark_contact now sender pending g).model.contacts
                ≡ Map.insert sender marked g.model.contacts =
              ground (arith, found) in
            rw e (omega (arith, size-replace sender marked g.model.contacts tidy.people.1 found))
      ]

  ingest_payload_few :
      (now : ℤ) (sender : Text) (ts : ℤ) (p : Payload) (g : PageFold)
      → IsTidy g.model
      → Map.size g.model.contacts ≤ n
      → Map.size (ingest_payload env now sender ts p g).model.contacts ≤ n
  unfolding ingest_payload ingest_ack
  ingest_payload_few now sender ts (text msg_id body) g tidy few =
      ingest_text_few now sender ts msg_id body g few
  ingest_payload_few now sender ts (delivery_ack ids) g tidy few = few
  ingest_payload_few now sender ts (profile name bio photo) g tidy few =
      ingest_profile_few now sender ts name bio photo g tidy few

  mark_messages_contacts :
      (now : ℤ) (sender : Text) (pending : PendingAck) (g : PageFold)
      → (mark_messages now sender pending g).model.contacts ≡ g.model.contacts
  unfolding mark_messages
  mark_messages_contacts now sender pending g = ground arith

  Holds-IsKept : IsKept env (Holds n)
  Holds-IsKept = record {
    same = same-Holds;
    payload = λ now sender ts p g (tidy, few). (
      ingest_payload-IsTidy env now sender ts p g tidy,
      ingest_payload_few now sender ts p g tidy few,
    );
    contact = λ now sender pending g (tidy, few). (
      mark_contact-IsTidy env now sender pending g tidy,
      mark_contact_few now sender pending g tidy few,
    );
    messages = λ now sender pending g (tidy, few). (
      mark_messages-IsTidy env now sender pending g tidy,
      rw (mark_messages_contacts now sender pending g) few,
    );
  }

-- The answer to a poll leaves at most as many contacts as there were, or five hundred if those were
-- fewer, when the maps were in good order before.
pub size-on_poll_result :
    (env : Env) (w : World) (gen : ℕ) (res : HttpResult) (m : Model)
    → IsTidy m
    → Map.size (on_poll_result env w gen res m).0.contacts ≤ max (Map.size m.contacts) max_contacts
size-on_poll_result env w gen res m h =
    let n = max (Map.size m.contacts) max_contacts in
    (on_poll_result-keeps env (Holds n) (Holds-IsKept env n (omega arith)) w gen res m
      (h, omega arith)).1
