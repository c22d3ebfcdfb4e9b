-- ===== src/App/Storage/Marks.antt =====
-- What a poll page has still to write.
use skrepka.Base.{
  ◌≡◌, refl, inl, inr, Bool, true, false, some, List, [], ◌∷◌, arith, Text, same_text,
  if◌then◌else◌, ℤ, Bool-cases,
}
use skrepka.Base.Map
use skrepka.Base.Map.{Map, get-insert}
use skrepka.Domain.{StoredMessage}
use skrepka.App.State.{Env, IdSet}
use skrepka.App.Guards.{or_empty, k_messages}
use skrepka.App.Conversation.{contains, set_insert}
use skrepka.App.Ingest.{PageFold, mark_delivered, marks_any}
use skrepka.App.Storage.{Disk, Stale, Saved, Unless, Holds}

-- What a page has not written yet. The cursor is written at its end, and storage has the old one.
abbrev pub owed : ℤ → PageFold → Stale
owed old g = record {
  settings = false;
  profile = false;
  contacts = g.contacts_dirty;
  cursor = some old;
  outbox = g.outbox_dirty;
  talks = λ peer. contains peer g.touched;
}

contains-set_insert :
    (p q : Text) (set : IdSet)
    → contains p (set_insert q set) ≡ (if same_text q p then true else contains p set)
unfolding contains set_insert
contains-set_insert p q [] = refl
contains-set_insert p q (x ∷ set) = ground (arith, contains-set_insert p q set)

pub mark_none :
    (ids : IdSet) (convo : List StoredMessage)
    → marks_any ids convo ≡ false
    → mark_delivered ids convo ≡ convo
unfolding marks_any mark_delivered
mark_none ids [] h = refl
mark_none ids (msg ∷ convo) h = ground (arith, mark_none ids convo)

module _ (env : Env) (d : Disk) (old : ℤ) where
  abbrev Talks : (Text → Bool) → Map (List StoredMessage) → Type 0
  Talks owes messages =
      (peer : Text)
      → Unless (owes peer)
          (Holds env.messages_json [] (d (k_messages peer)) (or_empty (Map.get peer messages)))

  -- A conversation that was changed and is marked.
  pub touched_talk :
      (sender : Text) (convo : List StoredMessage) (touched : IdSet)
      (messages : Map (List StoredMessage))
      → Talks (λ p. contains p touched) messages
      → Talks (λ p. contains p (set_insert sender touched)) (Map.insert sender convo messages)
  touched_talk sender convo touched messages h p = elim (Bool-cases (same_text sender p)) [
    | inl mine ↦ rw (contains-set_insert p sender touched, mine) tt
    | inr other ↦
        rw (contains-set_insert p sender touched, get-insert p sender convo messages, other) (h p)
  ]

  -- A conversation that was put back as it was.
  pub same_talk :
      (sender : Text) (convo : List StoredMessage) (touched : IdSet)
      (messages : Map (List StoredMessage))
      → or_empty (Map.get sender messages) ≡ convo
      → Talks (λ p. contains p touched) messages
      → Talks (λ p. contains p touched) (Map.insert sender convo messages)
  same_talk sender convo touched messages e h p = elim (Bool-cases (same_text sender p)) [
    | inl mine ↦
        let here : sender ≡ p = ground arith in
        rw (get-insert p sender convo messages, mine, ← e, here) (h p)
    | inr other ↦ rw (get-insert p sender convo messages, other) (h p)
  ]

  abbrev pub Follows : PageFold → Type 0
  Follows g = Saved env d g.model (owed old g)

  -- Two states of a page that differ in no part that is stored, but the cursor.
  pub record SameFold (g f : PageFold) : Type 0 where
    pub kv_load_failed : f.model.kv_load_failed ≡ g.model.kv_load_failed
    pub settings : f.model.settings ≡ g.model.settings
    pub profile : f.model.profile ≡ g.model.profile
    pub contacts : f.model.contacts ≡ g.model.contacts
    pub outbox : f.model.outbox ≡ g.model.outbox
    pub messages : f.model.messages ≡ g.model.messages
    pub touched : f.touched ≡ g.touched
    pub contacts_dirty : f.contacts_dirty ≡ g.contacts_dirty
    pub outbox_dirty : f.outbox_dirty ≡ g.outbox_dirty

  pub SameFold-Follows : (g f : PageFold) → SameFold g f → Follows g → Follows f
  SameFold-Follows g f s h = record {
    readable = rw s.kv_load_failed h.readable;
    settings = rw s.settings h.settings;
    profile = rw s.profile h.profile;
    contacts = rw (s.contacts, s.contacts_dirty) h.contacts;
    cursor = h.cursor;
    outbox = rw (s.outbox, s.outbox_dirty) h.outbox;
    talks = rw (s.messages, s.touched) h.talks;
  }

  -- A step that changes no more than the contacts, and marks them.
  pub people-Follows :
      (g f : PageFold)
      → SameFold g (record f {
        model = record (f.model) { contacts = g.model.contacts };
        contacts_dirty = g.contacts_dirty;
      })
      → f.contacts_dirty ≡ true
      → Follows g
      → Follows f
  people-Follows g f s dirty h = record {
    readable = rw s.kv_load_failed h.readable;
    settings = rw s.settings h.settings;
    profile = rw s.profile h.profile;
    contacts = rw dirty tt;
    cursor = h.cursor;
    outbox = rw (s.outbox, s.outbox_dirty) h.outbox;
    talks = rw (s.messages, s.touched) h.talks;
  }

  -- A step that changes no more than the conversations.
  pub Talks-Follows :
      (g f : PageFold)
      → SameFold g (record f {
        model = record (f.model) { messages = g.model.messages };
        touched = g.touched;
      })
      → Talks (λ p. contains p f.touched) f.model.messages
      → Follows g
      → Follows f
  Talks-Follows g f s t h = record {
    readable = rw s.kv_load_failed h.readable;
    settings = rw s.settings h.settings;
    profile = rw s.profile h.profile;
    contacts = rw (s.contacts, s.contacts_dirty) h.contacts;
    cursor = h.cursor;
    outbox = rw (s.outbox, s.outbox_dirty) h.outbox;
    talks = t;
  }
