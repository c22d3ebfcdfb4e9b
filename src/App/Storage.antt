-- ===== src/App/Storage.antt =====
-- What the commands of the core leave in storage, and when storage holds what the model does.
mod Writes
mod Launch
mod Sends
mod Marks
mod Page
mod Fold
mod Poll
mod Actions
mod Talks
pub mod Updates
mod Contacts
mod Loads
pub mod Answers
mod Startup
pub mod Restart
use skrepka.Base.{
  ◌≡◌, refl, Bool, true, false, ◌&&◌, not, Option, none, some, List, [], ◌∷◌, ◌++◌, arith, Bytes,
  Text, same_text, if◌then◌else◌, ℤ, pos, Bool-cases, inl, inr,
}
use skrepka.Base.Map
use skrepka.Domain.{default_settings}
use skrepka.App.State.{
  Model, Step, Env, Codec, Cmd, render, kv_get, kv_set, kv_delete, http_post, notify_after, emit,
  IdSet, k_settings, k_profile, k_contacts, k_cursor, k_outbox, default_model,
}
use skrepka.App.Guards.{k_messages, or_empty}
use skrepka.App.Conversation.{contains}
use skrepka.App.Outbox.{and_then}
use skrepka.App.Latch.{NoWrites}

-- What storage holds under each key.
abbrev pub Disk : Type 0
Disk = Text → Option Bytes

abbrev pub put : Text → Option Bytes → Disk → Disk
put k v d j = if same_text k j then v else d j

-- Storage after a command, and after commands in their order. Every write succeeds.
abbrev pub perform : Cmd → Disk → Disk
perform (kv_set k v f) d = put k (some v) d
perform (kv_delete k f) d = put k none d
perform _ d = d

abbrev pub performed : List Cmd → Disk → Disk
performed [] d = d
performed (c ∷ cs) d = performed cs (perform c d)

pub performed-append :
    (cs ds : List Cmd) (d : Disk) → performed (cs ++ ds) d ≡ performed ds (performed cs d)
performed-append [] ds d = refl
performed-append (c ∷ cs) ds d = performed-append cs ds (perform c d)

-- What stands under a key reads as the value; an absent key as the value of a new model.
abbrev pub Holds : {A : Type 0} → Codec A → A → Option Bytes → A → Type 0
Holds codec blank none a = a ≡ blank
Holds codec blank (some bytes) a = codec.decode bytes ≡ some a

-- The parts of the model that storage is behind with, and the cursor that it has if that is another.
pub record Stale : Type 0 where
  pub settings : Bool
  pub profile : Bool
  pub contacts : Bool
  pub cursor : Option ℤ
  pub outbox : Bool
  pub talks : Text → Bool

abbrev pub clean : Stale
clean = record {
  settings = false;
  profile = false;
  contacts = false;
  cursor = none;
  outbox = false;
  talks = λ peer. false;
}

abbrev pub Unless : Bool → Type 0 → Type 0
Unless true P = Unit
Unless false P = P

abbrev pub cursor_in : Option ℤ → ℤ → ℤ
cursor_in none c = c
cursor_in (some old) c = old

-- Storage was readable, and holds the parts of the model that are not stale.
pub record Saved (env : Env) (d : Disk) (m : Model) (x : Stale) : Type 0 where
  pub readable : m.kv_load_failed ≡ false
  pub settings :
      Unless x.settings (Holds env.settings_json default_model.settings (d k_settings) m.settings)
  pub profile :
      Unless x.profile (Holds env.profile_json default_model.profile (d k_profile) m.profile)
  pub contacts :
      Unless x.contacts (Holds env.contacts_json [] (d k_contacts) (Map.values m.contacts))
  pub cursor : Holds env.cursor_json (pos 0) (d k_cursor) (cursor_in x.cursor m.cursor)
  pub outbox : Unless x.outbox (Holds env.outbox_json [] (d k_outbox) m.outbox)
  pub talks :
      (peer : Text)
      → Unless
          (x.talks peer)
          (Holds env.messages_json [] (d (k_messages peer)) (or_empty (Map.get peer m.messages)))

-- The codec reads back what it wrote.
pub record IsLossless {A : Type 0} (codec : Codec A) : Type 0 where
  pub decode-encode : (a : A) → codec.decode (codec.encode a) ≡ some a

-- What is asked of the libraries: serde_json reads back what it wrote of the types that a restart
-- reads, and a `HashSet` is iterated over all of its elements.
pub record KeepsData (env : Env) : Type 0 where
  pub settings : IsLossless env.settings_json
  pub profile : IsLossless env.profile_json
  pub contacts : IsLossless env.contacts_json
  pub cursor : IsLossless env.cursor_json
  pub outbox : IsLossless env.outbox_json
  pub messages : IsLossless env.messages_json
  pub hash_order :
      (set : IdSet) (id : Text) → contains id set ≡ true → contains id (env.hash_order set) ≡ true

-- Two models with the same parts in storage.
pub record SameParts (m n : Model) : Type 0 where
  pub kv_load_failed : n.kv_load_failed ≡ m.kv_load_failed
  pub settings : n.settings ≡ m.settings
  pub profile : n.profile ≡ m.profile
  pub contacts : n.contacts ≡ m.contacts
  pub cursor : n.cursor ≡ m.cursor
  pub outbox : n.outbox ≡ m.outbox
  pub messages : n.messages ≡ m.messages

pub SameParts-Saved :
    (env : Env) (d : Disk) (m n : Model) (x : Stale)
    → SameParts m n
    → Saved env d m x
    → Saved env d n x
SameParts-Saved env d m n x s h = record {
  readable = rw s.kv_load_failed h.readable;
  settings = rw s.settings h.settings;
  profile = rw s.profile h.profile;
  contacts = rw s.contacts h.contacts;
  cursor = rw s.cursor h.cursor;
  outbox = rw s.outbox h.outbox;
  talks = rw s.messages h.talks;
}

-- What has changed between two models is stale.
pub record Changes (x : Stale) (m n : Model) : Type 0 where
  pub kv_load_failed : n.kv_load_failed ≡ m.kv_load_failed
  pub settings : Unless x.settings (n.settings ≡ m.settings)
  pub profile : Unless x.profile (n.profile ≡ m.profile)
  pub contacts : Unless x.contacts (n.contacts ≡ m.contacts)
  pub cursor : cursor_in x.cursor n.cursor ≡ m.cursor
  pub outbox : Unless x.outbox (n.outbox ≡ m.outbox)
  pub talks :
      (p : Text)
      → Unless (x.talks p) (or_empty (Map.get p n.messages) ≡ or_empty (Map.get p m.messages))

Unless-rw :
    {A : Type 0} (b : Bool) (P : A → Type 0) (new old : A)
    → Unless b (new ≡ old)
    → P old
    → Unless b (P new)
Unless-rw true P new old e h = tt
Unless-rw false P new old e h = rw e h

pub Changes-Saved :
    (env : Env) (d : Disk) (m n : Model) (x : Stale)
    → Changes x m n
    → Saved env d m clean
    → Saved env d n x
Changes-Saved env d m n x c h = record {
  readable = rw c.kv_load_failed h.readable;
  settings =
      Unless-rw x.settings (λ s. Holds env.settings_json default_model.settings (d k_settings) s)
        n.settings m.settings c.settings h.settings;
  profile =
      Unless-rw x.profile (λ p. Holds env.profile_json default_model.profile (d k_profile) p)
        n.profile m.profile c.profile h.profile;
  contacts =
      Unless-rw x.contacts (λ cs. Holds env.contacts_json [] (d k_contacts) (Map.values cs))
        n.contacts m.contacts c.contacts h.contacts;
  cursor = rw c.cursor h.cursor;
  outbox =
      Unless-rw x.outbox (λ items. Holds env.outbox_json [] (d k_outbox) items) n.outbox m.outbox
        c.outbox h.outbox;
  talks = λ p.
      Unless-rw (x.talks p) (λ convo. Holds env.messages_json [] (d (k_messages p)) convo)
        (or_empty (Map.get p n.messages)) (or_empty (Map.get p m.messages)) (c.talks p) (h.talks p);
}

performed_quiet : (cs : List Cmd) (d : Disk) → NoWrites cs → performed cs d ≡ d
performed_quiet [] d q = refl
performed_quiet (kv_set k v f ∷ cs) d q = cc (q.0)
performed_quiet (kv_delete k f ∷ cs) d q = cc (q.0)
performed_quiet (render ∷ cs) d q = performed_quiet cs d q.1
performed_quiet (kv_get k f ∷ cs) d q = performed_quiet cs d q.1
performed_quiet (http_post url token body f ∷ cs) d q = performed_quiet cs d q.1
performed_quiet (notify_after ms e ∷ cs) d q = performed_quiet cs d q.1
performed_quiet (emit e ∷ cs) d q = performed_quiet cs d q.1

-- A step that goes on from another without writing.
pub after-Saved :
    (env : Env) (d : Disk) (before s : Step) (ds : List Cmd) (x : Stale)
    → s.1 ≡ before.1 ++ ds
    → NoWrites ds
    → SameParts before.0 s.0
    → Saved env (performed before.1 d) before.0 x
    → Saved env (performed s.1 d) s.0 x
after-Saved env d before s ds x e q same h =
    rw (e, performed-append before.1 ds d, performed_quiet ds (performed before.1 d) q)
      (SameParts-Saved env (performed before.1 d) before.0 s.0 x same h)

-- A step that writes nothing and leaves the parts as they are.
pub quiet-Saved :
    (env : Env) (d : Disk) (m : Model) (s : Step) (x : Stale)
    → NoWrites s.1
    → SameParts m s.0
    → Saved env d m x
    → Saved env (performed s.1 d) s.0 x
quiet-Saved env d m s x q same h = after-Saved env d (m, []) s s.1 x refl q same h

-- Storage may be said to be behind with more conversations than it is.
pub more_talks :
    (env : Env) (d : Disk) (m : Model) (x : Stale) (owes : Text → Bool)
    → ((p : Text) → owes p ≡ false → x.talks p ≡ false)
    → Saved env d m x
    → Saved env d m (record x { talks = owes })
more_talks env d m x owes more h = record {
  readable = h.readable;
  settings = h.settings;
  profile = h.profile;
  contacts = h.contacts;
  cursor = h.cursor;
  outbox = h.outbox;
  talks = λ p. elim (Bool-cases (owes p)) [
    | inl stale ↦ rw stale tt
    | inr kept ↦ rw kept (rw (more p kept) at (h.talks p))
  ];
}

-- Commands that come after commands.
pub and_then-Saved :
    (env : Env) (d : Disk) (s : Step) (f : Model → Step) (x y : Stale)
    → Saved env (performed s.1 d) s.0 x
    → ((e : Disk) (n : Model) → Saved env e n x → Saved env (performed (f n).1 e) (f n).0 y)
    → Saved env (performed (and_then s f).1 d) (and_then s f).0 y
and_then-Saved env d s f x y h k = rw (performed-append s.1 (f s.0).1 d) (k (performed s.1 d) s.0 h)
