-- ===== src/App/Storage/Answers.antt =====
-- How the shell answers the reads of a startup, and what its answers about conversations bring.
use skrepka.Base.{
  ◌≡◌, refl, ap, ◌∙◌, ◌⊎◌, inl, inr, true, false, none, List, [], ◌∷◌, ◌++◌, arith, Bytes, Text, ok,
  same_text, same_text_refl, if◌then◌else◌, Bool-cases, Option,
}
use skrepka.Base.Map
use skrepka.Base.Map.{Map, get-insert}
use skrepka.Domain.{StoredMessage}
use skrepka.App.State.{
  Model, Step, Env, World, Event, Cmd, render, kv_get, kv_set, kv_delete, http_post, notify_after,
  emit, default_model, identity_loaded, loaded_messages,
}
use skrepka.App.Guards.{k_messages, or_empty}
use skrepka.App.Outbox.{and_then}
use skrepka.App.Conversation.{contains}
use skrepka.App.Loads.{load_conversations, on_loaded_messages, join_history}
use skrepka.App.Update.{update}
use skrepka.App.Storage.{Disk, Holds, SameParts}
use skrepka.App.Storage.Contacts.{Distinct}
use skrepka.App.Storage.Loads.{load_cases}

-- The answers of the shell to the reads among the commands, in their order.
abbrev pub reads : Disk → List Cmd → List Event
reads d [] = []
reads d (kv_get k f ∷ cs) = f (ok (d k)) ∷ reads d cs
reads d (render ∷ cs) = reads d cs
reads d (kv_set k v f ∷ cs) = reads d cs
reads d (kv_delete k f ∷ cs) = reads d cs
reads d (http_post url token body f ∷ cs) = reads d cs
reads d (notify_after ms e ∷ cs) = reads d cs
reads d (emit e ∷ cs) = reads d cs

-- Events one after another, with the commands of all.
abbrev pub run : Env → World → List Event → Model → Step
run env w [] m = (m, [])
run env w (e ∷ es) m = and_then (update env w e m) (run env w es)

-- A new core is given its key; the reads that it asks for are answered, and then those that these
-- answers ask for.
abbrev pub startup : Env → World → Bytes → Disk → Model
startup env w sk d =
    let asked = update env w (identity_loaded sk) default_model in
    let told = run env w (reads d asked.1) asked.0 in (run env w (reads d told.1) told.0).0

-- The answers about the conversations.
abbrev pub talk_events : Disk → List Text → List Event
talk_events d [] = []
talk_events d (peer ∷ peers) = loaded_messages peer (ok (d (k_messages peer))) ∷ talk_events d peers

pub reads-append : (d : Disk) (cs ds : List Cmd) → reads d (cs ++ ds) ≡ reads d cs ++ reads d ds
reads-append d [] ds = refl
reads-append d (kv_get k f ∷ cs) ds = ap (λ es. f (ok (d k)) ∷ es) (reads-append d cs ds)
reads-append d (render ∷ cs) ds = reads-append d cs ds
reads-append d (kv_set k v f ∷ cs) ds = reads-append d cs ds
reads-append d (kv_delete k f ∷ cs) ds = reads-append d cs ds
reads-append d (http_post url token body f ∷ cs) ds = reads-append d cs ds
reads-append d (notify_after ms e ∷ cs) ds = reads-append d cs ds
reads-append d (emit e ∷ cs) ds = reads-append d cs ds

-- The reads of the conversations, between commands that read nothing.
pub reads-load_conversations :
    (d : Disk) (peers : List Text) (cs : List Cmd)
    → reads d cs ≡ []
    → reads d (load_conversations peers ++ cs) ≡ talk_events d peers
unfolding load_conversations
reads-load_conversations d [] cs quiet = quiet
reads-load_conversations d (peer ∷ peers) cs quiet =
    ap (λ es. loaded_messages peer (ok (d (k_messages peer))) ∷ es)
      (reads-load_conversations d peers cs quiet)

module _ (env : Env) (w : World) where
  pub run_cons :
      (e : Event) (es : List Event) (a b c : Model) (cs ds : List Cmd)
      → update env w e a ≡ (b, cs)
      → run env w es b ≡ (c, ds)
      → run env w (e ∷ es) a ≡ (c, cs ++ ds)
  run_cons e es a b c cs ds p q = rw p (rw q refl)

  -- One conversation is read into a model that has none with the peer.
  on_loaded_messages-Holds :
      (peer : Text) (stored : Option Bytes) (convo : List StoredMessage) (m : Model)
      → Map.get peer m.messages ≡ none
      → Holds env.messages_json [] stored convo
      → let n = (on_loaded_messages env peer (ok stored) m).0 in
        SameParts m (record n { messages = m.messages })
        × ((n.messages ≡ Map.insert peer convo m.messages)
            ⊎ ((n.messages ≡ m.messages) × (convo ≡ [])))
  unfolding on_loaded_messages join_history
  on_loaded_messages-Holds peer stored convo m new h =
      elim (load_cases env.messages_json [] stored convo h) [
        | inl (gone, blank) ↦ (ground (arith, gone), inr (ground (arith, gone), blank))
        | inr read ↦ (ground (arith, read), inl (ground (arith, read, new)))
      ]

  -- What that leaves under each key.
  read_talk :
      (peer : Text) (convo : List StoredMessage) (a b : Map (List StoredMessage)) (p : Text)
      → Map.get peer a ≡ none
      → (b ≡ Map.insert peer convo a) ⊎ ((b ≡ a) × (convo ≡ []))
      → (or_empty (Map.get p b) ≡ (if same_text peer p then convo else or_empty (Map.get p a)))
        × (same_text peer p ≡ false → Map.get p b ≡ Map.get p a)
  read_talk peer convo a b p new (inl e) =
      rw (e, get-insert p peer convo a) (ground arith, λ other. rw other refl)
  read_talk peer convo a b p new (inr (e, blank)) =
      rw (e, blank)
        (
          elim (Bool-cases (same_text peer p)) [
            | inl mine ↦ let here : peer ≡ p = ground arith in rw (mine, ← here, new) refl
            | inr other ↦ rw other refl
          ],
          λ other. refl,
        )

  pub run_talks :
      (d : Disk) (talks : Map (List StoredMessage)) (peers : List Text) (a : Model)
      → Distinct peers
      → ((p : Text) → contains p peers ≡ true → Map.get p a.messages ≡ none)
      → ((p : Text) → Holds env.messages_json [] (d (k_messages p)) (or_empty (Map.get p talks)))
      → let n = (run env w (talk_events d peers) a).0 in
        SameParts a (record n { messages = a.messages })
        × ((p : Text)
            → contains p peers ≡ true
            → or_empty (Map.get p n.messages) ≡ or_empty (Map.get p talks))
        × ((p : Text)
            → contains p peers ≡ false
            → or_empty (Map.get p n.messages) ≡ or_empty (Map.get p a.messages))
  unfolding update contains
  run_talks d talks [] a each new h = (ground arith, λ p there. cc, λ p gone. refl)
  run_talks d talks (peer ∷ peers) a each new h =
      let b = (update env w (loaded_messages peer (ok (d (k_messages peer)))) a).0 in
      let absent = new peer (ground (arith, same_text_refl peer)) in
      let (same, change) =
        on_loaded_messages-Holds peer (d (k_messages peer)) (or_empty (Map.get peer talks)) a absent
          (h peer) in
      let one = λ (p : Text).
        read_talk peer (or_empty (Map.get peer talks)) a.messages b.messages p absent change in
      let still : (p : Text) → contains p peers ≡ true → Map.get p b.messages ≡ none = λ p there.
        elim (Bool-cases (same_text peer p)) [
          | inl mine ↦ let here : peer ≡ p = ground arith in cc (rw (← here) at there, each.0)
          | inr other ↦ (one p).1 other ∙ new p (ground (arith, other, there))
        ] in
      let (kept, there, elsewhere) = run_talks d talks peers b each.1 still h in
      (
        ground (arith, kept, same),
        λ p here. elim (Bool-cases (contains p peers)) [
          | inl behind ↦ there p behind
          | inr gone ↦
              let mine : same_text peer p ≡ true = ground (arith, here, gone) in
              let e : peer ≡ p = ground (arith, mine) in
              elsewhere p gone ∙ ((one p).0 ∙ rw (mine, e) refl)
        ],
        λ p gone.
            let other : same_text peer p ≡ false = ground (arith, gone) in
            let behind : contains p peers ≡ false = ground (arith, gone) in
            elsewhere p behind ∙ ((one p).0 ∙ rw other refl),
      )
