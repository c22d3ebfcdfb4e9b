-- ===== src/App/Startup.antt =====
-- The startup loads and the connection that follows them.
use skrepka.Base.{◌≡◌, Bool, true, false, List, [], ◌∷◌, ◌-◌}
use skrepka.App.State.{Model, Step, Cmd, connect, emit, http_post, notify_after}
use skrepka.App.Loads.{Load, value, absent, failed}
use skrepka.Base.{if◌then◌else◌, ◌==◌, ◌&&◌, not}

-- Whether a command reaches the relay or hands the core an event, now or later.
abbrev pub reaches : Cmd → Bool
reaches (emit e) = true
reaches (http_post url token body f) = true
reaches (notify_after ms e) = true
reaches _ = false

abbrev pub reaching : List Cmd → List Cmd
reaching [] = []
reaching (c ∷ cs) = if reaches c then c ∷ reaching cs else reaching cs

-- A connection is asked for if `go`, and nothing else is asked for.
abbrev pub Connects : Bool → Step → Type 0
Connects go s = reaching s.1 ≡ (if go then emit connect ∷ [] else [])

-- The outcome of one of the loads: the latch goes up on a `bad` read and on nothing else, one load
-- fewer is awaited, and the core asks for a connection just when it was the last one and the latch is
-- down, and for nothing else.
abbrev pub Counted : Bool → Model → Step → Type 0
Counted bad m s =
    (s.0.kv_load_failed ≡ (if bad then true else m.kv_load_failed))
    × (s.0.loads_pending ≡ m.loads_pending - 1)
    × Connects ((m.loads_pending == 1) && not s.0.kv_load_failed) s

abbrev pub is_failed : {A : Type 0} → Load A → Bool
is_failed (value a) = false
is_failed absent = false
is_failed failed = true
