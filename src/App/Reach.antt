-- ===== src/App/Reach.antt =====
-- The models that the core comes to, from its start.
use skrepka.Base.{◌≡◌, refl, true}
use skrepka.App.State.{Model, Env, World, Event, default_model}
use skrepka.App.Update.{update}
use skrepka.App.Alignment.Queue.{IsAligned}
use skrepka.App.Alignment.Updates.{update-IsAligned, is_timely}
use skrepka.App.Tidy.Page.{IsTidy}
use skrepka.App.Tidy.Updates.{update-IsTidy, IsSound}

-- A model after any events, each in a world of its own. The stored outbox does not arrive during a
-- send, and the stored conversations are in order and within the cap.
pub data Reach (env : Env) : Model → Type 0 where
  start : Reach env default_model
  then :
      {m : Model} (w : World) (e : Event)
      → is_timely e m ≡ true
      → IsSound env e
      → Reach env m
      → Reach env (update env w e m).0

-- Every model that the core comes to has its batch in flight at the head of the outbox, and its
-- conversations and contacts in good order.
pub Reach-IsAligned : (env : Env) {m : Model} → Reach env m → IsAligned m × IsTidy m
Reach-IsAligned env start =
    (record { idle = λ h. refl; carried = tt }, record { talks = (tt, tt); people = (tt, tt) })
Reach-IsAligned env (then {m = m} w e timely sound before) =
    let (aligned, tidy) = Reach-IsAligned env before in
    (update-IsAligned env w e m timely aligned, update-IsTidy env w e m sound tidy)
