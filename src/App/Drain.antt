-- ===== src/App/Drain.antt =====
-- The send loop against a relay that takes every batch.
mod Rounds
use skrepka.Base.{
  ℕ, zero, suc, ◌≤◌, ◌≡◌, inl, inr, true, false, ◌&&◌, leb, ltb, [], arith, length, ok,
}
use skrepka.App.State.{Model, Env, World, send_result, start_flush, Response, Body}
use skrepka.App.Update.{update}
pub use Rounds.*

-- The shell and the relay for as long as a batch is on its way, for `n` answers at most; an
-- answer that `k` more may follow comes in the world `worlds k`.
unfoldable pub serve : Env → (ℕ → World) → Response → ℕ → Model → Model
serve env worlds resp zero m = m
serve env worlds resp (suc n) m = elim m.flushing [
  | true ↦ serve env worlds resp n (update env (worlds n) (send_result m.flush_gen (ok resp)) m).0
  | false ↦ m
]

serve_step :
    (env : Env) (worlds : ℕ → World) (resp : Response) (n : ℕ) (m : Model)
    → m.flushing ≡ true
    → serve env worlds resp (suc n) m
      ≡ serve env worlds resp n (update env (worlds n) (send_result m.flush_gen (ok resp)) m).0
unfolding serve
serve_step env worlds resp n m up = ground arith

serve_lem :
    (env : Env) (worlds : ℕ → World) (resp : Response)
    → ((body : Body) → env.buildable body ≡ true)
    → leb 200 resp.status && ltb resp.status 300 ≡ true
    → (n : ℕ) (m : Model) → IsReady env worlds m
    → IsServed m
    → length m.outbox ≤ n
    → (serve env worlds resp n m).outbox ≡ []
unfolding serve update
serve_lem env worlds resp builds taken zero m r s h = length-zero m.outbox h
serve_lem env worlds resp builds taken (suc n) m r (inr (rests, left)) h = rw rests left
serve_lem env worlds resp builds taken (suc n) m r (inl busy) h =
    let (ready, size, served) =
      accepted_serves env (worlds n) builds worlds m resp taken r (r.unpaused n) busy in
    rw (serve_step env worlds resp n m busy.1)
      (serve_lem env worlds resp builds taken n _ ready served (omega (arith, size)))

-- Against a relay that takes every batch, the outbox runs empty: from a model that is signed in,
-- has readable storage, no pause to wait for and no send under way, with requests that can be
-- built, a flush and then at most as many answers as there were messages leave it empty.
pub outbox_drains :
    (env : Env) (worlds : ℕ → World) (resp : Response) (m : Model)
    → ((body : Body) → env.buildable body ≡ true)
    → leb 200 resp.status && ltb resp.status 300 ≡ true
    → IsReady env worlds m
    → m.flushing ≡ false
    → (serve env worlds resp
        (length m.outbox)
        (update env (worlds (length m.outbox)) start_flush m).0).outbox
      ≡ []
unfolding update
outbox_drains env worlds resp m builds taken r idle =
    let (ready, size, served) =
      flush_next_serves env (worlds (length m.outbox)) builds worlds m r
        (r.unpaused (length m.outbox)) idle in
    serve_lem env worlds resp builds taken (length m.outbox) _ ready served size.0
