-- ===== src/Api/Endings.antt =====
-- Calls of h9d/api.cc after which the daemon does not go on.
use h9d.Prelude.{ℕ, ◌≡◌, refl, arith, true, List, [], ◌∷◌, ◌++◌, some, none}
use h9d.Api.Types.{result, return_ok, Api, Env, Params, param}
use h9d.Api.Session.{subscribe, subscribe_to, is_attached, set_frame_observer}
use h9d.Api.Call.{execute, execute_found, call}

module _ {J : Type 0} (env : Env J) where
  is_attached-append : (o : ℕ) (os : List ℕ) → is_attached env (some o) (os ++ o ∷ []) ≡ true
  unfolding is_attached
  is_attached-append o [] = ground arith
  is_attached-append o (p ∷ os) = rw (is_attached-append o os) ground arith

  call-subscribe_attached :
      (t : Api) (ps : Params J)
      → t.client.authenticated ≡ true
      → param "event" env.lib.get_string ps ≡ some "frame"
      → is_attached env t.client.frame_observer t.frame_observers ≡ true
      → call env "subscribe" t ps ≡ none
  unfolding call execute_found execute subscribe subscribe_to set_frame_observer
  call-subscribe_attached t ps open_already frames attached =
      rw (open_already, frames, attached) refl

  -- A client that subscribes to the frames succeeds, and fails an `assert` of the daemon when it does
  -- so again, if it has no observer of frames before: the observer that it replaces is deleted while
  -- it is attached.
  pub calls-subscribe_twice :
      (s : Api) (ps : Params J)
      → s.client.authenticated ≡ true
      → param "event" env.lib.get_string ps ≡ some "frame"
      → s.client.frame_observer ≡ none
      → (t : Api) × (call env "subscribe" s ps ≡ some (result return_ok, t))
        × (t.frame_observers ≡ s.frame_observers ++ env.observer s ∷ [])
        × (call env "subscribe" t ps ≡ none)
  unfolding call execute_found execute subscribe subscribe_to set_frame_observer is_attached
  calls-subscribe_twice s ps open_already frames fresh = (
    record s {
      client = record s.client { frame_observer = some (env.observer s) };
      frame_observers = s.frame_observers ++ env.observer s ∷ [];
    },
    rw (open_already, frames, fresh) refl,
    refl,
    call-subscribe_attached _ ps open_already frames
        (is_attached-append (env.observer s) s.frame_observers),
  )
