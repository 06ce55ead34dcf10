-- ===== src/Api/Access.antt =====
-- Who may call the methods of h9d/api.cc.
use h9d.Prelude.{
  ◌≡◌, refl, sym, subst, inl, inr, Bool-cases, true, false, List, [], ◌∷◌, Option, some, none,
  String, map, if◌then◌else◌,
}
use text.Mathlib.TextEquality.{eq_iff}
use h9d.Node.Registers.{same_string}
use h9d.Api.Types.{Answer, refused, method_not_found, invalid_params, Api, Env, Params, param}
use h9d.Api.Session.{authenticate}
use h9d.Api.Call.{execute, execute_found, call, calls}

module _ {J : Type 0} (env : Env J) where
  -- The requests do not authenticate: a call of `authenticate` among them has no text as its entity.
  abbrev pub NoEntity : List (String × Params J) → Type 0
  NoEntity [] = Unit {0}
  NoEntity (r ∷ rs) =
      (same_string (r.0) "authenticate" ≡ true → param "entity" env.lib.get_string (r.1) ≡ none)
      × NoEntity rs

  -- The answer to a request of a client that is not authenticated.
  abbrev pub refusal : String × Params J → Answer J
  refusal r =
      refused (if same_string (r.0) "authenticate" then invalid_params else method_not_found)

  authenticate-refusal :
      (s : Api) (ps : Params J)
      → param "entity" env.lib.get_string ps ≡ none
      → call env "authenticate" s ps ≡ some (refusal ("authenticate", ps), s)
  unfolding call execute_found execute authenticate
  authenticate-refusal s ps missing = elim (Bool-cases s.client.authenticated) [
    | inl open_already ↦ rw (open_already, missing) refl
    | inr locked ↦ rw (locked, missing) refl
  ]

  call-refusal :
      (method : String) (ps : Params J) (s : Api)
      → s.client.authenticated ≡ false
      → (same_string method "authenticate" ≡ true → param "entity" env.lib.get_string ps ≡ none)
      → call env method s ps ≡ some (refusal (method, ps), s)
  unfolding call
  call-refusal method ps s locked missing = elim (Bool-cases (same_string method "authenticate")) [
    | inl is ↦
        subst (λ (m : String). call env m s ps ≡ some (refusal (m, ps), s))
          (sym ((eq_iff method "authenticate").0 is)) (authenticate-refusal s ps (missing is))
    | inr other ↦ rw (locked, other) refl
  ]

  -- A client that is not authenticated, and whose requests hold no call of `authenticate` with a
  -- text as its entity, has each of them refused: a call of `authenticate` for its parameters, and
  -- every other, of a method or of none, as if there were no such method. Nothing changes: neither
  -- the client, nor the bus, nor the nodes, nor the devices.
  pub calls-locked :
      (rs : List (String × Params J)) (s : Api)
      → s.client.authenticated ≡ false
      → NoEntity rs
      → calls env rs s ≡ some (map refusal rs, s)
  unfolding calls
  calls-locked [] s locked missing = refl
  calls-locked (r ∷ rs) s locked missing =
      rw (call-refusal (r.0) (r.1) s locked (missing.0), calls-locked rs s locked (missing.1)) refl

-- What is answered, if anything is, and the state that is left, satisfy `P`.
module _ {J : Type 0} where
  abbrev pub IfAnswered : (Answer J → Api → Type 0) → Option (Answer J × Api) → Type 0
  IfAnswered P none = Unit {0}
  IfAnswered P (some r) = P (r.0) (r.1)
