-- ===== src/Client/Batches.antt =====
-- A batch of requests in h9d/tcpclientthread.cc against its requests one by one.
use h9d.Prelude.{
  ◌≡◌, refl, ap, ◌∙◌, inl, inr, List, [], ◌∷◌, ◌++◌, Option, some, none, ◌>>=◌, Option-cases,
}
use h9d.Api.Types.{Api, Env}
use h9d.Client.Requests.{
  Request, Entity, request, no_request, entity, batch, received, Reply, response, error, Written,
  one, parse_error, many, Session, written_of, write_batch, answer_request, answer_batch,
  thread_recv_msg,
}

module _ {J : Type 0} where
  -- The requests of a batch, in order.
  abbrev pub requests : List (Entity J) → List (Request J)
  requests [] = []
  requests (no_request ∷ es) = requests es
  requests (request r ∷ es) = r ∷ requests es

  -- What is written of the replies one by one: the responses, without the errors.
  abbrev pub responses : List (Reply J) → List (Written J)
  responses [] = []
  responses (response id v ∷ rs) = one (response id v) ∷ responses rs
  responses (error id f ∷ rs) = responses rs

  responses-cons :
      (r : Reply J) (rs : List (Reply J)) → written_of r ++ responses rs ≡ responses (r ∷ rs)
  unfolding written_of
  responses-cons (response id v) rs = refl
  responses-cons (error id f) rs = refl

  -- The replies among what is written.
  abbrev pub replies_in : List (Written J) → List (Reply J)
  replies_in [] = []
  replies_in (one r ∷ ws) = r ∷ replies_in ws
  replies_in (parse_error ∷ ws) = replies_in ws
  replies_in (many rs ∷ ws) = replies_in ws

  -- The responses among these replies, and then all of the replies in one batch, if there are any.
  abbrev pub as_batch : List (Written J) → List (Written J)
  as_batch ws = responses (replies_in ws) ++ write_batch (replies_in ws)

  abbrev at_once :
      Session
      → List (Written J) × List (Reply J) × Api
      → List (Written J) × List (Reply J) × Session
  at_once s x = (x.0, x.1, record s { api = x.2 })

  abbrev apart : List (Written J) × Session → List (Written J) × List (Reply J) × Session
  apart p = (responses (replies_in p.0), replies_in (p.0), p.1)

  abbrev and_reply :
      Reply J
      → List (Written J) × List (Reply J) × Session
      → List (Written J) × List (Reply J) × Session
  and_reply r z = (written_of r ++ z.0, r ∷ z.1, z.2)

  at_once-cons :
      (s : Session) (r : Reply J) (o : Option (List (Written J) × List (Reply J) × Api))
      → ((o >>= (λ y. some (written_of r ++ y.0, r ∷ y.1, y.2))) >>= (λ x. some (at_once s x)))
        ≡ ((o >>= (λ x. some (at_once s x))) >>= (λ z. some (and_reply r z)))
  at_once-cons s r none = refl
  at_once-cons s r (some y) = refl

  apart-cons :
      (r : Reply J) (o : Option (List (Written J) × Session))
      → ((o >>= (λ p. some (apart p))) >>= (λ z. some (and_reply r z)))
        ≡ ((o >>= (λ q. some (one r ∷ q.0, q.1))) >>= (λ p. some (apart p)))
  apart-cons r none = refl
  apart-cons r (some q) = rw (responses-cons r (replies_in (q.0))) refl

  abbrev whole : List (Written J) × List (Reply J) × Session → Option (List (Written J) × Session)
  whole z = some (z.0 ++ write_batch (z.1), z.2)

  abbrev pub batched : List (Written J) × Session → Option (List (Written J) × Session)
  batched p = some (as_batch (p.0), p.1)

  split_batch :
      (s : Session) (o : Option (List (Written J) × List (Reply J) × Api))
      → (o >>= (λ x. whole (at_once s x))) ≡ ((o >>= (λ x. some (at_once s x))) >>= whole)
  split_batch s none = refl
  split_batch s (some x) = refl

  join_batch :
      (o : Option (List (Written J) × Session))
      → ((o >>= (λ p. some (apart p))) >>= whole) ≡ (o >>= batched)
  join_batch none = refl
  join_batch (some p) = refl

module _ {J : Type 0} (env : Env J) where
  -- Requests that are received one after another, and all that is written.
  unfoldable pub receive_each : List (Request J) → Session → Option (List (Written J) × Session)
  receive_each [] s = some ([], s)
  receive_each (r ∷ rs) s = do
    (written, t) ← thread_recv_msg env (received (entity (request r))) s
    (later, u) ← receive_each rs t
    some (written ++ later, u)

  answer_batch-receive_each :
      (es : List (Entity J)) (s : Session)
      → (answer_batch env es s.api >>= (λ x. some (at_once s x)))
        ≡ (receive_each (requests es) s >>= (λ p. some (apart p)))
  unfolding answer_batch receive_each thread_recv_msg
  answer_batch-receive_each [] s = refl
  answer_batch-receive_each (no_request ∷ es) s = answer_batch-receive_each es s
  answer_batch-receive_each (request r ∷ es) s = elim (Option-cases (answer_request env r s.api)) [
    | inl ends ↦ rw ends refl
    | inr (p, answered) ↦ rw answered (
        at_once-cons s (p.0) (answer_batch env es (p.1))
        ∙ (ap
              (λ (o : Option (List (Written J) × List (Reply J) × Session)).
                o >>= (λ z. some (and_reply (p.0) z)))
              (answer_batch-receive_each es (record s { api = p.1 }))
            ∙ apart-cons (p.0) (receive_each (requests es) (record s { api = p.1 }))))
  ]

  -- A batch is as its requests received one by one: the same calls in the same order, and the daemon
  -- ends for it if and only if it does for them. What is written are their responses, each alone but
  -- not their errors, and then, if there is any reply, all replies together.
  pub thread_recv_msg-receive_each :
      (es : List (Entity J)) (s : Session)
      → thread_recv_msg env (received (batch es)) s ≡ (receive_each (requests es) s >>= batched)
  unfolding thread_recv_msg
  thread_recv_msg-receive_each es s =
      split_batch s (answer_batch env es s.api)
      ∙ (ap (λ (o : Option (List (Written J) × List (Reply J) × Session)). o >>= whole)
            (answer_batch-receive_each es s)
          ∙ join_batch (receive_each (requests es) s))
