-- ===== src/Server/Desk.antt =====
-- What the handler of internal/server/server.go promises, with the in-flight map as a set.
use tgpager.Base.{
  ℕ, ◌+◌, ◌≡◌, ◌≤◌, ◌<◌, ◌⊎◌, inl, inr, ap, sym, ◌∙◌, Bool, true, false, not, ◌||◌, List, [], ◌∷◌,
  ◌++◌, Option, none, some, Bytes, str_eq, str_eq_iff, length, take, ok, err, leb, arith,
  if◌then◌else◌, Bool-cases,
}
use mathlib.Core.Quot
use tgpager.Alertmanager.{WebhookPayload, Invalid, validate, is_firing}
use tgpager.Server.{
  Server, CallRequest, Request, Verdict, unauthorized, malformed, invalid, not_firing, duplicate,
  queued, contains, authorized, bearer, handle_alertmanager, max_body_size,
}
use tgpager.Server.Handler.{handle_cases, Paged, Refused, request_of, status_of, authorized_iff}
use tgpager.Server.KeySet.{KeySet, member, with_key}

-- A server, but for the representation of its in-flight map.
pub record Desk : Type 0 where
  pub token : Bytes
  pub capacity : ℕ
  pub queue : List CallRequest
  pub inflight : KeySet
  pub webhooks : List Verdict
  pub pages_queued : ℕ

unfoldable pub view : Server → Desk
view s = record {
  token = s.token;
  capacity = s.capacity;
  queue = s.queue;
  inflight = Quot.mk s.inflight;
  webhooks = s.webhooks;
  pages_queued = s.pages_queued;
}

-- The bearer of the token, if there is one.
abbrev pub permits : Bytes → Request → Bool
permits token r = str_eq token [] || str_eq r.authorization (bearer ++ token)

-- What a firing alert with a valid payload gets.
unfoldable pub place : Desk → WebhookPayload → Verdict
place d p =
    if member p.group_key d.inflight || leb d.capacity (length d.queue) then duplicate else queued

unfoldable pub judge_payload : Desk → WebhookPayload → Verdict
judge_payload d p = elim (validate p) [
  | err e ↦ invalid
  | ok u ↦ if is_firing p then place d p else not_firing
]

-- The desk behind a verdict: it is counted, and a page that is queued is the last of the queue, its group
-- in flight.
abbrev pub noted : Verdict → Desk → Desk
noted v d = record d { webhooks = v ∷ d.webhooks }

abbrev pub is_queued : Verdict → Bool
is_queued queued = true
is_queued _ = false

abbrev pub entered : WebhookPayload → Desk → Desk
entered p d = record d {
  queue = d.queue ++ request_of p ∷ [];
  inflight = with_key p.group_key d.inflight;
  pages_queued = d.pages_queued + 1;
}

abbrev pub settle : WebhookPayload → Verdict → Desk → Desk × ℕ
settle p v d = (noted v (if is_queued v then entered p d else d), status_of v)

granted :
    (s : Server) (r : Request)
    → permits s.token r ≡ true
    → (s.token ≡ []) ⊎ (r.authorization ≡ bearer ++ s.token)
granted s r p = elim (Bool-cases (str_eq s.token [])) [
  | inl e ↦ inl ((str_eq_iff s.token []).0 e)
  | inr e ↦ inr ((str_eq_iff r.authorization (bearer ++ s.token)).0 (ground (arith, e, p)))
]

permits-authorized : (s : Server) (r : Request) → permits s.token r ≡ authorized s r
permits-authorized s r = elim (Bool-cases (authorized s r)) [
  | inl a ↦ elim ((authorized_iff s r).0 a) [
    | inl open' ↦ rw a (ground (arith, str_eq_iff s.token [], open'))
    | inr signed ↦ rw a (ground (arith, str_eq_iff r.authorization (bearer ++ s.token), signed))
  ]
  | inr a ↦ elim (Bool-cases (permits s.token r)) [
    | inr p ↦ p ∙ sym a
    | inl p ↦ absurd (ground (arith, a, (authorized_iff s r).1 (granted s r p)))
  ]
]

module _ (decode : Bytes → Option WebhookPayload) where
  -- One webhook.
  unfoldable pub answer : Desk → Request → Desk × ℕ
  answer d r =
      if not (permits d.token r)
      then (noted unauthorized d, status_of unauthorized)
      else elim (decode (take max_body_size r.body)) [
        | none ↦ (noted malformed d, status_of malformed)
        | some p ↦ settle p (judge_payload d p) d
      ]

  answer-malformed :
      (d : Desk) (r : Request)
      → permits d.token r ≡ true
      → decode (take max_body_size r.body) ≡ none
      → answer d r ≡ (noted malformed d, status_of malformed)
  unfolding answer
  answer-malformed d r a e = rw (a, e)

  answer-settle :
      (d : Desk) (r : Request) (p : WebhookPayload)
      → permits d.token r ≡ true
      → decode (take max_body_size r.body) ≡ some p
      → answer d r ≡ settle p (judge_payload d p) d
  unfolding answer
  answer-settle d r p a e = rw (a, e)

judge-invalid :
    (d : Desk) (p : WebhookPayload) (e : Invalid) → validate p ≡ err e → judge_payload d p ≡ invalid
unfolding judge_payload
judge-invalid d p e v = rw (v, judge_payload)

judge-not_firing :
    (d : Desk) (p : WebhookPayload)
    → validate p ≡ ok tt
    → is_firing p ≡ false
    → judge_payload d p ≡ not_firing
unfolding judge_payload
judge-not_firing d p v f = rw (v, judge_payload) (rw f)

judge-place :
    (d : Desk) (p : WebhookPayload)
    → validate p ≡ ok tt
    → is_firing p ≡ true
    → judge_payload d p ≡ place d p
unfolding judge_payload
judge-place d p v f = rw (v, judge_payload) (rw f)

place-duplicate :
    (s : Server) (p : WebhookPayload)
    → (contains p.group_key s.inflight ≡ true) ⊎ (s.capacity ≤ length s.queue)
    → place (view s) p ≡ duplicate
unfolding place view member
place-duplicate s p (inl e) = ground arith
place-duplicate s p (inr e) = ground arith

place-queued :
    (s : Server) (p : WebhookPayload)
    → contains p.group_key s.inflight ≡ false
    → length s.queue < s.capacity
    → place (view s) p ≡ queued
unfolding place view member
place-queued s p e f = ground arith

module _ (decode : Bytes → Option WebhookPayload) where
  abbrev Agrees : Server → Request → Type 0
  Agrees s r =
      answer decode (view s) r
      ≡ (view (handle_alertmanager decode s r).0, (handle_alertmanager decode s r).1)

  settled :
      (s : Server) (r : Request) (p : WebhookPayload) (v : Verdict)
      → authorized s r ≡ true
      → decode (take max_body_size r.body) ≡ some p
      → judge_payload (view s) p ≡ v
      → answer decode (view s) r ≡ settle p v (view s)
  unfolding view
  settled s r p v a d j =
      answer-settle decode (view s) r p (permits-authorized s r ∙ a) d
      ∙ ap (λ u. settle p u (view s)) j

  seen :
      (s : Server) (r : Request) (t : Server × ℕ)
      → answer decode (view s) r ≡ (view t.0, t.1)
      → handle_alertmanager decode s r ≡ t
      → Agrees s r
  seen s r t e f = e ∙ ap (λ (u : Server × ℕ). (view u.0, u.1)) (sym f)

  paged-Agrees : (s : Server) (r : Request) → Paged decode s r → Agrees s r
  unfolding view with_key
  paged-Agrees s r (p, (a, d, v, f), fresh, room, e) =
      seen s r _
        (settled s r p queued a d (judge-place (view s) p v f ∙ place-queued s p fresh room)) e

  refused-Agrees : (s : Server) (r : Request) → Refused decode s r → Agrees s r
  unfolding view answer
  refused-Agrees s r (unauthorized, b, e) = seen s r _ (rw (permits-authorized s r ∙ b)) e
  refused-Agrees s r (malformed, (a, d), e) =
      seen s r _ (answer-malformed decode (view s) r (permits-authorized s r ∙ a) d) e
  refused-Agrees s r (invalid, (p, x, a, d, v), e) =
      seen s r _ (settled s r p invalid a d (judge-invalid (view s) p x v)) e
  refused-Agrees s r (not_firing, (p, a, d, v, f), e) =
      seen s r _ (settled s r p not_firing a d (judge-not_firing (view s) p v f)) e
  refused-Agrees s r (duplicate, (p, (a, d, v, f), b), e) =
      seen s r _ (settled s r p duplicate a d (judge-place (view s) p v f ∙ place-duplicate s p b))
        e
  refused-Agrees s r (queued, b, e) = absurd b

  -- On one webhook the desk of a server answers what the server answers, and becomes the desk of the server
  -- behind it.
  pub handle_alertmanager-answer :
      (s : Server) (r : Request)
      → answer decode (view s) r
        ≡ (view (handle_alertmanager decode s r).0, (handle_alertmanager decode s r).1)
  handle_alertmanager-answer s r = elim (handle_cases decode s r) [
    | inl h ↦ paged-Agrees s r h
    | inr h ↦ refused-Agrees s r h
  ]
