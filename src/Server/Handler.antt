-- ===== src/Server/Handler.antt =====
-- One webhook at a time: what the handler answers, records and queues.
use tgpager.Base.{
  ℕ, ◌+◌, ◌≡◌, ◌↔◌, ◌⊎◌, inl, inr, true, false, [], ◌∷◌, ◌++◌, Option, none, some, Bytes,
  str_eq_iff, str_eq_refl, cut_prefix, cut_prefix_iff, length, take, ltb, if◌then◌else◌, arith,
  Bool-cases, Option-cases, ok, err, ◌≤◌, ◌<◌, ◌∙◌, Result-cases, dec_lt,
}
use tgpager.Alertmanager.{WebhookPayload, Invalid, validate, is_firing}
use tgpager.Server.{
  Server, Request, CallRequest, Verdict, unauthorized, malformed, invalid, not_firing, duplicate,
  queued, contains, authorized, bearer, claim, offer, enqueue, accept, dispatch,
  handle_alertmanager, max_body_size,
}
use tgpager.Server.Keys.{delete-cons}

-- A request is let through exactly when no token is configured or its `Authorization` header is
-- "Bearer " followed by the token.
pub authorized_iff :
    (s : Server) (r : Request)
    → (authorized s r ≡ true) ↔ ((s.token ≡ []) ⊎ (r.authorization ≡ bearer ++ s.token))
unfolding authorized
authorized_iff s r = (there, back)
  where
    accepted :
        (got : Bytes)
        → cut_prefix r.authorization bearer ≡ some got
        → authorized s r ≡ true
        → (s.token ≡ []) ⊎ (r.authorization ≡ bearer ++ s.token)
    accepted got e h = ground (
      arith,
      str_eq_iff s.token [],
      str_eq_iff got s.token,
      (cut_prefix_iff r.authorization bearer got).0 e,
    )

    there : authorized s r ≡ true → (s.token ≡ []) ⊎ (r.authorization ≡ bearer ++ s.token)
    there h = elim (Option-cases (cut_prefix r.authorization bearer)) [
      | inl missing ↦ inl ((str_eq_iff s.token []).0 (ground arith))
      | inr (got, e) ↦ accepted got e h
    ]

    back : (s.token ≡ []) ⊎ (r.authorization ≡ bearer ++ s.token) → authorized s r ≡ true
    back (inl e) = ground (arith, str_eq_iff s.token [])
    back (inr e) =
        rw ((cut_prefix_iff r.authorization bearer s.token).1 e)
          (ground (arith, str_eq_refl s.token))

-- `enqueue` in one equation: a group in flight is refused, a full channel refuses and leaves the server
-- as it was, and otherwise the page goes to the end of the queue and its group is in flight.
pub enqueue_lem :
    (req : CallRequest) (s : Server)
    → enqueue req s ≡ (
        if contains req.group_key s.inflight
        then (s, false)
        else if ltb (length s.queue) s.capacity
        then (record s { queue = s.queue ++ req ∷ []; inflight = req.group_key ∷ s.inflight }, true)
        else (s, false))
unfolding enqueue claim offer
enqueue_lem req s = elim (Bool-cases (contains req.group_key s.inflight)) [
  | inl e ↦ rw e
  | inr e ↦ ground (arith, delete-cons req.group_key s.inflight e)
]

-- The HTTP status that goes with each verdict.
abbrev pub status_of : Verdict → ℕ
status_of unauthorized = 401
status_of malformed = 400
status_of invalid = 400
status_of not_firing = 202
status_of duplicate = 202
status_of queued = 202

abbrev pub request_of : WebhookPayload → CallRequest
request_of p = record { group_key = p.group_key; payload = p }

module _ (decode : Bytes → Option WebhookPayload) (s : Server) (r : Request) where
  -- The decoder's answer to the part of the body that it may read.
  abbrev pub decoded : Option WebhookPayload
  decoded = decode (take max_body_size r.body)

  -- A firing alert that passed every check of the handler.
  abbrev pub Pages : WebhookPayload → Type 0
  Pages p =
      (authorized s r ≡ true) × (decoded ≡ some p) × (validate p ≡ ok tt) × (is_firing p ≡ true)

  -- The group is on its way already, or the channel is full.
  abbrev pub IsBlocked : Bytes → Type 0
  IsBlocked k = (contains k s.inflight ≡ true) ⊎ (s.capacity ≤ length s.queue)

  -- Why a webhook gets a verdict other than `queued`.
  abbrev pub Because : Verdict → Type 0
  Because unauthorized = authorized s r ≡ false
  Because malformed = (authorized s r ≡ true) × (decoded ≡ none)
  Because invalid =
      (p : WebhookPayload) × (e : Invalid) × (authorized s r ≡ true)
      × (decoded ≡ some p)
      × (validate p ≡ err e)
  Because not_firing =
      (p : WebhookPayload) × (authorized s r ≡ true)
      × (decoded ≡ some p)
      × (validate p ≡ ok tt)
      × (is_firing p ≡ false)
  Because duplicate = (p : WebhookPayload) × Pages p × IsBlocked p.group_key
  Because queued = ⊥

  -- The state after a webhook whose page is queued.
  abbrev pub with_page : WebhookPayload → Server
  with_page p = record s {
    queue = s.queue ++ request_of p ∷ [];
    inflight = p.group_key ∷ s.inflight;
    webhooks = queued ∷ s.webhooks;
    pages_queued = s.pages_queued + 1;
  }

  -- The state after any other webhook: the verdict is counted.
  abbrev pub with_verdict : Verdict → Server
  with_verdict v = record s { webhooks = v ∷ s.webhooks }

  -- A firing alert behind every check ends in `accept`.
  handle-accept :
      (p : WebhookPayload) → Pages p → handle_alertmanager decode s r ≡ accept (request_of p) s
  unfolding handle_alertmanager dispatch
  handle-accept p h = rw (h.0, h.1, dispatch, h.2) (rw h.3)

  accept_fresh :
      (p : WebhookPayload)
      → contains p.group_key s.inflight ≡ false
      → length s.queue < s.capacity
      → accept (request_of p) s ≡ (with_page p, 202)
  unfolding accept
  accept_fresh p fresh room = ground (arith, enqueue_lem (request_of p) s)

  accept_blocked :
      (p : WebhookPayload)
      → IsBlocked p.group_key
      → accept (request_of p) s ≡ (with_verdict duplicate, 202)
  unfolding accept
  accept_blocked p blocked = ground (arith, enqueue_lem (request_of p) s)

  abbrev pub Paged : Type 0
  Paged =
      (p : WebhookPayload) × Pages p
      × (contains p.group_key s.inflight ≡ false)
      × (length s.queue < s.capacity)
      × (handle_alertmanager decode s r ≡ (with_page p, 202))

  abbrev pub Refused : Type 0
  Refused =
      (v : Verdict) × Because v × (handle_alertmanager decode s r ≡ (with_verdict v, status_of v))

  firing_cases : (p : WebhookPayload) → Pages p → Paged ⊎ Refused
  firing_cases p h = elim (Bool-cases (contains p.group_key s.inflight)) [
    | inl known ↦
        inr (duplicate, (p, h, inl known), handle-accept p h ∙ accept_blocked p (inl known))
    | inr fresh ↦ elim (dec_lt (length s.queue) s.capacity) [
      | yes room ↦ inl (p, h, fresh, room, handle-accept p h ∙ accept_fresh p fresh room)
      | no full ↦
          let le : s.capacity ≤ length s.queue = omega arith in
          inr (duplicate, (p, h, inr le), handle-accept p h ∙ accept_blocked p (inr le))
    ]
  ]

  valid_cases :
      (p : WebhookPayload)
      → authorized s r ≡ true
      → decoded ≡ some p
      → validate p ≡ ok tt
      → Paged ⊎ Refused
  unfolding handle_alertmanager dispatch
  valid_cases p a d v = elim (Bool-cases (is_firing p)) [
    | inl f ↦ firing_cases p (a, d, v, f)
    | inr f ↦ inr (not_firing, (p, a, d, v, f), rw (a, d, dispatch, v) (rw f))
  ]

  decoded_cases : (p : WebhookPayload) → authorized s r ≡ true → decoded ≡ some p → Paged ⊎ Refused
  unfolding handle_alertmanager dispatch
  decoded_cases p a d = elim (Result-cases (validate p)) [
    | inl (u, v) ↦ valid_cases p a d v
    | inr (e, v) ↦ inr (invalid, (p, e, a, d, v), rw (a, d, dispatch, v))
  ]

  -- One webhook, on every branch: either a firing alert that passed every check, whose group is not in
  -- flight and for which the queue has room, is appended to the queue, entered in flight, counted and
  -- answered 202; or the webhook is refused for the reason that its verdict names, and then nothing
  -- but the counter of that verdict changes and the status is the verdict's.
  pub handle_cases : Paged ⊎ Refused
  unfolding handle_alertmanager dispatch
  handle_cases = elim (Bool-cases (authorized s r)) [
    | inr out ↦ inr (unauthorized, out, rw out)
    | inl a ↦ elim (Option-cases decoded) [
      | inl bad ↦ inr (malformed, (a, bad), rw (a, bad))
      | inr (p, d) ↦ decoded_cases p a d
    ]
  ]
