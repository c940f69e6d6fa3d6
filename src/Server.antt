-- ===== src/Server.antt =====
-- internal/server/server.go and metrics.go: the webhook handler, the page queue and the in-flight set.
pub mod Keys
pub mod KeySet
pub mod Desk
pub mod History
pub mod Handler
pub mod Interleaving
pub mod Invariant
pub mod Drain
pub mod Refinement
pub mod Measure
pub mod Metrics
pub mod Tests
use tgpager.Base.{
  ℕ, ◌+◌, Bool, true, false, List, [], ◌∷◌, ◌++◌, Option, none, some, Bytes, codes, str_eq,
  cut_prefix, length, take, drop, Result, ok, err, ltb, if◌then◌else◌,
}
use tgpager.Alertmanager.{WebhookPayload, validate, is_firing}

pub record CallRequest : Type 0 where
  pub group_key : Bytes
  pub payload : WebhookPayload

-- The value of the `result` attribute of `tgpager.webhooks.received`.
pub data Verdict : Type 0 where
  unauthorized malformed invalid not_firing duplicate queued : Verdict

-- `Server`: the buffered channel is a list with a capacity, the in-flight map a list of its keys. The
-- counters are the verdicts added so far, newest first, and how often a page was queued.
pub record Server : Type 0 where
  pub token : Bytes
  pub capacity : ℕ
  pub queue : List CallRequest
  pub inflight : List Bytes
  pub webhooks : List Verdict
  pub pages_queued : ℕ

-- What the handler reads of a request: the `Authorization` header ("" if absent) and the body.
pub record Request : Type 0 where
  pub authorization : Bytes
  pub body : Bytes

abbrev pub max_body_size : ℕ
max_body_size = 1048576

abbrev pub status_accepted : ℕ
status_accepted = 202

abbrev pub status_bad_request : ℕ
status_bad_request = 400

abbrev pub status_unauthorized : ℕ
status_unauthorized = 401

-- `New` with `WithToken`: no page waits and none is in flight.
unfoldable pub new : ℕ → Bytes → Server
new queue_size token = record {
  token = token;
  capacity = queue_size;
  queue = [];
  inflight = [];
  webhooks = [];
  pages_queued = 0;
}

-- `_, ok := s.inflight[key]`.
unfoldable pub contains : Bytes → List Bytes → Bool
contains k [] = false
contains k (j ∷ js) = if str_eq j k then true else contains k js

-- `delete(s.inflight, key)`.
unfoldable pub delete : Bytes → List Bytes → List Bytes
delete k [] = []
delete k (j ∷ js) = let rest = delete k js in if str_eq j k then rest else j ∷ rest

-- `Done`.
unfoldable pub done : Bytes → Server → Server
done k s = record s { inflight = delete k s.inflight }

abbrev pub bearer : Bytes
bearer = codes "Bearer "

unfoldable pub authorized : Server → Request → Bool
authorized s r =
    if str_eq s.token []
    then true
    else elim (cut_prefix r.authorization bearer) [ none ↦ false | some got ↦ str_eq got s.token ]

-- The locked part of `enqueue`: false if the group is in flight, and else the group is entered.
unfoldable pub claim : CallRequest → Server → Server × Bool
claim req s =
    if contains req.group_key s.inflight
    then (s, false)
    else (record s { inflight = req.group_key ∷ s.inflight }, true)

-- The `select` of `enqueue`: sends if the channel has room, and else gives the group up.
unfoldable pub offer : CallRequest → Server → Server × Bool
unfolding done
offer req s =
    if ltb (length s.queue) s.capacity
    then (record s { queue = s.queue ++ req ∷ [] }, true)
    else (done req.group_key s, false)

unfoldable pub enqueue : CallRequest → Server → Server × Bool
enqueue req s = let (s', fresh) = claim req s in if fresh then offer req s' else (s', false)

-- `s.metrics.webhooks.Add(…)`.
abbrev pub count_webhook : Verdict → Server → Server
count_webhook v s = record s { webhooks = v ∷ s.webhooks }

-- The end of `handleAlertmanager`, from `enqueue` on.
unfoldable pub accept : CallRequest → Server → Server × ℕ
accept req s =
    let (s', sent) = enqueue req s in
    if sent
    then (
      record s' { webhooks = queued ∷ s'.webhooks; pages_queued = s'.pages_queued + 1 },
      status_accepted,
    )
    else (count_webhook duplicate s', status_accepted)

-- `handleAlertmanager` behind the authorisation, for the decoded payload or a decoding error.
unfoldable pub dispatch : Option WebhookPayload → Server → Server × ℕ
dispatch none s = (count_webhook malformed s, status_bad_request)
dispatch (some p) s = elim (validate p) [
  | err e ↦ (count_webhook invalid s, status_bad_request)
  | ok u ↦
      if is_firing p
      then accept (record { group_key = p.group_key; payload = p }) s
      else (count_webhook not_firing s, status_accepted)
]

-- `handleAlertmanager`: the new state and the HTTP status. `decode` stands for the JSON decoder:
-- `http.MaxBytesReader` ends the body with an error at the limit, so the decoder sees at most that
-- many bytes, and fails where it needs more.
module _ (decode : Bytes → Option WebhookPayload) where
  unfoldable pub handle_alertmanager : Server → Request → Server × ℕ
  handle_alertmanager s r =
      if authorized s r
      then dispatch (decode (take max_body_size r.body)) s
      else (count_webhook unauthorized s, status_unauthorized)
