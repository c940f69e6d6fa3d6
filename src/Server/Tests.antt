-- ===== src/Server/Tests.antt =====
-- The handler and the page loop on concrete webhooks, and the theorems at such inputs.
use tgpager.Base.{
  ◌≡◌, refl, ◌⊎◌, ◌↔◌, true, [], ◌∷◌, Option, some, Bytes, codes, pos, str_eq, cut_prefix, List,
  has_prefix, ◌≢◌, none,
}
use tgpager.Alertmanager.{WebhookPayload, validate, is_firing}
use tgpager.Server.{
  Server, CallRequest, Request, new, claim, contains, enqueue, authorized, handle_alertmanager,
  accept, dispatch, offer, duplicate, done, delete,
}
use tgpager.Server.Handler.{handle_cases, Paged, Refused, request_of}
use tgpager.Server.Interleaving.{
  World, start, begin, resume, receive, begins, resumes, receives, Reach, here, next,
}
use tgpager.Server.Invariant.{IsExclusive, reachable-IsExclusive}
use tgpager.Server.Refinement.{Refines, stage, idle, Step-Refines}
use tgpager.Server.Desk.{view}
use tgpager.Server.History.{
  Turn, webhook, received, finished, dequeue, serve, promised, serve-promised,
}

abbrev pub disk_full : WebhookPayload
disk_full = record {
  version = codes "4";
  group_key = codes "disk";
  status = codes "firing";
  receiver = codes "tgpager";
  group_labels = [];
  common_labels = (codes "alertname", codes "DiskFull") ∷ [];
  common_annotations = [];
  external_url = [];
  alerts = [];
  truncated_alerts = pos 0;
}

abbrev pub page : CallRequest
page = request_of disk_full

-- A decoder that reads one payload from every body that is not empty.
abbrev pub decode_one : Bytes → Option WebhookPayload
decode_one [] = none
decode_one (c ∷ s) = some disk_full

abbrev guarded : Server
guarded = record {
  token = codes "secret";
  capacity = 1;
  queue = [];
  inflight = [];
  webhooks = [];
  pages_queued = 0;
}

abbrev pub signed : Request
signed = record { authorization = codes "Bearer secret"; body = codes "{}" }

abbrev busy : Server
busy = record guarded { queue = page ∷ []; inflight = codes "disk" ∷ [] }

webhook_queues : (handle_alertmanager decode_one guarded signed).0.queue ≡ page ∷ []
unfolding handle_alertmanager authorized cut_prefix dispatch accept enqueue claim validate is_firing
    has_prefix contains str_eq offer
webhook_queues = refl

webhook_resent :
    handle_alertmanager decode_one busy signed ≡ (record busy { webhooks = duplicate ∷ [] }, 202)
unfolding handle_alertmanager authorized cut_prefix dispatch accept enqueue claim validate is_firing
    has_prefix contains str_eq
webhook_resent = refl

handle_cases_example : Paged decode_one guarded signed ⊎ Refused decode_one guarded signed
handle_cases_example = handle_cases decode_one guarded signed

-- The same alert twice, the first one queued and received.
abbrev twice : World
twice = begin page (receive page [] (resume page [] (begin page (start 2 []))))

twice_reached : Reach (start 2 []) twice
unfolding begin resume receive new claim contains offer str_eq
twice_reached =
    next
      (next (next (next here (begins _ page)) (resumes _ [] [] page refl))
        (receives _ page [] refl refl))
      (begins _ page)

twice-IsExclusive : IsExclusive twice
twice-IsExclusive = reachable-IsExclusive 2 [] twice_reached

reachable-IsExclusive_example : IsExclusive twice
reachable-IsExclusive_example = reachable-IsExclusive 2 [] twice_reached

Step-Refines_example :
    Refines twice (begin page twice)
    × ((k : Bytes)
        → (contains k (begin page twice).server.inflight ≡ true)
          ↔ (stage k (begin page twice) ≢ idle))
Step-Refines_example = Step-Refines twice-IsExclusive (begins twice page)

-- An alert twice, and again behind its page.
abbrev a_day : List Turn
a_day = webhook signed ∷ webhook signed ∷ received ∷ finished (codes "disk") ∷ webhook signed ∷ []

serve-a_day : (serve decode_one guarded a_day).0.queue ≡ page ∷ []
unfolding serve dequeue done delete handle_alertmanager authorized cut_prefix dispatch accept
    enqueue claim validate is_firing has_prefix contains str_eq offer
serve-a_day = refl

serve-promised_example :
    promised decode_one (view guarded) a_day
    ≡ (view (serve decode_one guarded a_day).0, (serve decode_one guarded a_day).1)
serve-promised_example = serve-promised decode_one guarded a_day

-- One page waits and is put in the queue.
abbrev one_waiting : World
one_waiting = record {
  server = record guarded { inflight = codes "disk" ∷ [] };
  pending = page ∷ [];
  current = none;
}
