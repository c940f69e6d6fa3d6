-- ===== src/Server/History.antt =====
-- internal/server/server.go over a whole history: webhooks, pages that the loop of main.go receives, and pages that
-- it is done with, in any order, one after another.
use tgpager.Base.{ℕ, ◌≡◌, refl, ap, ◌∙◌, List, [], ◌∷◌, Option, Bytes, drop}
use tgpager.Alertmanager.{WebhookPayload}
use tgpager.Server.{Server, Request, done, handle_alertmanager}
use tgpager.Server.Desk.{Desk, view, answer, handle_alertmanager-answer}
use tgpager.Server.KeySet.{leave}

pub data Turn : Type 0 where
  webhook : Request → Turn
  received : Turn
  finished : Bytes → Turn

-- `<-srv.Queue()` takes the first page, and waits while there is none.
unfoldable pub dequeue : Server → Server
dequeue s = record s { queue = drop 1 s.queue }

-- The same on a desk.
unfoldable pub hand_over : Desk → Desk
hand_over d = record d { queue = drop 1 d.queue }

unfoldable pub release : Bytes → Desk → Desk
release k d = record d { inflight = leave k d.inflight }

module _ (decode : Bytes → Option WebhookPayload) where
  -- The server behind a history, and the statuses that it answered.
  unfoldable pub serve : Server → List Turn → Server × List ℕ
  serve s [] = (s, [])
  serve s (webhook r ∷ es) =
      let (s', status) = handle_alertmanager decode s r in
      let (end, statuses) = serve s' es in (end, status ∷ statuses)
  serve s (received ∷ es) = serve (dequeue s) es
  serve s (finished k ∷ es) = serve (done k s) es

  -- What the desk promises for it.
  unfoldable pub promised : Desk → List Turn → Desk × List ℕ
  promised d [] = (d, [])
  promised d (webhook r ∷ es) =
      let (d', status) = answer decode d r in
      let (end, statuses) = promised d' es in (end, status ∷ statuses)
  promised d (received ∷ es) = promised (hand_over d) es
  promised d (finished k ∷ es) = promised (release k d) es

  abbrev after_webhook : Desk × ℕ → List Turn → Desk × List ℕ
  after_webhook t es = ((promised t.0 es).0, t.1 ∷ (promised t.0 es).1)

  -- Over every history of webhooks, pages received from the queue and pages done, from every state, the server
  -- answers the statuses that the desk promises, and its state is then the desk's: the token, the room and the
  -- contents of the queue, the groups in flight as a set, and the counters.
  pub serve-promised :
      (s : Server) (es : List Turn) → promised (view s) es ≡ (view (serve s es).0, (serve s es).1)
  unfolding promised serve view dequeue hand_over release done leave
  serve-promised s [] = refl
  serve-promised s (received ∷ es) = serve-promised (dequeue s) es
  serve-promised s (finished k ∷ es) = serve-promised (done k s) es
  serve-promised s (webhook r ∷ es) =
      ap (λ t. after_webhook t es) (handle_alertmanager-answer decode s r)
      ∙ ap (λ (t : Desk × List ℕ). (t.0, (handle_alertmanager decode s r).1 ∷ t.1))
          (serve-promised (handle_alertmanager decode s r).0 es)
