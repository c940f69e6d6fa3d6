-- ===== src/Main/Serving/Webhooks.antt =====
-- From a webhook of internal/server/server.go to the deeds of the page loop in cmd/tgpager/main.go.
pub mod Tests
use tgpager.Base.{
  Bool, true, false, ◌||◌, List, [], ◌∷◌, ◌++◌, Option, none, some, Bytes, ◌≡◌, refl, ap, sym, ◌∙◌,
  ℕ, ◌+◌, ◌<◌, arith, inl, inr, ltb, lt→ltb, length, append-nil, append_assoc, take,
}
use mathlib.Core.Path.{subst}
use tgpager.Alertmanager.{WebhookPayload}
use tgpager.Config.Modes.{VoiceMode, TextMode}
use tgpager.Server.{
  CallRequest, Server, Request, claim, enqueue, offer, contains, handle_alertmanager,
}
use tgpager.Server.Handler.{Paged, Pages, request_of}
use tgpager.Server.Keys.{contains-count_zero}
use tgpager.Server.Invariant.{IsExclusive}
use tgpager.Server.Interleaving.{World, begin, resume}
use tgpager.Server.Measure.{AtRest}
use tgpager.Tgcall.Errors.{ErrorLib}
use tgpager.Main.{Deed, Parts, process_page}
use tgpager.Main.Serving.{
  ErrGroup, Serving, launch, ended_well, page_if, stop, end_warming, end_http, close, end_shutdown,
  get_ready, end_client, enter, proceed, take_page, end_page, Happens, stops, warms, leaves_http,
  closes, shuts, connects, fails, leaves_loop, enters, proceeds, takes, ends_page, Runs, here, next,
}
use tgpager.Main.Serving.Pages.{waiting, pages_in_order}

-- A handler that nothing interrupts does what the two steps of the interleaving do.
enqueue_steps :
    (w : World) (req : CallRequest)
    → contains req.group_key w.server.inflight ≡ false
    → resume req w.pending (begin req w) ≡ record w { server = (enqueue req w.server).0 }
unfolding resume begin enqueue claim
enqueue_steps w req fresh = simp (fresh) refl

offer_room :
    (req : CallRequest) (w : World)
    → contains req.group_key w.server.inflight ≡ false
    → length w.server.queue < w.server.capacity
    → (offer req (begin req w).server).1 ≡ true
unfolding offer begin claim
offer_room req w fresh room = simp (fresh, lt→ltb _ _ room) refl

enqueue_room :
    (req : CallRequest) (s : Server)
    → contains req.group_key s.inflight ≡ false
    → length s.queue < s.capacity
    → enqueue req s
      ≡ (record s { queue = s.queue ++ req ∷ []; inflight = req.group_key ∷ s.inflight }, true)
unfolding enqueue claim offer
enqueue_room req s fresh room = simp (fresh, lt→ltb _ _ room) refl

begin_pending :
    (req : CallRequest) (w : World)
    → contains req.group_key w.server.inflight ≡ false
    → (begin req w).pending ≡ req ∷ w.pending
unfolding begin claim
begin_pending req w fresh = simp (fresh) refl

middle :
    (xs ys zs ws : List CallRequest) (x : CallRequest)
    → ws ≡ ys ++ zs
    → ys ≡ xs ++ x ∷ []
    → ws ≡ xs ++ x ∷ zs
middle xs ys zs ws x e f = e ∙ ap (λ vs. vs ++ zs) f ∙ append_assoc xs (x ∷ []) zs

AtRest-waiting : (w : World) → AtRest w → waiting w ≡ []
AtRest-waiting w (p, q, c) = rw (c, waiting) q

-- Each page meets its own answers: `parts n` are those of the page behind `n` others.
module _ (lib : ErrorLib) (parts : ℕ → Parts lib) where
  -- What the page loop does with pages in turn, behind `n` others.
  unfoldable pub loop_deeds : VoiceMode → TextMode → ℕ → List CallRequest → List Deed
  loop_deeds mode text_mode n [] = []
  loop_deeds mode text_mode n (req ∷ reqs) =
      process_page lib (parts n) mode text_mode req ++ loop_deeds mode text_mode (n + 1) reqs

  loop_deeds-append :
      (mode : VoiceMode) (text_mode : TextMode) (n : ℕ) (xs ys : List CallRequest)
      → loop_deeds mode text_mode n (xs ++ ys)
        ≡ loop_deeds mode text_mode n xs ++ loop_deeds mode text_mode (n + length xs) ys
  unfolding loop_deeds
  loop_deeds-append mode text_mode n [] ys = ap (λ k. loop_deeds mode text_mode k ys) (omega arith)
  loop_deeds-append mode text_mode n (x ∷ xs) ys =
      ap (λ ds. process_page lib (parts n) mode text_mode x ++ ds)
        (loop_deeds-append mode text_mode (n + 1) xs ys)
      ∙ sym (append_assoc (process_page lib (parts n) mode text_mode x) _ _)
      ∙ ap (λ k. loop_deeds mode text_mode n (x ∷ xs) ++ loop_deeds mode text_mode k ys)
          (omega arith)

  loop_deeds_split :
      (mode : VoiceMode) (text_mode : TextMode) (xs ys : List CallRequest)
      → loop_deeds mode text_mode 0 (xs ++ ys)
        ≡ loop_deeds mode text_mode 0 xs ++ loop_deeds mode text_mode (length xs) ys
  loop_deeds_split mode text_mode xs ys =
      loop_deeds-append mode text_mode 0 xs ys
      ∙ ap (λ k. loop_deeds mode text_mode 0 xs ++ loop_deeds mode text_mode k ys) (omega arith)

module _ (lib : ErrorLib) (g : ErrGroup lib.Error) where
  -- A webhook whose page is queued, with nothing between its two steps.
  abbrev pub answered : CallRequest → Serving lib g → Serving lib g
  answered req s = proceed lib g req s.world.pending (enter lib g req s)

module _ (lib : ErrorLib) (g : ErrGroup lib.Error) (is_closed : lib.Error → Bool) where
  Happens-queued :
      {s t : Serving lib g}
      → Happens lib g is_closed s t
      → (later : List CallRequest) × (t.queued ≡ s.queued ++ later)
  unfolding stop end_warming end_http close end_shutdown get_ready end_client enter proceed
      take_page end_page
  Happens-queued (proceeds s xs ys req e) = (page_if (offer req s.world.server).1 req, refl)
  Happens-queued (stops s r) = ([], sym (append-nil s.queued))
  Happens-queued (warms s e w) = ([], sym (append-nil s.queued))
  Happens-queued (leaves_http s e w c) = ([], sym (append-nil s.queued))
  Happens-queued (closes s d c) = ([], sym (append-nil s.queued))
  Happens-queued (shuts s e c w p) = ([], sym (append-nil s.queued))
  Happens-queued (connects s c l) = ([], sym (append-nil s.queued))
  Happens-queued (fails s e c l) = ([], sym (append-nil s.queued))
  Happens-queued (leaves_loop s e l c d) = ([], sym (append-nil s.queued))
  Happens-queued (enters s req e) = ([], sym (append-nil s.queued))
  Happens-queued (takes s req rest l q c) = ([], sym (append-nil s.queued))
  Happens-queued (ends_page s req c) = ([], sym (append-nil s.queued))

  Runs-queued :
      {s t : Serving lib g}
      → Runs lib g is_closed s t
      → (later : List CallRequest) × (t.queued ≡ s.queued ++ later)
  Runs-queued {s} here = ([], sym (append-nil s.queued))
  Runs-queued {s} (next r h) =
      let (xs, e) = Runs-queued r in
      let (ys, f) = Happens-queued h in
      (xs ++ ys, f ∙ ap (λ qs. qs ++ ys) e ∙ append_assoc s.queued xs ys)

  Runs-trans :
      {s t u : Serving lib g}
      → Runs lib g is_closed s t
      → Runs lib g is_closed t u
      → Runs lib g is_closed s u
  Runs-trans r here = r
  Runs-trans r (next q h) = next (Runs-trans r q) h

  answered_reached :
      (req : CallRequest) (s : Serving lib g)
      → ended_well s.shutdown ≡ false
      → contains req.group_key s.world.server.inflight ≡ false
      → Runs lib g is_closed s (answered lib g req s)
  unfolding enter
  answered_reached req s up fresh =
      next (next here (enters s req up))
        (proceeds (enter lib g req s) [] s.world.pending req (begin_pending req s.world fresh))

  answered-queued :
      (req : CallRequest) (s : Serving lib g)
      → contains req.group_key s.world.server.inflight ≡ false
      → length s.world.server.queue < s.world.server.capacity
      → (answered lib g req s).queued ≡ s.queued ++ req ∷ []
  unfolding proceed enter
  answered-queued req s fresh room = simp (offer_room req s.world fresh room) refl

  settled :
      (k : Bytes) (w : World) → IsExclusive w → AtRest w → contains k w.server.inflight ≡ false
  settled k w v (p, q, c) =
      contains-count_zero k w.server.inflight (ground (arith, v.tracked k, p, q, c))

  -- What the handler does to the queue and to the in-flight map.
  answered-handle :
      (decode : Bytes → Option WebhookPayload) (s : Serving lib g) (r : Request)
      (h : Paged decode s.world.server r)
      → ((answered lib g (request_of h.0) s).world.server.queue
          ≡ (handle_alertmanager decode s.world.server r).0.queue)
        × ((answered lib g (request_of h.0) s).world.server.inflight
            ≡ (handle_alertmanager decode s.world.server r).0.inflight)
  unfolding proceed enter
  answered-handle decode s r (p, pages, fresh, room, handled) =
      let w = enqueue_steps s.world (request_of p) fresh in
      let e = enqueue_room (request_of p) s.world.server fresh room in
      (
        ap (λ (v : World). v.server.queue) w
            ∙ ap (λ x. x.0.queue) e
            ∙ sym (ap (λ x. x.0.queue) handled),
        ap (λ (v : World). v.server.inflight) w
            ∙ ap (λ x. x.0.inflight) e
            ∙ sym (ap (λ x. x.0.inflight) handled),
      )

  -- In a run that was started with no page, let the handler queue the page of a webhook, without an
  -- interruption between its two steps and before the shutdown of the server has succeeded. It does the
  -- same to the queue and to the in-flight map as the whole handler. And whatever happens after it, once
  -- no handler waits, no page is left in the queue and none is being processed, the page has been processed
  -- behind the pages before it: its deeds stand in the deeds of the loop, in which every page meets answers of
  -- its own. Its group is not in flight any more.
  pub webhook_is_paged :
      (parts : ℕ → Parts lib) (mode : VoiceMode) (text_mode : TextMode)
      (decode : Bytes → Option WebhookPayload) (n : ℕ) (token : Bytes) (r : Request)
      {s t : Serving lib g}
      → Runs lib g is_closed (launch lib g n token) s
      → ended_well s.shutdown ≡ false
      → (h : Paged decode s.world.server r)
      → Runs lib g is_closed (answered lib g (request_of h.0) s) t
      → AtRest t.world
      → ((answered lib g (request_of h.0) s).world.server.queue
          ≡ (handle_alertmanager decode s.world.server r).0.queue)
        × ((answered lib g (request_of h.0) s).world.server.inflight
            ≡ (handle_alertmanager decode s.world.server r).0.inflight)
        × (after : List CallRequest) × (t.paged ≡ s.queued ++ request_of h.0 ∷ after)
        × (loop_deeds lib parts mode text_mode 0 t.paged
            ≡ loop_deeds lib parts mode text_mode 0 s.queued
              ++ (process_page lib (parts (length s.queued)) mode text_mode (request_of h.0)
                  ++ loop_deeds lib parts mode text_mode (length s.queued + 1) after))
        × (contains (h.0).group_key t.world.server.inflight ≡ false)
  unfolding loop_deeds
  webhook_is_paged parts mode text_mode decode n token r {s} {t} started up h rest idle =
      let req = request_of h.0 in
      let (same_queue, same_keys) = answered-handle decode s r h in
      let (after, grown) = Runs-queued rest in
      let all = Runs-trans (Runs-trans started (answered_reached req s up h.2)) rest in
      let (order, exclusive, over) = pages_in_order lib g is_closed n token all in
      let done : t.queued ≡ t.paged =
        order ∙ ap (λ qs. t.paged ++ qs) (AtRest-waiting t.world idle) ∙ append-nil t.paged in
      let placed =
        sym done ∙ middle s.queued _ after t.queued req grown (answered-queued req s h.2 h.3) in
      (
        same_queue,
        same_keys,
        after,
        placed,
        ap (loop_deeds lib parts mode text_mode 0) placed
            ∙ loop_deeds_split lib parts mode text_mode s.queued (req ∷ after),
        settled (h.0).group_key t.world exclusive idle,
      )
