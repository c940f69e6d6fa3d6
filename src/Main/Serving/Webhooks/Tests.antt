-- ===== src/Main/Serving/Webhooks/Tests.antt =====
-- One webhook, from the handler to the page.
use tgpager.Base.{ℕ, zero, suc, none, ◌≡◌, refl, ◌++◌, ◌∷◌, List, [], false, codes, str_eq, arith}
use tgpager.Alertmanager.{validate, is_firing}
use tgpager.Config.Modes.{voice_fallback, text_fallback}
use tgpager.Server.{
  CallRequest, contains, claim, offer, new, authorized, handle_alertmanager, dispatch, accept,
  enqueue,
}
use tgpager.Server.Handler.{Paged}
use tgpager.Server.Tests.{page, disk_full, decode_one, signed}
use tgpager.Server.Interleaving.{begin, resume, receive, finish}
use tgpager.Tgcall.Sample.{failures}
use tgpager.Main.{Parts, process_page}
use tgpager.Main.Tests.{parts}
use tgpager.Main.Serving.{
  Serving, get_ready, take_page, end_page, enter, proceed, connects, takes, ends_page, here, next,
}
use tgpager.Main.Serving.Tests.{errors, is_closed, Life, launched, page_queued}
use tgpager.Main.Serving.Webhooks.{answered, loop_deeds, webhook_is_paged}

abbrev ready : Serving failures errors
ready = get_ready failures errors page_queued

abbrev processed : Serving failures errors
processed = end_page failures errors page (take_page failures errors page [] ready)

queued : Paged decode_one launched.world.server signed
unfolding authorized validate is_firing contains new handle_alertmanager dispatch accept enqueue
    claim offer str_eq
queued = (disk_full, (refl, refl, refl, refl), refl, omega arith, refl)

processed_reached : Life page_queued processed
unfolding proceed enter get_ready resume begin contains claim offer new take_page receive
processed_reached =
    next (next (next here (connects page_queued refl refl)) (takes ready page [] refl refl refl))
      (ends_page (take_page failures errors page [] ready) page refl)

-- The first page cannot be called, later ones can.
abbrev each : ℕ → Parts failures
each zero = parts
each (suc n) = record parts { ring = λ s. none }

webhook_is_paged_example :
    ((answered failures errors page launched).world.server.queue
      ≡ (handle_alertmanager decode_one launched.world.server signed).0.queue)
    × ((answered failures errors page launched).world.server.inflight
        ≡ (handle_alertmanager decode_one launched.world.server signed).0.inflight)
    × (after : List CallRequest) × (processed.paged ≡ launched.queued ++ page ∷ after)
    × (loop_deeds failures each voice_fallback text_fallback 0 processed.paged
        ≡ loop_deeds failures each voice_fallback text_fallback 0 launched.queued
          ++ (process_page failures (each 0) voice_fallback text_fallback page
              ++ loop_deeds failures each voice_fallback text_fallback 1 after))
    × (contains (codes "disk") processed.world.server.inflight ≡ false)
unfolding queued enter end_page finish take_page receive get_ready proceed resume
webhook_is_paged_example =
    webhook_is_paged failures errors is_closed each voice_fallback text_fallback decode_one 1 []
      signed here refl queued processed_reached (refl, refl, refl)
