-- ===== src/Main/Serving/Tests.antt =====
-- The goroutines of `run` in cmd/tgpager/main.go on a short life: a page is queued and taken, and the program
-- is stopped while it is processed.
use tgpager.Base.{
  ◌≡◌, refl, ◌⊎◌, ◌+◌, ◌*◌, ◌≤◌, Bool, true, false, ◌||◌, [], ◌∷◌, ◌++◌, Option, none, some, codes,
  length, str_eq,
}
use tgpager.Server.{contains, claim, offer, new}
use tgpager.Server.Interleaving.{begin, resume, receive, finish}
use tgpager.Server.Invariant.{IsExclusive}
use tgpager.Server.Measure.{occupied}
use tgpager.Server.Tests.{page}
use tgpager.Tgcall.Call.{is_failure}
use tgpager.Tgcall.Sample.{Failure, made, wrapped, rpc, flood, failures}
use tgpager.Main.Serving.{
  ErrGroup, Serving, launch, stop, end_warming, end_http, close, end_shutdown, get_ready,
  end_client, enter, proceed, take_page, end_page, stops, warms, leaves_http, closes, shuts,
  connects, leaves_loop, enters, proceeds, takes, ends_page, Runs, here, next, IsOver,
}
use tgpager.Main.Serving.Stops.{stops_when_asked, serves_on}
use tgpager.Main.Serving.Pages.{waiting, pages_in_order}
use tgpager.Main.Serving.Ends.{GoesOn, still, winds, is_new, shutdown_ends}

-- The group keeps whether its context is done, and the first error.
abbrev pub first_of : {E : Type 0} → Option E → Option E → Option E
first_of none e = e
first_of (some x) e = some x

pub first_of_lem :
    {E : Type 0} (o e : Option E) → first_of o e ≡ elim o [ some x ↦ some x | none ↦ e ]
first_of_lem none e = refl
first_of_lem (some x) e = refl

abbrev pub errors : ErrGroup failures.Error
errors = record {
  State = Bool × Option failures.Error;
  begun = (false, none);
  returned = λ e s. (is_failure e || s.0, first_of s.1 e);
  interrupted = λ s. (true, s.1);
  done = λ s. s.0;
  result = λ s. s.1;
  begun_done = refl;
  begun_result = refl;
  returned_done = λ e s. refl;
  returned_result = λ e s. first_of_lem s.1 e;
  interrupted_done = λ s. refl;
  interrupted_result = λ s. refl;
}

abbrev pub closed_error : Failure
closed_error = made (codes "http: Server closed")

abbrev pub is_closed : Failure → Bool
is_closed (made m) = str_eq m (codes "http: Server closed")
is_closed (wrapped m e) = is_closed e
is_closed (rpc t) = false
is_closed (flood d) = false

abbrev pub Life : Serving failures errors → Serving failures errors → Type 0
Life = Runs failures errors is_closed

-- A page is queued while the preflight fails; the client takes it, and the program is stopped.
abbrev pub launched : Serving failures errors
launched = launch failures errors 1 []

abbrev pub page_queued : Serving failures errors
page_queued = proceed failures errors page [] (enter failures errors page launched)

abbrev page_taken : Serving failures errors
page_taken =
    take_page failures errors page []
      (get_ready failures errors (end_warming failures errors (some closed_error) page_queued))

abbrev stopping : Serving failures errors
stopping = stop failures errors page_taken

-- The server closes, the page is processed, and the client returns.
abbrev server_closed : Serving failures errors
server_closed =
    end_shutdown failures errors none
      (end_http failures errors is_closed (some closed_error) (close failures errors stopping))

abbrev stopped : Serving failures errors
stopped = end_client failures errors none (end_page failures errors page server_closed)

pub page_queued_reached : Life launched page_queued
unfolding proceed enter begin claim contains new
page_queued_reached =
    next (next here (enters launched page refl))
      (proceeds (enter failures errors page launched) [] [] page refl)

page_taken_reached : Life launched page_taken
unfolding proceed enter begin claim contains new get_ready end_warming resume offer
page_taken_reached =
    next
      (next (next page_queued_reached (warms page_queued (some closed_error) refl))
        (connects (end_warming failures errors (some closed_error) page_queued) refl refl))
      (takes _ page [] refl refl refl)

stopping_reached : Life launched stopping
unfolding proceed enter begin claim contains new get_ready end_warming resume offer take_page
stopping_reached = next page_taken_reached (stops page_taken refl)

server_closed_reached : Life launched server_closed
unfolding proceed enter begin claim contains new get_ready end_warming resume offer take_page stop
    close end_http receive str_eq
server_closed_reached =
    next
      (next (next stopping_reached (closes stopping refl refl))
        (leaves_http (close failures errors stopping) closed_error refl (λ e. refl)))
      (shuts _ none refl refl (λ e. refl))

stopped_reached : Life launched stopped
unfolding proceed enter begin claim contains new get_ready end_warming resume offer take_page stop
    close end_http receive str_eq end_shutdown end_page finish
stopped_reached =
    next (next server_closed_reached (ends_page server_closed page refl))
      (leaves_loop (end_page failures errors page server_closed) none refl refl (λ e. refl))

stopped-IsOver : IsOver failures errors stopped
unfolding proceed enter begin claim contains new get_ready end_warming resume offer take_page stop
    close end_http receive str_eq end_shutdown end_page finish end_client
stopped-IsOver = record { warmed = refl; left_http = refl; shut = refl; left_client = refl }

one_page_is_processed : (stopped.paged ≡ page ∷ []) × (stopped.world.server.queue ≡ [])
unfolding proceed enter begin claim contains new get_ready end_warming resume offer take_page stop
    close end_http receive str_eq end_shutdown end_page finish end_client
one_page_is_processed = (refl, refl)

stops_when_asked_example :
    (stopped.stopped ≡ true)
    × (stopped.http ≡ some none)
    × (stopped.shutdown ≡ some none)
    × (stopped.client ≡ some none)
unfolding proceed enter begin claim contains new get_ready end_warming resume offer take_page stop
    close end_http receive str_eq end_shutdown end_page finish end_client
stops_when_asked_example =
    stops_when_asked failures errors is_closed 1 [] stopped_reached stopped-IsOver refl

pages_in_order_example :
    (stopped.queued ≡ stopped.paged ++ waiting stopped.world)
    × IsExclusive stopped.world
    × (IsOver failures errors stopped
        → stopped.queued ≡ stopped.paged ++ stopped.world.server.queue)
pages_in_order_example = pages_in_order failures errors is_closed 1 [] stopped_reached

serves_on_example :
    let t = end_warming failures errors (some closed_error) page_queued in
    (t.group.0 ≡ false) × (t.closing ≡ false) × (t.http ≡ none) × (t.client ≡ none)
unfolding proceed enter
serves_on_example =
    serves_on failures errors is_closed 1 [] (some closed_error) page_queued_reached refl refl

shutdown_ends_example :
    (1
      ≤ 7
        + (3 * length stopping.world.pending
            + 2 * length stopping.world.server.queue
            + occupied stopping.world.current))
    × (IsOver failures errors (close failures errors stopping)
        ⊎ GoesOn failures errors is_closed (close failures errors stopping))
unfolding is_new stop str_eq take_page get_ready end_warming proceed enter
shutdown_ends_example =
    shutdown_ends failures errors is_closed closed_error refl 1 [] 1 stopping_reached refl
      (winds (still stopping) (closes stopping refl refl) refl)
