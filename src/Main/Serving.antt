-- ===== src/Main/Serving.antt =====
-- cmd/tgpager/main.go, the goroutines of `run` and what ends them. The group of goroutines is the record
-- `ErrGroup`, with what the documentation of golang.org/x/sync/errgroup promises; the HTTP server and the
-- Telegram client enter by what their calls return, and when.
pub mod Ends
pub mod Pages
pub mod Stops
pub mod Tests
pub mod Webhooks
use tgpager.Base.{
  Bool, true, false, ◌||◌, List, [], ◌∷◌, ◌++◌, Option, none, some, Bytes, codes, ◌≡◌, ℕ,
  if◌then◌else◌,
}
use tgpager.Server.{CallRequest, offer}
use tgpager.Server.Interleaving.{World, start, begin, resume, receive, finish}
use tgpager.Tgcall.Call.{is_failure}
use tgpager.Tgcall.Errors.{ErrorLib}

-- `errgroup.Group` with its context: a goroutine returns, or the context that it was made from ends.
-- `done` says whether the context of the group is done, `result` what `Wait` returns.
pub record ErrGroup (Error : Type 0) : Type 1 where
  pub State : Type 0
  pub begun : State
  pub returned : Option Error → State → State
  pub interrupted : State → State
  pub done : State → Bool
  pub result : State → Option Error
  pub begun_done : done begun ≡ false
  pub begun_result : result begun ≡ none
  pub returned_done : (e : Option Error) (s : State) → done (returned e s) ≡ is_failure e || done s
  -- The first error stays.
  pub returned_result :
      (e : Option Error) (s : State)
      → result (returned e s) ≡ elim (result s) [ some x ↦ some x | none ↦ e ]
  pub interrupted_done : (s : State) → done (interrupted s) ≡ true
  pub interrupted_result : (s : State) → result (interrupted s) ≡ result s

-- The page, if it was sent into the queue.
abbrev pub page_if : Bool → CallRequest → List CallRequest
page_if sent req = if sent then req ∷ [] else []

-- How a goroutine has returned, if it has.
abbrev pub ended_well : {E : Type 0} → Option (Option E) → Bool
ended_well none = false
ended_well (some none) = true
ended_well (some (some e)) = false

abbrev pub failed : {E : Type 0} → Option (Option E) → Bool
failed none = false
failed (some none) = false
failed (some (some e)) = true

module _ (lib : ErrorLib) where
  open lib use {Error, wrap}

  -- The first goroutine: a failed preflight is logged, and that is all.
  unfoldable pub warm_up : Option Error → Option Error
  warm_up none = none
  warm_up (some e) = none

  -- The second, for what `ListenAndServe` returns; the test is `errors.Is(err, http.ErrServerClosed)`.
  unfoldable pub serve_http : (Error → Bool) → Option Error → Option Error
  serve_http is_closed none = none
  serve_http is_closed (some e) = if is_closed e then none else some (wrap (codes "serve http") e)

  -- The third, for what `Shutdown` returns.
  unfoldable pub shut_down : Option Error → Option Error
  shut_down none = none
  shut_down (some e) = some (wrap (codes "shutdown http") e)

  module _ (g : ErrGroup Error) where
    -- `run` behind its start. A goroutine has no result while it runs. `closing` says that `Shutdown` was
    -- called, `looping` that the callback of the client runs, and `stopped` that the context of `run`
    -- has ended. `queued` and `paged` are the pages that entered the queue and that were processed.
    pub record Serving : Type 0 where
      pub group : g.State
      pub stopped : Bool
      pub warming : Option (Option Error)
      pub http : Option (Option Error)
      pub closing : Bool
      pub shutdown : Option (Option Error)
      pub client : Option (Option Error)
      pub looping : Bool
      pub world : World
      pub queued : List CallRequest
      pub paged : List CallRequest

    abbrev pub launch : ℕ → Bytes → Serving
    launch queue_size token = record {
      group = g.begun;
      stopped = false;
      warming = none;
      http = none;
      closing = false;
      shutdown = none;
      client = none;
      looping = false;
      world = start queue_size token;
      queued = [];
      paged = [];
    }

    unfoldable pub stop : Serving → Serving
    stop s = record s { group = g.interrupted s.group; stopped = true }

    unfoldable pub end_warming : Option Error → Serving → Serving
    unfolding warm_up
    end_warming e s = record s {
      group = g.returned (warm_up e) s.group;
      warming = some (warm_up e);
    }

    unfoldable pub end_http : (Error → Bool) → Option Error → Serving → Serving
    unfolding serve_http
    end_http is_closed e s = record s {
      group = g.returned (serve_http is_closed e) s.group;
      http = some (serve_http is_closed e);
    }

    unfoldable pub close : Serving → Serving
    close s = record s { closing = true }

    unfoldable pub end_shutdown : Option Error → Serving → Serving
    unfolding shut_down
    end_shutdown e s = record s {
      group = g.returned (shut_down e) s.group;
      shutdown = some (shut_down e);
    }

    -- "Telegram client ready".
    unfoldable pub get_ready : Serving → Serving
    get_ready s = record s { looping = true }

    -- The fourth goroutine returns what `callClient.Run` returns.
    unfoldable pub end_client : Option Error → Serving → Serving
    end_client e s = record s { group = g.returned e s.group; client = some e; looping = false }

    unfoldable pub enter : CallRequest → Serving → Serving
    enter req s = record s { world = begin req s.world }

    unfoldable pub proceed : CallRequest → List CallRequest → Serving → Serving
    proceed req others s = record s {
      world = resume req others s.world;
      queued = s.queued ++ page_if (offer req s.world.server).1 req;
    }

    unfoldable pub take_page : CallRequest → List CallRequest → Serving → Serving
    take_page req rest s = record s { world = receive req rest s.world }

    unfoldable pub end_page : CallRequest → Serving → Serving
    end_page req s = record s { world = finish req s.world; paged = s.paged ++ req ∷ [] }

    -- What may happen next. By its documentation `ListenAndServe` always returns an error, and
    -- `ErrServerClosed` only when the server is shut down; `Shutdown` returns no error only when no
    -- handler runs any more, and none starts after that.
    pub data Happens (is_closed : Error → Bool) : Serving → Serving → Type 0 where
      stops : (s : Serving) → s.stopped ≡ false → Happens is_closed s (stop s)
      warms :
          (s : Serving) (e : Option Error)
          → s.warming ≡ none
          → Happens is_closed s (end_warming e s)
      leaves_http :
          (s : Serving) (e : Error)
          → s.http ≡ none
          → (is_closed e ≡ true → s.closing ≡ true)
          → Happens is_closed s (end_http is_closed (some e) s)
      closes :
          (s : Serving) → g.done s.group ≡ true → s.closing ≡ false → Happens is_closed s (close s)
      shuts :
          (s : Serving) (e : Option Error)
          → s.closing ≡ true
          → s.shutdown ≡ none
          → (e ≡ none → s.world.pending ≡ [])
          → Happens is_closed s (end_shutdown e s)
      connects :
          (s : Serving) → s.client ≡ none → s.looping ≡ false → Happens is_closed s (get_ready s)
      -- `Run` fails before the client is ready.
      fails :
          (s : Serving) (e : Error)
          → s.client ≡ none
          → s.looping ≡ false
          → Happens is_closed s (end_client (some e) s)
      -- The callback sees its context done, between two pages: that of the group, or the client has lost
      -- its connection and returns an error.
      leaves_loop :
          (s : Serving) (e : Option Error)
          → s.looping ≡ true
          → s.world.current ≡ none
          → (e ≡ none → g.done s.group ≡ true)
          → Happens is_closed s (end_client e s)
      enters :
          (s : Serving) (req : CallRequest)
          → ended_well s.shutdown ≡ false
          → Happens is_closed s (enter req s)
      proceeds :
          (s : Serving) (xs ys : List CallRequest) (req : CallRequest)
          → s.world.pending ≡ xs ++ req ∷ ys
          → Happens is_closed s (proceed req (xs ++ ys) s)
      takes :
          (s : Serving) (req : CallRequest) (rest : List CallRequest)
          → s.looping ≡ true
          → s.world.server.queue ≡ req ∷ rest
          → s.world.current ≡ none
          → Happens is_closed s (take_page req rest s)
      ends_page :
          (s : Serving) (req : CallRequest)
          → s.world.current ≡ some req
          → Happens is_closed s (end_page req s)

    pub data Runs (is_closed : Error → Bool) (s : Serving) : Serving → Type 0 where
      here : Runs is_closed s s
      next : {t u : Serving} → Runs is_closed s t → Happens is_closed t u → Runs is_closed s u

    -- All goroutines have returned, and so does `Wait`.
    pub record IsOver (s : Serving) : Type 0 where
      pub warmed : is_failure s.warming ≡ true
      pub left_http : is_failure s.http ≡ true
      pub shut : is_failure s.shutdown ≡ true
      pub left_client : is_failure s.client ≡ true
