-- ===== src/Main/Serving/Stops.antt =====
-- When `run` of cmd/tgpager/main.go stops, and with which error.
use tgpager.Base.{Bool, true, false, ◌||◌, Option, none, some, Bytes, ◌≡◌, ℕ, arith}
use tgpager.Server.Interleaving.{begin, resume, receive, finish}
use tgpager.Tgcall.Call.{is_failure}
use tgpager.Tgcall.Errors.{ErrorLib}
use tgpager.Main.Serving.{
  ErrGroup, warm_up, serve_http, shut_down, ended_well, failed, Serving, launch, stop, end_warming,
  end_http, close, end_shutdown, get_ready, end_client, enter, proceed, take_page, end_page,
  Happens, stops, warms, leaves_http, closes, shuts, connects, fails, leaves_loop, enters, proceeds,
  takes, ends_page, Runs, here, next, IsOver,
}

module _ (lib : ErrorLib) (g : ErrGroup lib.Error) (is_closed : lib.Error → Bool) where
  -- A goroutine other than the preflight has failed.
  abbrev pub has_failed : Serving lib g → Bool
  has_failed s = failed s.http || failed s.shutdown || failed s.client

  pub record IsSound (s : Serving lib g) : Type 0 where
    pub context : g.done s.group ≡ s.stopped || has_failed s
    pub errors : is_failure (g.result s.group) ≡ has_failed s
    pub quiet_warming : failed s.warming ≡ false
    pub closed_late : s.closing ≡ true → g.done s.group ≡ true
    pub http_closed : ended_well s.http ≡ true → s.closing ≡ true
    pub shut_closed : is_failure s.shutdown ≡ true → s.closing ≡ true
    pub client_stopped : ended_well s.client ≡ true → g.done s.group ≡ true
    pub idle : s.looping ≡ false → s.world.current ≡ none
    pub gone : is_failure s.client ≡ true → s.looping ≡ false

  pub Happens-IsSound : {s t : Serving lib g} → Happens lib g is_closed s t → IsSound s → IsSound t
  unfolding stop end_warming end_http close end_shutdown get_ready end_client enter proceed
      take_page end_page begin resume receive finish
  Happens-IsSound (stops s r) v =
      ground (arith, g.interrupted_done s.group, g.interrupted_result s.group)
  Happens-IsSound (warms s e w) v =
      ground
        (arith, g.returned_done (warm_up lib e) s.group, g.returned_result (warm_up lib e) s.group)
  Happens-IsSound (leaves_http s e w c) v =
      let r = serve_http lib is_closed (some e) in
      ground (arith, g.returned_done r s.group, g.returned_result r s.group, c)
  Happens-IsSound (closes s d c) v = ground arith
  Happens-IsSound (shuts s e c w p) v =
      let r = shut_down lib e in
      ground (arith, g.returned_done r s.group, g.returned_result r s.group)
  Happens-IsSound (connects s c l) v = ground arith
  Happens-IsSound (fails s e c l) v =
      ground (arith, g.returned_done (some e) s.group, g.returned_result (some e) s.group)
  Happens-IsSound (leaves_loop s e l c d) v =
      ground (arith, g.returned_done e s.group, g.returned_result e s.group, d)
  Happens-IsSound (enters s req h) v = ground arith
  Happens-IsSound (proceeds s xs ys req e) v = ground arith
  Happens-IsSound (takes s req rest l q c) v = ground arith
  Happens-IsSound (ends_page s req c) v = ground arith

  launch-IsSound : (n : ℕ) (token : Bytes) → IsSound (launch lib g n token)
  launch-IsSound n token = ground (arith, g.begun_done, g.begun_result)

  pub Runs-IsSound : {s t : Serving lib g} → Runs lib g is_closed s t → IsSound s → IsSound t
  Runs-IsSound here v = v
  Runs-IsSound (next r h) v = Happens-IsSound h (Runs-IsSound r v)

  pub launched-IsSound :
      (n : ℕ) (token : Bytes) {s : Serving lib g}
      → Runs lib g is_closed (launch lib g n token) s
      → IsSound s
  launched-IsSound n token r = Runs-IsSound r (launch-IsSound n token)

  -- In a run that was started with no page, all goroutines of which have returned, `Wait` gives no error
  -- only if the context of `run` has ended, and the HTTP server, its shutdown and the client have all
  -- returned without an error.
  pub stops_when_asked :
      (n : ℕ) (token : Bytes) {s : Serving lib g}
      → Runs lib g is_closed (launch lib g n token) s
      → IsOver lib g s
      → g.result s.group ≡ none
      → (s.stopped ≡ true)
        × (s.http ≡ some none)
        × (s.shutdown ≡ some none)
        × (s.client ≡ some none)
  stops_when_asked n token r o e =
      let v = launched-IsSound n token r in ground (arith, v.context, v.errors)

  -- As long as the context of `run` has not ended, and the HTTP server, its shutdown and the client have
  -- not failed, the program serves, whatever the preflight ends with: the context of the goroutines is
  -- not done, the server is not being shut down, and neither it nor the client has returned.
  pub serves_on :
      (n : ℕ) (token : Bytes) {s : Serving lib g} (e : Option lib.Error)
      → Runs lib g is_closed (launch lib g n token) s
      → s.stopped ≡ false
      → has_failed s ≡ false
      → let t = end_warming lib g e s in
        (g.done t.group ≡ false) × (t.closing ≡ false) × (t.http ≡ none) × (t.client ≡ none)
  unfolding end_warming
  serves_on n token {s} e r h f =
      let v = launched-IsSound n token r in
      ground (
        arith,
        v.context,
        v.closed_late,
        v.http_closed,
        v.client_stopped,
        g.returned_done (warm_up lib e) s.group,
      )

  Happens-result :
      {s t : Serving lib g} (x : lib.Error)
      → Happens lib g is_closed s t
      → g.result s.group ≡ some x
      → g.result t.group ≡ some x
  unfolding stop end_warming end_http close end_shutdown get_ready end_client enter proceed
      take_page end_page
  Happens-result x (stops s r) h = ground (arith, g.interrupted_result s.group)
  Happens-result x (warms s e w) h = ground (arith, g.returned_result (warm_up lib e) s.group)
  Happens-result x (leaves_http s e w c) h =
      ground (arith, g.returned_result (serve_http lib is_closed (some e)) s.group)
  Happens-result x (shuts s e c w p) h = ground (arith, g.returned_result (shut_down lib e) s.group)
  Happens-result x (fails s e c l) h = ground (arith, g.returned_result (some e) s.group)
  Happens-result x (leaves_loop s e l c d) h = ground (arith, g.returned_result e s.group)
  Happens-result x _ h = h

  -- The first error stays what `Wait` returns.
  pub Runs-result :
      {s t : Serving lib g} (x : lib.Error)
      → Runs lib g is_closed s t
      → g.result s.group ≡ some x
      → g.result t.group ≡ some x
  Runs-result x here h = h
  Runs-result x (next r p) h = Happens-result x p (Runs-result x r h)
