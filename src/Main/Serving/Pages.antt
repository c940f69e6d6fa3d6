-- ===== src/Main/Serving/Pages.antt =====
-- The pages of the loop of `run` in cmd/tgpager/main.go, from the queue on.
use tgpager.Base.{
  Bool, List, [], ◌∷◌, ◌++◌, none, some, Bytes, ◌≡◌, refl, ap, sym, ◌∙◌, ℕ, arith, append-nil,
  append_assoc,
}
use tgpager.Server.{CallRequest, offer, new}
use tgpager.Server.Interleaving.{
  World, Step, begins, resumes, receives, finishes, Reach, resume, receive, finish, begin,
}
use tgpager.Server.Interleaving
use tgpager.Server.Invariant.{IsExclusive, reachable-IsExclusive}
use tgpager.Tgcall.Errors.{ErrorLib}
use tgpager.Main.Serving.{
  ErrGroup, Serving, launch, stop, end_warming, page_if, end_http, close, end_shutdown, get_ready,
  end_client, enter, proceed, take_page, end_page, Happens, stops, warms, leaves_http, closes,
  shuts, connects, fails, leaves_loop, enters, proceeds, takes, ends_page, Runs, here, next, IsOver,
}
use tgpager.Main.Serving.Stops.{launched-IsSound}

-- The pages that were taken off the queue last, or are still in it.
abbrev pub waiting : World → List CallRequest
waiting w = elim w.current [ none ↦ w.server.queue | some req ↦ req ∷ w.server.queue ]

resume-waiting :
    (w : World) (req : CallRequest) (others : List CallRequest)
    → waiting (resume req others w) ≡ waiting w ++ page_if (offer req w.server).1 req
unfolding resume offer
resume-waiting w req others = ground (arith, append-nil w.server.queue)

idle_waiting : (w : World) → w.current ≡ none → waiting w ≡ w.server.queue
idle_waiting w e = rw (e, waiting)

module _ (lib : ErrorLib) (g : ErrGroup lib.Error) (is_closed : lib.Error → Bool) where
  -- Every happening leaves the webhooks and the page loop alone, or is a step of theirs.
  Happens-Reach :
      {a : World} {s t : Serving lib g}
      → Happens lib g is_closed s t
      → Reach a s.world
      → Reach a t.world
  unfolding stop end_warming end_http close end_shutdown get_ready end_client enter proceed
      take_page end_page
  Happens-Reach (stops s r) h = h
  Happens-Reach (warms s e w) h = h
  Happens-Reach (leaves_http s e w c) h = h
  Happens-Reach (closes s d c) h = h
  Happens-Reach (shuts s e c w p) h = h
  Happens-Reach (connects s c l) h = h
  Happens-Reach (fails s e c l) h = h
  Happens-Reach (leaves_loop s e l c d) h = h
  Happens-Reach (enters s req e) h = Interleaving.next h (begins s.world req)
  Happens-Reach (proceeds s xs ys req e) h = Interleaving.next h (resumes s.world xs ys req e)
  Happens-Reach (takes s req rest l q c) h = Interleaving.next h (receives s.world req rest q c)
  Happens-Reach (ends_page s req c) h = Interleaving.next h (finishes s.world req c)

  Runs-Reach :
      {a : World} {s t : Serving lib g}
      → Runs lib g is_closed s t
      → Reach a s.world
      → Reach a t.world
  Runs-Reach here h = h
  Runs-Reach (next r p) h = Happens-Reach p (Runs-Reach r h)

  abbrev pub IsInOrder : Serving lib g → Type 0
  IsInOrder s = s.queued ≡ s.paged ++ waiting s.world

  Happens-IsInOrder :
      {s t : Serving lib g} → Happens lib g is_closed s t → IsInOrder s → IsInOrder t
  unfolding stop end_warming end_http close end_shutdown get_ready end_client enter proceed
      take_page end_page begin receive finish
  Happens-IsInOrder (stops s r) h = h
  Happens-IsInOrder (warms s e w) h = h
  Happens-IsInOrder (leaves_http s e w c) h = h
  Happens-IsInOrder (closes s d c) h = h
  Happens-IsInOrder (shuts s e c w p) h = h
  Happens-IsInOrder (connects s c l) h = h
  Happens-IsInOrder (fails s e c l) h = h
  Happens-IsInOrder (leaves_loop s e l c d) h = h
  Happens-IsInOrder (enters s req e) h = ground arith
  Happens-IsInOrder (proceeds s xs ys req e) h =
      let sent = page_if (offer req s.world.server).1 req in
      ap (λ qs. qs ++ sent) h
      ∙ append_assoc s.paged (waiting s.world) sent
      ∙ ap (λ qs. s.paged ++ qs) (sym (resume-waiting s.world req (xs ++ ys)))
  Happens-IsInOrder (takes s req rest l q c) h = ground arith
  Happens-IsInOrder (ends_page s req c) h =
      ground (arith, append_assoc s.paged (req ∷ []) s.world.server.queue)

  launch-IsInOrder : (n : ℕ) (token : Bytes) → IsInOrder (launch lib g n token)
  unfolding new
  launch-IsInOrder n token = refl

  Runs-IsInOrder : {s t : Serving lib g} → Runs lib g is_closed s t → IsInOrder s → IsInOrder t
  Runs-IsInOrder here h = h
  Runs-IsInOrder (next r p) h = Happens-IsInOrder p (Runs-IsInOrder r h)

  -- In every run that was started with no page, the pages that were queued are those that were processed,
  -- then the one that is being processed, then those still in the queue, in this order; and each group is
  -- on its way at most once and is in the in-flight map exactly while it is. When all goroutines have
  -- returned, no page is being processed, and what is left of the queue is not processed.
  pub pages_in_order :
      (n : ℕ) (token : Bytes) {s : Serving lib g}
      → Runs lib g is_closed (launch lib g n token) s
      → (s.queued ≡ s.paged ++ waiting s.world)
        × IsExclusive s.world
        × (IsOver lib g s → s.queued ≡ s.paged ++ s.world.server.queue)
  pages_in_order n token {s} r =
      let order = Runs-IsInOrder r (launch-IsInOrder n token) in
      let v = launched-IsSound lib g is_closed n token r in
      (
        order,
        reachable-IsExclusive n token (Runs-Reach r Interleaving.here),
        λ o.
            order ∙ ap (λ qs. s.paged ++ qs) (idle_waiting s.world (v.idle (v.gone o.left_client))),
      )
