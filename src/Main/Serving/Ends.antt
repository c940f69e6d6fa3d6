-- ===== src/Main/Serving/Ends.antt =====
-- How the shutdown of `run` in cmd/tgpager/main.go comes to its end.
use tgpager.Base.{
  Bool, true, false, List, [], ◌∷◌, Option, none, some, Bytes, ◌≡◌, refl, ℕ, suc, ◌+◌, ◌*◌, ◌≤◌,
  ◌<◌, ◌⊎◌, arith, inl, inr, length,
}
use tgpager.Server.{CallRequest}
use tgpager.Server.Interleaving.{resumes, receives, finishes}
use tgpager.Server.Measure.{steps_left, occupied, starts, Step-steps_left}
use tgpager.Tgcall.Errors.{ErrorLib}
use tgpager.Main.Serving.{
  ErrGroup, Serving, launch, stop, end_warming, warm_up, serve_http, shut_down, end_http, close,
  end_shutdown, get_ready, end_client, enter, proceed, take_page, end_page, Happens, stops, warms,
  leaves_http, closes, shuts, connects, fails, leaves_loop, enters, proceeds, takes, ends_page,
  Runs, IsOver,
}
use tgpager.Main.Serving.Stops.{IsSound, Happens-IsSound, launched-IsSound}

-- 1 while something has still to return, or to happen.
abbrev pub open_end {ℓ} : {A : Type ℓ} → Option A → ℕ
open_end none = 1
open_end (some a) = 0

abbrev pub unless : Bool → ℕ
unless true = 0
unless false = 1

open_end-le {ℓ} : {A : Type ℓ} (o : Option A) → open_end o ≤ 1
open_end-le none = omega arith
open_end-le (some a) = omega arith

unless-le : (b : Bool) → unless b ≤ 1
unless-le true = omega arith
unless-le false = omega arith

both-le {ℓ} : {A : Type ℓ} (b : Bool) (o : Option A) → unless b * open_end o ≤ 1
both-le true o = omega arith
both-le false o = omega (arith, open_end-le o)

module _ (lib : ErrorLib) (g : ErrGroup lib.Error) (is_closed : lib.Error → Bool) where
  -- A new webhook.
  unfoldable pub is_new : {s t : Serving lib g} → Happens lib g is_closed s t → Bool
  is_new (stops s r) = false
  is_new (warms s e w) = false
  is_new (leaves_http s e w c) = false
  is_new (closes s d c) = false
  is_new (shuts s e c w p) = false
  is_new (connects s c l) = false
  is_new (fails s e c l) = false
  is_new (leaves_loop s e l c d) = false
  is_new (enters s req e) = true
  is_new (proceeds s xs ys req e) = false
  is_new (takes s req rest l q c) = false
  is_new (ends_page s req c) = false

  -- So many happenings, none of which is a new webhook.
  pub data Winds : ℕ → Serving lib g → Serving lib g → Type 0 where
    still : (s : Serving lib g) → Winds 0 s s
    winds :
        {n : ℕ} {s t u : Serving lib g}
        → Winds n s t
        → (h : Happens lib g is_closed t u) → is_new h ≡ false
        → Winds (suc n) s u

  -- What can still happen without a new webhook.
  abbrev pub left_over : Serving lib g → ℕ
  left_over s =
      unless s.stopped
      + open_end s.warming
      + open_end s.http
      + unless s.closing
      + open_end s.shutdown
      + open_end s.client
      + unless s.looping * open_end s.client
      + steps_left s.world

  Happens-left_over :
      {s t : Serving lib g} (h : Happens lib g is_closed s t)
      → is_new h ≡ false
      → IsSound lib g is_closed s
      → left_over t < left_over s
  unfolding stop end_warming end_http close end_shutdown get_ready end_client enter proceed
      take_page end_page is_new starts
  Happens-left_over (stops s r) n v = ground arith
  Happens-left_over (warms s e w) n v = ground arith
  Happens-left_over (leaves_http s e w c) n v = ground arith
  Happens-left_over (closes s d c) n v = ground arith
  Happens-left_over (shuts s e c w p) n v = ground arith
  Happens-left_over (connects s c l) n v = ground arith
  Happens-left_over (fails s e c l) n v = ground arith
  Happens-left_over (leaves_loop s e l c d) n v = ground (arith, v.gone)
  Happens-left_over (enters s req e) n v = absurd (ground arith)
  Happens-left_over (proceeds s xs ys req e) n v =
      omega (arith, Step-steps_left (resumes s.world xs ys req e) refl)
  Happens-left_over (takes s req rest l q c) n v =
      omega (arith, Step-steps_left (receives s.world req rest q c) refl)
  Happens-left_over (ends_page s req c) n v =
      omega (arith, Step-steps_left (finishes s.world req c) refl)

  Happens-done :
      {s t : Serving lib g}
      → Happens lib g is_closed s t
      → g.done s.group ≡ true
      → g.done t.group ≡ true
  unfolding stop end_warming end_http close end_shutdown get_ready end_client enter proceed
      take_page end_page
  Happens-done (stops s r) h = g.interrupted_done s.group
  Happens-done (warms s e w) h = ground (arith, g.returned_done (warm_up lib e) s.group)
  Happens-done (leaves_http s e w c) h =
      ground (arith, g.returned_done (serve_http lib is_closed (some e)) s.group)
  Happens-done (shuts s e c w p) h = ground (arith, g.returned_done (shut_down lib e) s.group)
  Happens-done (fails s e c l) h = ground (arith, g.returned_done (some e) s.group)
  Happens-done (leaves_loop s e l c d) h = ground (arith, g.returned_done e s.group)
  Happens-done _ h = h

  -- Something can happen that is not a new webhook.
  abbrev pub GoesOn : Serving lib g → Type 0
  GoesOn s = (t : Serving lib g) × (h : Happens lib g is_closed s t) × (is_new h ≡ false)

  record IsEnding (s : Serving lib g) : Type 0 where
    sound : IsSound lib g is_closed s
    over : g.done s.group ≡ true

  Winds-IsEnding : {n : ℕ} {s t : Serving lib g} → Winds n s t → IsEnding s → IsEnding t
  Winds-IsEnding (still s) v = v
  Winds-IsEnding (winds r h f) v =
      let w = Winds-IsEnding r v in
      record { sound = Happens-IsSound lib g is_closed h w.sound; over = Happens-done h w.over }

  Winds-left_over :
      {n : ℕ} {s t : Serving lib g} → Winds n s t → IsEnding s → n + left_over t ≤ left_over s
  Winds-left_over (still s) v = omega arith
  Winds-left_over (winds r h f) v =
      omega (arith, Winds-left_over r v, Happens-left_over h f (Winds-IsEnding r v).sound)

  module _ (closed_error : lib.Error) (known : is_closed closed_error ≡ true) where
    -- The client can go on as long as it has not returned.
    client_goes :
        (s : Serving lib g) (looping : Bool) (c : Option CallRequest)
        → g.done s.group ≡ true
        → s.client ≡ none
        → s.looping ≡ looping
        → s.world.current ≡ c
        → GoesOn s
    unfolding is_new
    client_goes s false c d e l h = (get_ready lib g s, connects s e l, refl)
    client_goes s true none d e l h =
        (end_client lib g none s, leaves_loop s none l h (λ x. d), refl)
    client_goes s true (some req) d e l h = (end_page lib g req s, ends_page s req h, refl)

    shutdown_goes :
        (s : Serving lib g) (ps : List CallRequest)
        → s.closing ≡ true
        → s.shutdown ≡ none
        → s.world.pending ≡ ps
        → GoesOn s
    unfolding is_new
    shutdown_goes s [] c e h = (end_shutdown lib g none s, shuts s none c e (λ x. h), refl)
    shutdown_goes s (p ∷ ps) c e h = (proceed lib g p ps s, proceeds s [] ps p h, refl)

    -- What has still to return, in this order.
    ends_or_goes :
        (s : Serving lib g) (warming http shutdown client : Option (Option lib.Error))
        (closing : Bool)
        → IsEnding s
        → s.warming ≡ warming
        → s.closing ≡ closing
        → s.http ≡ http
        → s.shutdown ≡ shutdown
        → s.client ≡ client
        → IsOver lib g s ⊎ GoesOn s
    unfolding is_new
    ends_or_goes s none h d c b v e f i j k = inr (end_warming lib g none s, warms s none e, refl)
    ends_or_goes s (some w) h d c false v e f i j k = inr (close lib g s, closes s v.over f, refl)
    ends_or_goes s (some w) none d c true v e f i j k = inr (
      end_http lib g is_closed (some closed_error) s,
      leaves_http s closed_error i (λ x. f),
      refl,
    )
    ends_or_goes s (some w) (some h) none c true v e f i j k =
        inr (shutdown_goes s s.world.pending f j refl)
    ends_or_goes s (some w) (some h) (some d) none true v e f i j k =
        inr (client_goes s s.looping s.world.current v.over k refl refl)
    ends_or_goes s (some w) (some h) (some d) (some c) true v e f i j k =
        inl (ground (arith, e, i, j, k))

    -- Once the context of the goroutines is done, in a run that was started with no page, no more happens
    -- without a new webhook than the sum says: seven things for the goroutines, three for each handler
    -- that waits, two for each page in the queue and one for the page that is being processed. And as
    -- long as a goroutine has not returned, something else can happen. There is an error that is
    -- `http.ErrServerClosed`.
    pub shutdown_ends :
        (size : ℕ) (token : Bytes) (n : ℕ) {s t : Serving lib g}
        → Runs lib g is_closed (launch lib g size token) s
        → g.done s.group ≡ true
        → Winds n s t
        → (n
            ≤ 7
              + (3 * length s.world.pending
                  + 2 * length s.world.server.queue
                  + occupied s.world.current))
          × (IsOver lib g t ⊎ GoesOn t)
    shutdown_ends size token n {s} {t} r d w =
        let v : IsEnding s = record {
          sound = launched-IsSound lib g is_closed size token r;
          over = d;
        } in
        (
          omega (
            arith,
            Winds-left_over w v,
            unless-le s.stopped,
            open_end-le s.warming,
            open_end-le s.http,
            unless-le s.closing,
            open_end-le s.shutdown,
            open_end-le s.client,
            both-le s.looping s.client,
          ),
          ends_or_goes t t.warming t.http t.shutdown t.client t.closing (Winds-IsEnding w v) refl
              refl refl refl refl,
        )
