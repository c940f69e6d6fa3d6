-- ===== src/Audio/Stream/Ends.antt =====
-- How `Stream` of internal/audio/ffmpeg.go ends, and what it has done by then.
use tgpager.Base.{
  ◌≡◌, ◌≢◌, refl, ap, sym, ◌∙◌, ◌⊎◌, inl, inr, List, [], ◌∷◌, ◌++◌, append_assoc, Option, none,
  some, Bytes, map, take, Result, ok, arith, Result-cases, Option-cases,
}
use mathlib.Core.Path.{subst}
use tgpager.Audio.Stream.{
  FfmpegError, finish_ffmpeg, context_done, exited, still_running, Reading, no_deadline, broken,
  datagram, timed_out, buffer_size, StreamDeed, killed, wrote, handle, round, stream_loop,
  unless_ended,
}

module _ (Packet : Type 0) (unmarshal : Bytes → Result Bytes Packet)
    (write : Packet → Option Bytes) where
  -- Rounds that the loop passes, and the packets that it hands on in them.
  pub data Delivered : List Reading → List Packet → Type 0 where
    nothing : Delivered [] []
    idle :
        {rs : List Reading} {ps : List Packet}
        → Delivered rs ps
        → Delivered (timed_out still_running ∷ rs) ps
    delivered :
        {rs : List Reading} {ps : List Packet} (d : Bytes) (p : Packet)
        → unmarshal (take buffer_size d) ≡ ok p
        → write p ≡ none
        → Delivered rs ps
        → Delivered (datagram d ∷ rs) (p ∷ ps)

  -- The readings of a stream that ends well, with its packets.
  pub record IsCompleted (rs : List Reading) (ds : List (StreamDeed Packet)) : Type 0 where
    pub before : List Reading
    pub after : List Reading
    pub stderr : Bytes
    pub packets : List Packet
    pub split : rs ≡ before ++ timed_out (exited none stderr) ∷ after
    pub passed : Delivered before packets
    pub handed : ds ≡ map wrote packets

  module _ (d : Bytes) (p : Packet) (rs : List Reading) (x : unmarshal (take buffer_size d) ≡ ok p)
      (y : write p ≡ none) where
    handled : handle Packet unmarshal write d ≡ (none, wrote p ∷ [])
    unfolding handle
    handled = rw (x, handle, y) refl

    -- A packet that is handed on: the loop goes on behind it.
    loop-datagram : stream_loop Packet unmarshal write (datagram d ∷ rs) ≡ (
      (stream_loop Packet unmarshal write rs).0,
      wrote p ∷ (stream_loop Packet unmarshal write rs).1,
    )
    unfolding stream_loop round
    loop-datagram =
        ap (λ r. unless_ended Packet unmarshal write r (stream_loop Packet unmarshal write rs))
          handled

    IsCompleted-later :
        (ds : List (StreamDeed Packet))
        → IsCompleted rs ds
        → IsCompleted (datagram d ∷ rs) (wrote p ∷ ds)
    IsCompleted-later ds c = record {
      before = datagram d ∷ c.before;
      after = c.after;
      stderr = c.stderr;
      packets = p ∷ c.packets;
      split = ap (λ t. datagram d ∷ t) c.split;
      passed = delivered d p x y c.passed;
      handed = ap (λ t. wrote p ∷ t) c.handed;
    }

  IsCompleted-idle :
      (rs : List Reading) (ds : List (StreamDeed Packet))
      → IsCompleted rs ds
      → IsCompleted (timed_out still_running ∷ rs) ds
  IsCompleted-idle rs ds c = record {
    before = timed_out still_running ∷ c.before;
    after = c.after;
    stderr = c.stderr;
    packets = c.packets;
    split = ap (λ t. timed_out still_running ∷ t) c.split;
    passed = idle c.passed;
    handed = c.handed;
  }

  pub loop-IsCompleted :
      (rs : List Reading) (ds : List (StreamDeed Packet))
      → stream_loop Packet unmarshal write rs ≡ (some (ok tt), ds)
      → IsCompleted rs ds
  unfolding stream_loop round handle finish_ffmpeg
  loop-IsCompleted [] ds h = absurd (ground arith)
  loop-IsCompleted (no_deadline e ∷ rs) ds h = absurd (ground arith)
  loop-IsCompleted (broken e ∷ rs) ds h = absurd (ground arith)
  loop-IsCompleted (timed_out (context_done e) ∷ rs) ds h = absurd (ground arith)
  loop-IsCompleted (timed_out (exited (some e) stderr) ∷ rs) ds h = absurd (ground arith)
  loop-IsCompleted (timed_out (exited none stderr) ∷ rs) ds h = record {
    before = [];
    after = rs;
    stderr = stderr;
    packets = [];
    split = refl;
    passed = nothing;
    handed = ground arith;
  }
  loop-IsCompleted (timed_out still_running ∷ rs) ds h =
      IsCompleted-idle rs ds (loop-IsCompleted rs ds (ground arith))
  loop-IsCompleted (datagram d ∷ rs) ds h = elim (Result-cases (unmarshal (take buffer_size d))) [
    | inr (e, x) ↦ absurd (ground arith)
    | inl (p, x) ↦ elim (Option-cases (write p)) [
      | inr (e, y) ↦ absurd (ground arith)
      | inl y ↦
          let e = sym (loop-datagram d p rs x y) ∙ h in
          subst (IsCompleted (datagram d ∷ rs)) (ap (λ r. r.1) e) (
            IsCompleted-later d p rs x y (stream_loop Packet unmarshal write rs).1 (
              loop-IsCompleted rs (stream_loop Packet unmarshal write rs).1
                (ap (λ r. (r.0, (stream_loop Packet unmarshal write rs).1)) e)))
    ]
  ]

  -- What the two parts of a stream do once ffmpeg is started: it is killed at the end, or has exited.
  abbrev pub Stopped : List Reading → List (StreamDeed Packet) → Type 0
  Stopped rs ds =
      ((front : List (StreamDeed Packet)) × (ds ≡ front ++ killed ∷ []))
      ⊎ ((before : List Reading) × (e : Option Bytes) × (stderr : Bytes) × (after : List Reading)
          × (rs ≡ before ++ timed_out (exited e stderr) ∷ after))

  Stopped-later :
      (r : Reading) (rs : List Reading) (front ds : List (StreamDeed Packet))
      → Stopped rs ds
      → Stopped (r ∷ rs) (front ++ ds)
  Stopped-later r rs front ds (inl (f, e)) =
      inl (front ++ f, ap (λ t. front ++ t) e ∙ sym (append_assoc front f (killed ∷ [])))
  Stopped-later r rs front ds (inr (b, e, t, a, s)) = inr (r ∷ b, e, t, a, ap (λ u. r ∷ u) s)

  pub loop-Stopped :
      (rs : List Reading) (result : Result FfmpegError (Unit {0})) (ds : List (StreamDeed Packet))
      → stream_loop Packet unmarshal write rs ≡ (some result, ds)
      → Stopped rs ds
  unfolding stream_loop round handle
  loop-Stopped [] result ds h = absurd (ground arith)
  loop-Stopped (no_deadline e ∷ rs) result ds h = inl ([], ground arith)
  loop-Stopped (broken e ∷ rs) result ds h = inl ([], ground arith)
  loop-Stopped (timed_out (context_done e) ∷ rs) result ds h = inl ([], ground arith)
  loop-Stopped (timed_out (exited e stderr) ∷ rs) result ds h = inr ([], e, stderr, rs, refl)
  loop-Stopped (timed_out still_running ∷ rs) result ds h =
      Stopped-later (timed_out still_running) rs [] ds (loop-Stopped rs result ds (ground arith))
  loop-Stopped (datagram d ∷ rs) result ds h =
      elim (Result-cases (unmarshal (take buffer_size d))) [
        | inr (e, x) ↦ inl ([], ground arith)
        | inl (p, x) ↦ elim (Option-cases (write p)) [
          | inr (e, y) ↦ inl (wrote p ∷ [], ground arith)
          | inl y ↦
              let more = (stream_loop Packet unmarshal write rs).1 in
              let e = sym (loop-datagram d p rs x y) ∙ h in
              subst (Stopped (datagram d ∷ rs)) (ap (λ r. r.1) e) (
                Stopped-later (datagram d) rs (wrote p ∷ []) more
                  (loop-Stopped rs result more (ap (λ r. (r.0, more)) e)))
        ]
      ]

  -- A reading that the loop returns at, whatever came before.
  pub data IsLast : Reading → Type 0 where
    ends_done : (e : Bytes) → IsLast (timed_out (context_done e))
    ends_exited : (e : Option Bytes) (stderr : Bytes) → IsLast (timed_out (exited e stderr))
    ends_deadline : (e : Bytes) → IsLast (no_deadline e)
    ends_broken : (e : Bytes) → IsLast (broken e)

  pub loop-returns :
      (before : List Reading) (r : Reading) (after : List Reading)
      → IsLast r
      → (stream_loop Packet unmarshal write (before ++ r ∷ after)).0 ≢ none
  unfolding stream_loop round
  loop-returns [] r after (ends_done e) h = ground arith
  loop-returns [] r after (ends_exited e stderr) h = ground arith
  loop-returns [] r after (ends_deadline e) h = ground arith
  loop-returns [] r after (ends_broken e) h = ground arith
  loop-returns (b ∷ before) r after l h = elim (Option-cases (round Packet unmarshal write b).0) [
    | inl passed ↦ loop-returns before r after l (ground arith)
    | inr (result, ended) ↦ ground arith
  ]
