-- ===== src/Audio/Stream/Course.antt =====
-- The course of `Stream` in internal/audio/ffmpeg.go, in front of the loop and around it.
use tgpager.Base.{
  ◌≡◌, refl, ap, sym, ◌∙◌, ◌⊎◌, inl, inr, Bool, true, false, List, [], ◌∷◌, ◌++◌, append_assoc,
  Option, none, some, Bytes, ℕ, Result, ok, err, arith, Result-cases, Option-cases,
}
use mathlib.Core.Path.{subst}
use tgpager.Audio.Spec.{Spec, validate}
use tgpager.Audio.Compose.{stream_args}
use tgpager.Audio.Stream.{
  FfmpegError, Reading, timed_out, exited, StreamDeed, listened, closed, killed, started, wrote,
  stream_loop, Meeting, starting, closing, run_ffmpeg, stream,
}
use tgpager.Audio.Stream.Ends.{Stopped}

module _ (Packet : Type 0) (unmarshal : Bytes → Result Bytes Packet)
    (write : Packet → Option Bytes) where
  -- Whether ffmpeg runs behind these deeds, if it ran before them.
  unfoldable pub runs : Bool → List (StreamDeed Packet) → Bool
  runs b [] = b
  runs b (started args ∷ ds) = runs true ds
  runs b (killed ∷ ds) = runs false ds
  runs b (listened ∷ ds) = runs b ds
  runs b (closed ∷ ds) = runs b ds
  runs b (wrote p ∷ ds) = runs b ds

  -- Whether the socket is open.
  unfoldable pub is_open : Bool → List (StreamDeed Packet) → Bool
  is_open b [] = b
  is_open b (listened ∷ ds) = is_open true ds
  is_open b (closed ∷ ds) = is_open false ds
  is_open b (started args ∷ ds) = is_open b ds
  is_open b (killed ∷ ds) = is_open b ds
  is_open b (wrote p ∷ ds) = is_open b ds

  runs-killed :
      (b : Bool) (ds : List (StreamDeed Packet)) → runs b (ds ++ killed ∷ closed ∷ []) ≡ false
  unfolding runs
  runs-killed b [] = refl
  runs-killed b (started args ∷ ds) = runs-killed true ds
  runs-killed b (killed ∷ ds) = runs-killed false ds
  runs-killed b (listened ∷ ds) = runs-killed b ds
  runs-killed b (closed ∷ ds) = runs-killed b ds
  runs-killed b (wrote p ∷ ds) = runs-killed b ds

  is_open-closed :
      (b : Bool) (ds : List (StreamDeed Packet)) → is_open b (ds ++ closed ∷ []) ≡ false
  unfolding is_open
  is_open-closed b [] = refl
  is_open-closed b (started args ∷ ds) = is_open-closed b ds
  is_open-closed b (killed ∷ ds) = is_open-closed b ds
  is_open-closed b (listened ∷ ds) = is_open-closed true ds
  is_open-closed b (closed ∷ ds) = is_open-closed false ds
  is_open-closed b (wrote p ∷ ds) = is_open-closed b ds

  abbrev pub around : List Bytes → List (StreamDeed Packet) → List (StreamDeed Packet)
  around args mid = listened ∷ started args ∷ (mid ++ closed ∷ [])

  pub closing-some :
      (args : List Bytes) (r : Option (Result FfmpegError (Unit {0})) × List (StreamDeed Packet))
      (result : Result FfmpegError (Unit {0})) (ds : List (StreamDeed Packet))
      → closing Packet unmarshal write (starting Packet unmarshal write args r) ≡ (some result, ds)
      → (mid : List (StreamDeed Packet)) × (r ≡ (some result, mid)) × (ds ≡ around args mid)
  closing-some args (none, mid) result ds h = absurd (ground arith)
  closing-some args (some other, mid) result ds h = (mid, ground arith, ground arith)

  pub closing-none :
      (args : List Bytes) (r : Option (Result FfmpegError (Unit {0})) × List (StreamDeed Packet))
      → (closing Packet unmarshal write (starting Packet unmarshal write args r)).0 ≡ none
      → r.0 ≡ none
  closing-none args (none, mid) h = refl
  closing-none args (some other, mid) h = absurd (ground arith)

  -- A stream that is over leaves no socket open, and no ffmpeg running, unless it had exited itself.
  abbrev pub Clean : List Reading → List (StreamDeed Packet) → Type 0
  Clean rs ds =
      (is_open false ds ≡ false)
      × ((runs false ds ≡ false)
          ⊎ ((before : List Reading) × (e : Option Bytes) × (stderr : Bytes) × (after : List
                Reading)
              × (rs ≡ before ++ timed_out (exited e stderr) ∷ after)))

  pub around-Clean :
      (args : List Bytes) (rs : List Reading) (mid : List (StreamDeed Packet))
      → Stopped Packet unmarshal write rs mid
      → Clean rs (around args mid)
  unfolding runs is_open
  around-Clean args rs mid (inr exits) = (is_open-closed true mid, inr exits)
  around-Clean args rs mid (inl (front, e)) = (
    is_open-closed true mid,
    inl (
        ap (λ ds. runs true (ds ++ closed ∷ [])) e
        ∙ ap (runs true) (append_assoc front (killed ∷ []) (closed ∷ []))
        ∙ runs-killed true front),
  )

  module _ (m : Meeting Packet unmarshal write) (spec : Spec) where
    -- What the loop does, if it is reached, and how the whole relates to it.
    pub data Course
        : Option (Result FfmpegError (Unit {0})) × List (StreamDeed Packet) → Type 0 where
      refused : (e : FfmpegError) → Course (some (err e), [])
      unstarted : (e : FfmpegError) → Course (some (err e), listened ∷ closed ∷ [])
      looped :
          (ip : Bytes) (port : ℕ)
          → validate spec ≡ ok tt
          → m.listen ≡ ok (ip, port)
          → Course (
              closing Packet unmarshal write (
                starting Packet unmarshal write
                  (stream_args spec m.ssrc ip port)
                  (stream_loop Packet unmarshal write m.readings)))

    loops :
        (ip : Bytes) (port : ℕ)
        → validate spec ≡ ok tt
        → m.listen ≡ ok (ip, port)
        → m.pipe ≡ none
        → m.start (stream_args spec m.ssrc ip port) ≡ none
        → stream Packet unmarshal write m spec
          ≡ closing Packet unmarshal write (
              starting Packet unmarshal write
                (stream_args spec m.ssrc ip port)
                (stream_loop Packet unmarshal write m.readings))
    unfolding stream run_ffmpeg
    loops ip port x y z w = simp (x, y, z, w, stream, run_ffmpeg) refl

    pub stream-Course : Course (stream Packet unmarshal write m spec)
    unfolding stream run_ffmpeg
    stream-Course = elim (Result-cases (validate spec)) [
      | inr (e, x) ↦ rw (x, stream) (refused _)
      | inl (u, x) ↦ elim (Result-cases m.listen) [
        | inr (e, y) ↦ rw (x, stream, y) (refused _)
        | inl ((ip, port), y) ↦ elim (Option-cases m.pipe) [
          | inr (e, z) ↦ rw (x, stream, y, z, run_ffmpeg) (unstarted _)
          | inl z ↦ elim (Option-cases (m.start (stream_args spec m.ssrc ip port))) [
            | inr (e, w) ↦ rw (x, stream, y, z, run_ffmpeg, w) (unstarted _)
            | inl w ↦ subst Course (sym (loops ip port x y z w)) (looped ip port x y)
          ]
        ]
      ]
    ]
