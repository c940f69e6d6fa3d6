-- ===== src/Audio/Stream/Whole.antt =====
-- `Stream` of internal/audio/ffmpeg.go from the check of the spec to its return.
use tgpager.Base.{
  ◌≡◌, ◌≢◌, refl, ap, sym, inl, List, ◌∷◌, ◌++◌, Option, none, some, Bytes, ℕ, Result, ok, arith,
}
use mathlib.Core.Path.{subst}
use tgpager.Audio.Spec.{Spec, validate}
use tgpager.Audio.Compose.{stream_args}
use tgpager.Audio.Stream.{FfmpegError, Reading, StreamDeed, stream_loop, Meeting, stream}
use tgpager.Audio.Stream.Course.{
  Course, stream-Course, refused, unstarted, looped, Clean, around, around-Clean, closing-some,
  closing-none, runs, is_open,
}
use tgpager.Audio.Stream.Ends.{IsCompleted, loop-IsCompleted, loop-Stopped, IsLast, loop-returns}

module _ (Packet : Type 0) (unmarshal : Bytes → Result Bytes Packet)
    (write : Packet → Option Bytes) where
  module _ (m : Meeting Packet unmarshal write) (spec : Spec) where
    -- A stream that ended well: its socket, its command and its packets.
    abbrev pub Completes : List (StreamDeed Packet) → Type 0
    Completes ds =
        (ip : Bytes) × (port : ℕ) × (mid : List (StreamDeed Packet)) × (validate spec ≡ ok tt)
        × (m.listen ≡ ok (ip, port))
        × IsCompleted Packet unmarshal write m.readings mid
        × (ds ≡ around Packet unmarshal write (stream_args spec m.ssrc ip port) mid)

    Course-Completes :
        (c : Option (Result FfmpegError (Unit {0})) × List (StreamDeed Packet))
        (ds : List (StreamDeed Packet))
        → Course Packet unmarshal write m spec c
        → c ≡ (some (ok tt), ds)
        → Completes ds
    Course-Completes c ds (refused e) h = absurd (ground arith)
    Course-Completes c ds (unstarted e) h = absurd (ground arith)
    Course-Completes c ds (looped ip port x y) h =
        let (mid, e, f) =
          closing-some Packet unmarshal write (stream_args spec m.ssrc ip port)
            (stream_loop Packet unmarshal write m.readings) (ok tt) ds h in
        (ip, port, mid, x, y, loop-IsCompleted Packet unmarshal write m.readings mid e, f)

    Course-Clean :
        (c : Option (Result FfmpegError (Unit {0})) × List (StreamDeed Packet))
        (result : Result FfmpegError (Unit {0})) (ds : List (StreamDeed Packet))
        → Course Packet unmarshal write m spec c
        → c ≡ (some result, ds)
        → Clean Packet unmarshal write m.readings ds
    unfolding runs is_open
    Course-Clean c result ds (refused e) h =
        subst (Clean Packet unmarshal write m.readings) (ap (λ r. r.1) h) (refl, inl refl)
    Course-Clean c result ds (unstarted e) h =
        subst (Clean Packet unmarshal write m.readings) (ap (λ r. r.1) h) (refl, inl refl)
    Course-Clean c result ds (looped ip port x y) h =
        let args = stream_args spec m.ssrc ip port in
        let (mid, e, f) =
          closing-some Packet unmarshal write args (stream_loop Packet unmarshal write m.readings)
            result ds h in
        subst (Clean Packet unmarshal write m.readings) (sym f) (
          around-Clean Packet unmarshal write args m.readings mid
            (loop-Stopped Packet unmarshal write m.readings result mid e))

    Course-returns :
        (c : Option (Result FfmpegError (Unit {0})) × List (StreamDeed Packet))
        → Course Packet unmarshal write m spec c
        → (stream_loop Packet unmarshal write m.readings).0 ≢ none
        → c.0 ≢ none
    Course-returns c (refused e) l h = ground arith
    Course-returns c (unstarted e) l h = ground arith
    Course-returns c (looped ip port x y) l h =
        l (closing-none Packet unmarshal write _ (stream_loop Packet unmarshal write m.readings) h)

    -- A stream that returns without an error had a playable spec and a socket; ffmpeg was started with
    -- the arguments for it and has exited with success; every round before found nothing or a datagram
    -- that is a packet; and these packets, in order and all of them, are what was written, between the
    -- start and the closing of the socket.
    pub stream-Completes :
        (ds : List (StreamDeed Packet))
        → stream Packet unmarshal write m spec ≡ (some (ok tt), ds)
        → Completes ds
    stream-Completes ds h =
        Course-Completes (stream Packet unmarshal write m spec) ds
          (stream-Course Packet unmarshal write m spec) h

    -- However a stream returns, its socket is closed by then, and ffmpeg is not left running: it is not
    -- started, or is killed, or one of the readings has found that it has exited.
    pub stream-Clean :
        (result : Result FfmpegError (Unit {0})) (ds : List (StreamDeed Packet))
        → stream Packet unmarshal write m spec ≡ (some result, ds)
        → Clean Packet unmarshal write m.readings ds
    stream-Clean result ds h =
        Course-Clean (stream Packet unmarshal write m spec) result ds
          (stream-Course Packet unmarshal write m spec) h

    -- A stream returns, with an error or without, when among its readings is one that finds the context
    -- done, ffmpeg exited, or the socket failing or without a deadline, whatever the other readings are.
    pub stream_returns :
        (before : List Reading) (r : Reading) (after : List Reading)
        → m.readings ≡ before ++ r ∷ after
        → IsLast Packet unmarshal write r
        → (stream Packet unmarshal write m spec).0 ≢ none
    stream_returns before r after e l =
        Course-returns (stream Packet unmarshal write m spec)
          (stream-Course Packet unmarshal write m spec)
          (subst (λ rs. (stream_loop Packet unmarshal write rs).0 ≢ none) (sym e)
            (loop-returns Packet unmarshal write before r after l))
