-- ===== src/Audio/Stream/Tests.antt =====
-- A stream of two packets, and a rendering.
use tgpager.Base.{
  ℕ, ◌≡◌, refl, List, [], ◌∷◌, Option, none, some, Bytes, codes, pos, Result, ok, err, str_eq,
}
use tgpager.Audio.Spec.{Spec, validate, first_empty}
use tgpager.Audio.Compose.{stream_args}
use tgpager.Audio.Stream.{
  datagram, timed_out, exited, still_running, StreamDeed, listened, started, wrote, closed,
  last_lines, filled_lines, finish_ffmpeg, handle, round, stream_loop, Meeting, run_ffmpeg, stream,
}
use tgpager.Audio.Stream.Course.{Clean}
use tgpager.Audio.Stream.Whole.{Completes, stream-Completes, stream-Clean}
use tgpager.Spaces.{trim_space, join, strip_all, strip_space, strip_space_back}
use tgpager.Strings.{lines}

abbrev tone : Spec
tone = record { segments = codes "tone.wav" ∷ []; repeat = pos 1 }

-- A packet is the first byte of a datagram.
abbrev first_byte : Bytes → Result Bytes ℕ
first_byte [] = err (codes "short")
first_byte (c ∷ s) = ok c

abbrev accept_all : ℕ → Option Bytes
accept_all p = none

abbrev two_packets : Meeting ℕ first_byte accept_all
two_packets = record {
  listen = ok (codes "127.0.0.1", 40000);
  ssrc = 7;
  pipe = none;
  start = λ args. none;
  readings =
      datagram (1 ∷ 9 ∷ [])
      ∷ timed_out still_running
      ∷ datagram (2 ∷ [])
      ∷ timed_out (exited none [])
      ∷ [];
}

abbrev two_deeds : List (StreamDeed ℕ)
two_deeds =
    listened
    ∷ started (stream_args tone 7 (codes "127.0.0.1") 40000)
    ∷ wrote 1
    ∷ wrote 2
    ∷ closed
    ∷ []

two_deeds_lem : stream ℕ first_byte accept_all two_packets tone ≡ (some (ok tt), two_deeds)
unfolding stream run_ffmpeg stream_loop round handle validate first_empty str_eq finish_ffmpeg
two_deeds_lem = refl

stream-Completes_example : Completes ℕ first_byte accept_all two_packets tone two_deeds
stream-Completes_example =
    stream-Completes ℕ first_byte accept_all two_packets tone two_deeds two_deeds_lem

stream-Clean_example : Clean ℕ first_byte accept_all two_packets.readings two_deeds
stream-Clean_example =
    stream-Clean ℕ first_byte accept_all two_packets tone (ok tt) two_deeds two_deeds_lem

last_lines_sample : last_lines (codes "one\n\n two \nthree\n") 2 ≡ codes "two; three"
unfolding last_lines filled_lines lines trim_space join str_eq strip_all strip_space
    strip_space_back
last_lines_sample = refl

abbrev succeed : List Bytes → Option Bytes × Bytes
succeed args = (none, [])
