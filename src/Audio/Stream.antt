-- ===== src/Audio/Stream.antt =====
-- `Stream` of internal/audio/ffmpeg.go, `Render` of render.go, and the errors of ffmpeg.
pub mod Ends
pub mod Course
pub mod Whole
pub mod Render
pub mod Tests
use tgpager.Base.{
  ℕ, ◌-◌, Bool, true, false, List, [], ◌∷◌, ◌++◌, Option, none, some, Bytes, codes, str_eq, length,
  take, drop, Result, ok, err, ltb, if◌then◌else◌,
}
use tgpager.Spaces.{trim_space, join}
use tgpager.Strings.{wrap_text, lines}
use tgpager.Audio.Spec.{Spec, SpecError, validate}
use tgpager.Audio.Compose.{stream_args, render_args}

-- The lines that are not blank, trimmed.
unfoldable pub filled_lines : List Bytes → List Bytes
filled_lines [] = []
filled_lines (l ∷ ls) =
    let line = trim_space l in
    let rest = filled_lines ls in if str_eq line [] then rest else line ∷ rest

-- The last `n` elements.
abbrev pub last_of : ℕ → List Bytes → List Bytes
last_of n ls = if ltb n (length ls) then drop (length ls - n) ls else ls

-- `lastLines`.
unfoldable pub last_lines : Bytes → ℕ → Bytes
unfolding filled_lines
last_lines stderr n = join (codes "; ") (last_of n (filled_lines (lines stderr)))

-- `finishFFmpeg`: the text of the error, if there is one.
unfoldable pub finish_ffmpeg : Option Bytes → Bytes → Option Bytes
unfolding last_lines
finish_ffmpeg none stderr = none
finish_ffmpeg (some e) stderr =
    let reason = last_lines stderr 2 in
    some (wrap_text (if str_eq reason [] then codes "ffmpeg" else codes "ffmpeg: " ++ reason) e)

pub data FfmpegError : Type 0 where
  bad_spec : SpecError → FfmpegError
  no_output_path : FfmpegError
  failed : Bytes → FfmpegError

abbrev pub wrapped : Bytes → Bytes → FfmpegError
wrapped message e = failed (wrap_text message e)

abbrev pub finished : Option Bytes → Result FfmpegError (Unit {0})
finished none = ok tt
finished (some e) = err (failed e)

-- `Render`, with the arguments that ffmpeg is run with; the run tells its error and what it wrote to
-- the standard error.
unfoldable pub render_spec :
    (List Bytes → Option Bytes × Bytes)
    → Spec
    → Bytes
    → Result FfmpegError (Unit {0}) × List (List Bytes)
render_spec run spec path = elim (validate spec) [
  | err e ↦ (err (bad_spec e), [])
  | ok u ↦ if str_eq path [] then (err no_output_path, []) else (
    finished (finish_ffmpeg (run (render_args spec path)).0 (run (render_args spec path)).1),
    render_args spec path ∷ [],
  )
]

-- What the `select` behind a timeout finds.
pub data Idle : Type 0 where
  context_done : Bytes → Idle
  exited : Option Bytes → Bytes → Idle
  still_running : Idle

-- One round of the loop: the deadline is not set, a datagram arrives, nothing arrives in time, or the
-- socket fails.
pub data Reading : Type 0 where
  no_deadline broken : Bytes → Reading
  datagram : Bytes → Reading
  timed_out : Idle → Reading

abbrev pub buffer_size : ℕ
buffer_size = 4096

module _ (Packet : Type 0) where
  -- What a stream does to the world, in order.
  pub data StreamDeed : Type 0 where
    listened closed killed : StreamDeed
    started : List Bytes → StreamDeed
    wrote : Packet → StreamDeed

  -- `Unmarshal` of the RTP library, and the function that the packets are handed to, with the text of
  -- its error.
  module _ (unmarshal : Bytes → Result Bytes Packet) (write : Packet → Option Bytes) where
    -- One round: the loop goes on, or returns the error or its absence; and what the round does.
    unfoldable pub handle : Bytes → Option (Result FfmpegError (Unit {0})) × List StreamDeed
    handle d = elim (unmarshal (take buffer_size d)) [
      | err e ↦ (some (err (wrapped (codes "decode rtp packet") e)), killed ∷ [])
      | ok packet ↦ elim (write packet) [
        | some e ↦ (some (err (wrapped (codes "write rtp") e)), wrote packet ∷ killed ∷ [])
        | none ↦ (none, wrote packet ∷ [])
      ]
    ]

    unfoldable pub round : Reading → Option (Result FfmpegError (Unit {0})) × List StreamDeed
    unfolding handle
    round (no_deadline e) = (some (err (wrapped (codes "set read deadline") e)), killed ∷ [])
    round (broken e) = (some (err (wrapped (codes "read rtp packet") e)), killed ∷ [])
    round (datagram d) = handle d
    round (timed_out (context_done e)) = (some (err (failed e)), killed ∷ [])
    round (timed_out (exited e stderr)) = (some (finished (finish_ffmpeg e stderr)), [])
    round (timed_out still_running) = (none, [])

    -- The rest of the loop runs unless a round has returned.
    abbrev pub unless_ended :
        Option (Result FfmpegError (Unit {0})) × List StreamDeed
        → Option (Result FfmpegError (Unit {0})) × List StreamDeed
        → Option (Result FfmpegError (Unit {0})) × List StreamDeed
    unless_ended (some result, ds) rest = (some result, ds)
    unless_ended (none, ds) (rest, more) = (rest, ds ++ more)

    -- The loop over the readings so far: none if it still runs behind the last of them.
    unfoldable pub stream_loop :
        List Reading → Option (Result FfmpegError (Unit {0})) × List StreamDeed
    unfolding round
    stream_loop [] = (none, [])
    stream_loop (r ∷ rs) = let rest = stream_loop rs in unless_ended (round r) rest

    -- What `Stream` meets: the local address or the error of listening, the identifier that is drawn,
    -- the error of the pipe and that of the start, if there are, and the readings.
    pub record Meeting : Type 0 where
      pub listen : Result Bytes (Bytes × ℕ)
      pub ssrc : ℕ
      pub pipe : Option Bytes
      pub start : List Bytes → Option Bytes
      pub readings : List Reading

    -- The deferred close runs when `Stream` returns.
    abbrev pub closing :
        Option (Result FfmpegError (Unit {0})) × List StreamDeed
        → Option (Result FfmpegError (Unit {0})) × List StreamDeed
    closing (none, ds) = (none, listened ∷ ds)
    closing (some result, ds) = (some result, listened ∷ (ds ++ closed ∷ []))

    abbrev pub starting :
        List Bytes
        → Option (Result FfmpegError (Unit {0})) × List StreamDeed
        → Option (Result FfmpegError (Unit {0})) × List StreamDeed
    starting args (end, ds) = (end, started args ∷ ds)

    -- `Stream` behind the socket.
    unfoldable pub run_ffmpeg :
        Meeting → List Bytes → Option (Result FfmpegError (Unit {0})) × List StreamDeed
    unfolding stream_loop
    run_ffmpeg m args = elim m.pipe [
      | some e ↦ (some (err (wrapped (codes "stderr pipe") e)), [])
      | none ↦ elim (m.start args) [
        | some e ↦ (some (err (wrapped (codes "start ffmpeg") e)), [])
        | none ↦ starting args (stream_loop m.readings)
      ]
    ]

    -- `Stream`.
    unfoldable pub stream :
        Meeting → Spec → Option (Result FfmpegError (Unit {0})) × List StreamDeed
    unfolding run_ffmpeg
    stream m spec = elim (validate spec) [
      | err e ↦ (some (err (bad_spec e)), [])
      | ok u ↦ elim m.listen [
        | err e ↦ (some (err (wrapped (codes "listen rtp udp") e)), [])
        | ok (ip, port) ↦ closing (run_ffmpeg m (stream_args spec m.ssrc ip port))
      ]
    ]
