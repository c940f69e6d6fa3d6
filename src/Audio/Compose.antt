-- ===== src/Audio/Compose.antt =====
-- The arguments of ffmpeg in internal/audio/ffmpeg.go and render.go.
pub mod Graph
pub mod Items
pub mod Plays
pub mod Tests
use tgpager.Base.{ℕ, zero, suc, ◌+◌, List, [], ◌∷◌, ◌++◌, Bytes, codes, length, ℤ, pos, pos_part}
use tgpager.Strconv.{format_int}
use tgpager.Audio.Ogg.{sample_rate}
use tgpager.Audio.Spec.{Spec}

abbrev pub opus_payload_type : ℕ
opus_payload_type = 111

abbrev pub frame_duration_ms : ℕ
frame_duration_ms = 20

abbrev pub voice_bitrate : Bytes
voice_bitrate = codes "32k"

-- `fmt.Sprintf("%d", n)` of an integer that is not negative.
abbrev pub decimal : ℕ → Bytes
decimal n = format_int (pos n)

-- "[%d:a]", with what is written behind it.
abbrev pub input_label : ℕ → Bytes → Bytes
input_label i s = b'[' ∷ (decimal i ++ b':' ∷ b'a' ∷ b']' ∷ s)

-- The builder `refs` and the counter `n` of `concatFilter`.
pub record Refs : Type 0 where
  pub text : Bytes
  pub n : ℕ

-- The inner loop, with `left` rounds to go at `i`.
unfoldable pub add_round : ℕ → ℕ → Refs → Refs
add_round zero i r = r
add_round (suc left) i r =
    add_round left (suc i) (record { text = r.text ++ input_label i []; n = r.n + 1 })

-- The outer loop.
unfoldable pub add_rounds : ℕ → ℕ → Refs → Refs
unfolding add_round
add_rounds inputs zero r = r
add_rounds inputs (suc left) r = add_rounds inputs left (add_round inputs 0 r)

-- `concatFilter`; a loop over a negative number makes no round.
unfoldable pub concat_filter : ℕ → ℤ → Bytes
unfolding add_rounds
concat_filter inputs repeat =
    let r = add_rounds inputs (pos_part repeat) (record { text = []; n = 0 }) in
    r.text ++ (codes "concat=n=" ++ (decimal r.n ++ codes ":v=0:a=1[out]"))

-- The loop of `composeArgs`.
unfoldable pub input_args : List Bytes → List Bytes
input_args [] = []
input_args (seg ∷ segs) = codes "-i" ∷ seg ∷ input_args segs

unfoldable pub compose_args : Spec → List Bytes
unfolding input_args concat_filter
compose_args spec =
    input_args spec.segments
    ++ codes "-filter_complex"
      ∷ concat_filter (length spec.segments) spec.repeat
      ∷ codes "-map"
      ∷ codes "[out]"
      ∷ []

-- What `Stream` puts behind the composed arguments: the identifier of the stream, and the text of the local address with its port.
abbrev pub stream_settings : ℕ → Bytes → ℕ → List Bytes
stream_settings ssrc ip port =
    codes "-vn"
    ∷ codes "-c:a"
    ∷ codes "libopus"
    ∷ codes "-ar"
    ∷ decimal sample_rate
    ∷ codes "-ac"
    ∷ codes "1"
    ∷ codes "-frame_duration"
    ∷ decimal frame_duration_ms
    ∷ codes "-payload_type"
    ∷ decimal opus_payload_type
    ∷ codes "-ssrc"
    ∷ decimal ssrc
    ∷ codes "-f"
    ∷ codes "rtp"
    ∷ (codes "rtp://" ++ (ip ++ (codes ":" ++ decimal port)))
    ∷ []

-- The arguments of `Stream`.
unfoldable pub stream_args : Spec → ℕ → Bytes → ℕ → List Bytes
unfolding compose_args
stream_args spec ssrc ip port = (codes "-re" ∷ compose_args spec) ++ stream_settings ssrc ip port

-- The same of `Render`.
abbrev pub render_settings : Bytes → List Bytes
render_settings path =
    codes "-vn"
    ∷ codes "-c:a"
    ∷ codes "libopus"
    ∷ codes "-application"
    ∷ codes "voip"
    ∷ codes "-b:a"
    ∷ voice_bitrate
    ∷ codes "-ar"
    ∷ decimal sample_rate
    ∷ codes "-ac"
    ∷ codes "1"
    ∷ codes "-f"
    ∷ codes "ogg"
    ∷ path
    ∷ []

unfoldable pub render_args : Spec → Bytes → List Bytes
unfolding compose_args
render_args spec path =
    (codes "-hide_banner" ∷ codes "-y" ∷ compose_args spec) ++ render_settings path
