-- ===== src/Audio/Compose/Tests.antt =====
-- The commands for a tone and a text, twice.
use tgpager.Base.{◌≡◌, refl, ◌∷◌, [], codes, str_eq, pos, some, arith}
use tgpager.Audio.Spec.{Spec}
use tgpager.Audio.Compose.{concat_filter, stream_args, render_args, add_rounds, add_round}
use tgpager.Audio.Compose.Items.{is_flag}
use tgpager.Audio.Compose.Plays.{plays, rtp_address, plays_alike}
use tgpager.Strconv.{format_int, digits}

abbrev twice : Spec
twice = record { segments = codes "tone.wav" ∷ codes "speech.mp3" ∷ []; repeat = pos 2 }

concat_filter_sample : concat_filter 2 (pos 2) ≡ codes "[0:a][1:a][0:a][1:a]concat=n=4:v=0:a=1[out]"
unfolding concat_filter add_rounds add_round format_int digits
concat_filter_sample = refl

concat_filter_sample_negative : concat_filter 2 (pos 0) ≡ codes "concat=n=0:v=0:a=1[out]"
unfolding concat_filter add_rounds add_round format_int digits
concat_filter_sample_negative = refl

plays_alike_example :
    (plays (stream_args twice 7 (codes "127.0.0.1") 40000) ≡ (
      some (codes "tone.wav" ∷ codes "speech.mp3" ∷ codes "tone.wav" ∷ codes "speech.mp3" ∷ []),
      rtp_address (codes "127.0.0.1") 40000 ∷ [],
    ))
    × (plays (render_args twice (codes "/tmp/v.ogg")) ≡ (
      some (codes "tone.wav" ∷ codes "speech.mp3" ∷ codes "tone.wav" ∷ codes "speech.mp3" ∷ []),
      codes "/tmp/v.ogg" ∷ [],
    ))
unfolding is_flag str_eq
plays_alike_example =
    plays_alike twice 7 40000 (codes "127.0.0.1") (codes "/tmp/v.ogg") (omega arith) refl
