-- ===== src/Tts/Synthesizer.antt =====
-- internal/tts/tts.go: audio, and what a provider promises.
use tgpager.Base.{
  Bool, true, ◌≡◌, ◌≢◌, [], Bytes, codes, str_eq, str_eq_iff, arith, Result, ok, err, if◌then◌else◌,
}

pub record Audio : Type 0 where
  pub audio : Bytes
  pub format : Bytes

-- `Audio.validate`, giving the audio where it is valid; errors are their texts.
unfoldable pub validated : Audio → Result Bytes Audio
validated a =
    if str_eq a.audio []
    then err (codes "provider returned no audio")
    else if str_eq a.format []
    then err (codes "provider returned no format")
    else ok a

-- `Synthesizer`; `disabled` tells the one of type `Disabled`.
pub record Synthesizer : Type 0 where
  pub disabled : Bool
  pub fingerprint : Bytes
  pub format : Bytes
  pub synthesize : Bytes → Result Bytes Audio

-- `Disabled`.
abbrev pub disabled_synthesizer : Synthesizer
disabled_synthesizer = record {
  disabled = true;
  fingerprint = codes "disabled";
  format = [];
  synthesize = λ text. err (codes "tts is disabled");
}

-- What the interface promises of the audio that is returned: there is some, and it has the format that
-- was announced.
pub record IsSound (s : Synthesizer) : Type 0 where
  pub some_audio : (text : Bytes) (out : Audio) → s.synthesize text ≡ ok out → out.audio ≢ []
  pub announced : (text : Bytes) (out : Audio) → s.synthesize text ≡ ok out → out.format ≡ s.format

-- Valid audio is passed on as it is.
pub validated_lem : (a out : Audio) → validated a ≡ ok out → (out ≡ a) × (a.audio ≢ [])
unfolding validated
validated_lem a out h = (ground arith, λ e. ground (arith, str_eq_iff a.audio []))
