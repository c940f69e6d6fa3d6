-- ===== src/Audio/Tests.antt =====
-- Specs, checked.
use tgpager.Base.{◌≡◌, refl, [], ◌∷◌, codes, pos, str_eq, ok, err}
use tgpager.Audio.Spec.{Spec, empty_segment, validate, first_empty}

abbrev tone_and_speech : Spec
tone_and_speech = record { segments = codes "tone.wav" ∷ codes "speech.mp3" ∷ []; repeat = pos 2 }

validate_sample : validate tone_and_speech ≡ ok tt
unfolding validate first_empty str_eq
validate_sample = refl

validate_sample_empty :
    validate (record tone_and_speech { segments = codes "tone.wav" ∷ [] ∷ [] })
    ≡ err (empty_segment 1)
unfolding validate first_empty str_eq
validate_sample_empty = refl
