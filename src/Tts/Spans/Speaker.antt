-- ===== src/Tts/Spans/Speaker.antt =====
-- The span of `Speaker.speech` in internal/tts/speaker.go, around that of the provider.
use tgpager.Base.{
  ℕ, suc, refl, inl, inr, true, false, Bool-cases, Result-cases, List, [], ◌∷◌, ◌++◌, Bytes, codes,
  length, Result, ok, err, if◌then◌else◌,
}
use tgpager.Alertmanager.{WebhookPayload}
use tgpager.Tracing.{number, flag, SpanDeed, attributes_set, enclosing}
use tgpager.Tracing.Nesting.{NestsIn, NestsIn-append, enclosing-NestsIn, open_after}
use tgpager.Tts.Synthesizer.{Audio}
use tgpager.Tts.Cache.{File, Writing, lookup}
use tgpager.Tts.Speaker.{SpeechError, render, Speaker, Surroundings, name_of, speech}

-- What is set behind the provider.
abbrev pub audio_set : Result Bytes Audio → List (SpanDeed SpeechError)
audio_set (err e) = []
audio_set (ok out) =
    attributes_set
      ((codes "tts.cached", flag false) ∷ (codes "tts.audio_bytes", number (length out.audio)) ∷ [])
    ∷ []

-- The provider that is asked sets up its own span, `inner`.
module _ (env : Surroundings) (s : Speaker) (inner : Bytes → List (SpanDeed SpeechError)) where
  open env use {execute, disk}

  -- Behind the template.
  unfoldable pub text_spans : ℕ → Bytes → List File → List (SpanDeed SpeechError)
  text_spans now text fs =
      if (lookup disk s.cache (name_of env s text s.synth.format) now fs).1
      then attributes_set ((codes "tts.cached", flag true) ∷ []) ∷ []
      else inner text ++ audio_set (s.synth.synthesize text)

  unfoldable pub speech_inside : ℕ → WebhookPayload → List File → List (SpanDeed SpeechError)
  speech_inside now payload fs = elim (render (execute payload)) [
    | err e ↦ []
    | ok text ↦
        attributes_set ((codes "tts.text_bytes", number (length text)) ∷ [])
        ∷ text_spans now text fs
  ]

  unfoldable pub speech_span :
      Writing → ℕ → ℕ → WebhookPayload → List File → List (SpanDeed SpeechError)
  speech_span writing now later payload fs =
      enclosing (codes "tts.Speak") [] (speech_inside now payload fs)
        (speech env s writing now later payload fs).result

  module _ (nested : (text : Bytes) (n : ℕ) → NestsIn n (inner text)) where
    audio_set-NestsIn : (r : Result Bytes Audio) (n : ℕ) → NestsIn (suc n) (audio_set r)
    unfolding open_after
    audio_set-NestsIn (err e) n = refl
    audio_set-NestsIn (ok out) n = refl

    text_spans-NestsIn :
        (now : ℕ) (text : Bytes) (fs : List File) (n : ℕ) → NestsIn (suc n) (text_spans now text fs)
    unfolding text_spans open_after
    text_spans-NestsIn now text fs n =
        elim (Bool-cases (lookup disk s.cache (name_of env s text s.synth.format) now fs).1) [
          | inl e ↦ rw (e, text_spans) refl
          | inr e ↦
              rw (e, text_spans)
                (NestsIn-append (suc n) (inner text) (audio_set (s.synth.synthesize text))
                  (nested text (suc n)) (audio_set-NestsIn (s.synth.synthesize text) n))
        ]

    speech_inside-NestsIn :
        (now : ℕ) (payload : WebhookPayload) (fs : List File) (n : ℕ)
        → NestsIn (suc n) (speech_inside now payload fs)
    unfolding speech_inside open_after
    speech_inside-NestsIn now payload fs n = elim (Result-cases (render (execute payload))) [
      | inr (e, r) ↦ rw (r, speech_inside) refl
      | inl (text, r) ↦ rw (r, speech_inside) (text_spans-NestsIn now text fs n)
    ]

    -- Around a provider whose spans are ended, the span of a speech is ended too, on every path, and that of the
    -- provider lies inside of it.
    pub speech_span-NestsIn :
        (writing : Writing) (now later : ℕ) (payload : WebhookPayload) (fs : List File) (n : ℕ)
        → NestsIn n (speech_span writing now later payload fs)
    unfolding speech_span
    speech_span-NestsIn writing now later payload fs n =
        enclosing-NestsIn (codes "tts.Speak") [] (speech_inside now payload fs)
          (speech env s writing now later payload fs).result n
          (speech_inside-NestsIn now payload fs n)
