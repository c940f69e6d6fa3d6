-- ===== src/Tts/Speaker.antt =====
-- internal/tts/speaker.go and template.go: the text of an alert, and what a page plays for it.
pub mod Again
pub mod Lost
pub mod Playable
pub mod Tests
use tgpager.Base.{
  ℕ, ◌+◌, Bool, true, false, not, ◌&&◌, List, [], ◌∷◌, ◌++◌, Option, none, some, Bytes, codes,
  str_eq, length, take, ℤ, pos, ltb, leb_ℤ, Result, ok, err, if◌then◌else◌,
}
use tgpager.Alertmanager.{WebhookPayload}
use tgpager.Audio.Spec.{Spec}
use tgpager.Spaces.{fields, join}
use tgpager.Telemetry.{MeterProvider, or_noop}
use tgpager.Tts.Metrics.{new_metrics}
use tgpager.Tts.Synthesizer.{Audio, Synthesizer}
use tgpager.Tts.Cache.{File, Cache, Disk, Writing, lookup, store, file_name}

pub data SpeechError : Type 0 where
  render_failed no_text : SpeechError
  synthesis_failed : Bytes → SpeechError
  store_failed : Writing → SpeechError

abbrev pub max_text_bytes : ℕ
max_text_bytes = 1024

-- `Render` on the text that the template gives, if it executes.
unfoldable pub render : Option Bytes → Result SpeechError Bytes
render none = err render_failed
render (some out) =
    let text = join (codes " ") (fields out) in
    if str_eq text []
    then err no_text
    else ok (if ltb max_text_bytes (length text) then take max_text_bytes text else text)

pub record Speaker : Type 0 where
  pub synth : Synthesizer
  pub cache : Cache
  pub tone : Bytes
  pub repeat : ℤ

pub data SpeakerError : Type 0 where
  cache_required tone_required : SpeakerError
  instrument_refused : Bytes → SpeakerError

-- The end of `NewSpeaker`, where it makes its instruments.
abbrev pub metered : Option (MeterProvider Bytes) → Speaker → Result SpeakerError Speaker
metered mp s = elim (new_metrics (or_noop mp)) [ ok m ↦ ok s | err e ↦ err (instrument_refused e) ]

-- `NewSpeaker`, for a synthesizer that is given; a speaker without a cache never looks into it.
unfoldable pub new_speaker :
    Option (MeterProvider Bytes)
    → Synthesizer
    → Option Cache
    → Bytes
    → ℤ
    → Result SpeakerError Speaker
unfolding new_metrics
new_speaker mp synth none tone repeat =
    if not synth.disabled
    then err cache_required
    else if str_eq tone []
    then err tone_required
    else metered mp (record {
      synth = synth;
      cache = record { dir = []; ttl = 0; max_bytes = 0 };
      tone = tone;
      repeat = if leb_ℤ (pos 1) repeat then repeat else pos 1;
    })
new_speaker mp synth (some cache) tone repeat =
    if str_eq tone []
    then err tone_required
    else metered mp (record {
      synth = synth;
      cache = cache;
      tone = tone;
      repeat = if leb_ℤ (pos 1) repeat then repeat else pos 1;
    })

-- The values of the `result` attribute, and the counter of fallbacks.
pub data Count : Type 0 where
  template_error hit error miss fell_back : Count

-- What the speaker leaves: the directory of the cache, and the counts.
pub record Spoken (A : Type 0) : Type 0 where
  pub result : A
  pub folder : List File
  pub counts : List Count

-- The world around the speaker: the template, SHA-256, `filepath.Join`, and the disk and the sorting of
-- the cache.
pub record Surroundings : Type 0 where
  pub execute : WebhookPayload → Option Bytes
  pub hash : Bytes → Bytes
  pub join_path : Bytes → Bytes → Bytes
  pub disk : Disk
  pub sort : List File → List File

module _ (env : Surroundings) (s : Speaker) where
  open env use {execute, hash, join_path, disk, sort}

  abbrev pub name_of : Bytes → Bytes → Bytes
  name_of text format = file_name hash s.synth.fingerprint text format

  abbrev pub path_of : Bytes → Bytes → Bytes
  path_of text format = join_path s.cache.dir (name_of text format)

  -- The synthesis behind a miss; the clock is read again.
  unfoldable pub synthesize_and_store :
      Writing → ℕ → Bytes → List File → Spoken (Result SpeechError Bytes)
  synthesize_and_store writing now text fs = elim (s.synth.synthesize text) [
    | err m ↦ record { result = err (synthesis_failed m); folder = fs; counts = error ∷ [] }
    | ok out ↦
        let (fs', failed) =
          store disk sort s.cache writing (name_of text out.format) out.audio now fs in
        elim failed [
          | some w ↦ record { result = err (store_failed w); folder = fs'; counts = error ∷ [] }
          | none ↦ record {
            result = ok (path_of text out.format);
            folder = fs';
            counts = miss ∷ [];
          }
        ]
  ]

  -- `speech`, with the times of the lookup and of the store, and how the writing of the store ends.
  unfoldable pub speech :
      Writing → ℕ → ℕ → WebhookPayload → List File → Spoken (Result SpeechError Bytes)
  unfolding synthesize_and_store
  speech writing now later payload fs = elim (render (execute payload)) [
    | err e ↦ record { result = err e; folder = fs; counts = template_error ∷ [] }
    | ok text ↦
        let (fs', found) = lookup disk s.cache (name_of text s.synth.format) now fs in
        if found
        then record { result = ok (path_of text s.synth.format); folder = fs'; counts = hit ∷ [] }
        else synthesize_and_store writing later text fs'
  ]

  abbrev pub tone_alone : Spec
  tone_alone = record { segments = s.tone ∷ []; repeat = s.repeat }

  abbrev pub spoken_or_tone : Spoken (Result SpeechError Bytes) → Spoken Spec
  spoken_or_tone r = elim r.result [
    | err e ↦ record { result = tone_alone; folder = r.folder; counts = r.counts ++ fell_back ∷ [] }
    | ok path ↦ record {
      result = record { segments = s.tone ∷ path ∷ []; repeat = s.repeat };
      folder = r.folder;
      counts = r.counts;
    }
  ]

  -- `Speak`.
  unfoldable pub speak : Writing → ℕ → ℕ → WebhookPayload → List File → Spoken Spec
  speak writing now later payload fs =
      if s.synth.disabled
      then record { result = tone_alone; folder = fs; counts = [] }
      else spoken_or_tone (speech writing now later payload fs)
