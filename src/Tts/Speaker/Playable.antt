-- ===== src/Tts/Speaker/Playable.antt =====
-- The specs that internal/tts/speaker.go gives, and the texts of template.go.
use mathlib.Core.Path.{subst}
use tgpager.Base.{
  ok_unique, ℕ, zero, suc, ◌≤◌, ◌<◌, ◌≡◌, ◌≢◌, ◌⊎◌, inl, inr, refl, sym, ◌∙◌, Bool, true, false,
  List, [], ◌∷◌, ◌++◌, Option, none, some, Bytes, codes, str_eq, str_eq_iff, length, take,
  length-take, ltb, ℤ, pos, ◌≤ℤ◌, Result, ok, arith, Bool-cases, Result-cases, Option-cases,
  if◌then◌else◌,
}
use tgpager.Alertmanager.{WebhookPayload}
use tgpager.Audio.Spec.{Spec, validate, validate_iff}
use tgpager.Spaces.{fields, join}
use tgpager.Telemetry.{MeterProvider}
use tgpager.Tts.Synthesizer.{Synthesizer}
use tgpager.Tts.Cache.{File, Writing, Cache, lookup, store, file_name}
use tgpager.Tts.Speaker.{
  SpeechError, render, max_text_bytes, Speaker, new_speaker, Spoken, Surroundings, name_of, path_of,
  synthesize_and_store, speech, tone_alone, spoken_or_tone, speak,
}

cut_filled :
    (n : ℕ) (text : Bytes)
    → 0 < n
    → text ≢ []
    → let cut = if ltb n (length text) then take n text else text in (cut ≢ []) × (length cut ≤ n)
cut_filled zero text k h = absurd (omega (arith, k))
cut_filled (suc n) [] k h = absurd (h refl)
cut_filled (suc n) (c ∷ s) k h = elim (Bool-cases (ltb (suc n) (length (c ∷ s)))) [
  | inl long ↦ rw long ((λ e. ground arith), omega (arith, length-take n s))
  | inr short ↦ rw short (h, ground arith)
]

-- Text that is rendered is not empty, and at most 1024 bytes long.
pub render_lem :
    (out : Option Bytes) (text : Bytes)
    → render out ≡ ok text
    → (text ≢ []) × (length text ≤ max_text_bytes)
unfolding render
render_lem none text h = absurd (ground arith)
render_lem (some out) text h =
    let joined = join (codes " ") (fields out) in
    elim (Bool-cases (str_eq joined [])) [
      | inl empty ↦ absurd (ground arith)
      | inr some_text ↦
          subst (λ u. (u ≢ []) × (length u ≤ max_text_bytes))
            (ok_unique (render (some out)) (rw some_text refl) h)
            (cut_filled max_text_bytes joined (omega arith)
              (λ e. ground (arith, str_eq_iff joined [])))
    ]

-- A tone that is not empty, and at least one repetition.
abbrev pub IsReady : Speaker → Type 0
IsReady s = (s.tone ≢ []) × (pos 1 ≤ℤ s.repeat)

pub new_speaker-IsReady :
    (mp : Option (MeterProvider Bytes)) (synth : Synthesizer) (cache : Option Cache) (tone : Bytes)
    (repeat : ℤ) (s : Speaker)
    → new_speaker mp synth cache tone repeat ≡ ok s
    → IsReady s
unfolding new_speaker
new_speaker-IsReady mp synth none tone repeat s h =
    ((λ e. ground (arith, str_eq_iff tone [])), ground arith)
new_speaker-IsReady mp synth (some c) tone repeat s h =
    ((λ e. ground (arith, str_eq_iff tone [])), ground arith)

append_filled : (xs : Bytes) (c : ℕ) (ys : Bytes) → xs ++ c ∷ ys ≢ []
append_filled [] c ys e = ground arith
append_filled (x ∷ xs) c ys e = ground arith

file_name-filled :
    (hash : Bytes → Bytes) (fp text format : Bytes) → file_name hash fp text format ≢ []
unfolding file_name
file_name-filled hash fp text format e = append_filled (hash (fp ++ 0 ∷ text)) b'.' format e

module _ (env : Surroundings) (s : Speaker)
    (join_filled : (d n : Bytes) → n ≢ [] → env.join_path d n ≢ []) where
  named : (text format : Bytes) → path_of env s text format ≢ []
  named text format =
      join_filled s.cache.dir (name_of env s text format)
        (file_name-filled env.hash s.synth.fingerprint text format)

  synthesized-path :
      (writing : Writing) (later : ℕ) (text : Bytes) (fs : List File) (path : Bytes)
      → (synthesize_and_store env s writing later text fs).result ≡ ok path
      → path ≢ []
  unfolding synthesize_and_store
  synthesized-path writing later text fs path h = elim (Result-cases (s.synth.synthesize text)) [
    | inr (e, q) ↦ absurd (ground arith)
    | inl (out, q) ↦
        elim (Option-cases
          (store env.disk env.sort s.cache writing (name_of env s text out.format) out.audio later
            fs).1) [
              | inr (w, failed) ↦ absurd (ground arith)
              | inl done ↦
                  subst (λ u. u ≢ [])
                    (ok_unique (synthesize_and_store env s writing later text fs).result
                      (rw (q, synthesize_and_store) (rw (done) refl)) h)
                    (named text out.format)
            ]
  ]

  speech-path :
      (writing : Writing) (now later : ℕ) (p : WebhookPayload) (fs : List File) (path : Bytes)
      → (speech env s writing now later p fs).result ≡ ok path
      → path ≢ []
  unfolding speech
  speech-path writing now later p fs path h = elim (Result-cases (render (env.execute p))) [
    | inr (e, r) ↦ absurd (ground arith)
    | inl (text, r) ↦
        elim (Bool-cases (lookup env.disk s.cache (name_of env s text s.synth.format) now fs).1) [
          | inl found ↦
              subst (λ u. u ≢ [])
                (ok_unique (speech env s writing now later p fs).result
                  (rw (r, speech) (rw found refl)) h)
                (named text s.synth.format)
          | inr missed ↦
              let fs' = (lookup env.disk s.cache (name_of env s text s.synth.format) now fs).0 in
              let same : (speech env s writing now later p fs).result
                  ≡ (synthesize_and_store env s writing later text fs').result =
                rw (r, speech) (rw missed refl) in
              synthesized-path writing later text fs' path (sym same ∙ h)
        ]
  ]

  alone : s.tone ≢ [] → pos 1 ≤ℤ s.repeat → validate (tone_alone env s) ≡ ok tt
  alone toned repeated =
      (validate_iff (tone_alone env s)).1
        (record { some_segments = λ e. ground arith; paths = (toned, tt); repeats = repeated })

  both :
      (path : Bytes)
      → s.tone ≢ []
      → path ≢ []
      → pos 1 ≤ℤ s.repeat
      → validate (record { segments = s.tone ∷ path ∷ []; repeat = s.repeat }) ≡ ok tt
  both path toned spoken repeated =
      (validate_iff (record { segments = s.tone ∷ path ∷ []; repeat = s.repeat })).1 (record {
        some_segments = λ e. ground arith;
        paths = (toned, (spoken, tt));
        repeats = repeated;
      })

  abbrev pub Plays : Spec → Type 0
  Plays spec =
      (validate spec ≡ ok tt)
      × (spec.repeat ≡ s.repeat)
      × ((spec.segments ≡ s.tone ∷ []) ⊎ ((path : Bytes) × (spec.segments ≡ s.tone ∷ path ∷ [])))

  plays :
      s.tone ≢ []
      → pos 1 ≤ℤ s.repeat
      → (r : Spoken (Result SpeechError Bytes)) → ((path : Bytes) → r.result ≡ ok path → path ≢ [])
      → Plays (spoken_or_tone env s r).result
  plays toned repeated r filled = elim (Result-cases r.result) [
    | inr (e, failed) ↦ rw (failed, spoken_or_tone) (alone toned repeated, refl, inl refl)
    | inl (path, spoken) ↦
        rw (spoken, spoken_or_tone)
          (both path toned (filled path spoken) repeated, refl, inr (path, refl))
  ]

  either :
      (b : Bool) (x y : Spoken Spec)
      → Plays x.result
      → Plays y.result
      → Plays (if b then x else y).result
  either true x y h k = h
  either false x y h k = k

  -- What is spoken by every speaker that has a tone and at least one repetition.
  pub ready-Plays :
      IsReady s
      → (writing : Writing) (now later : ℕ) (p : WebhookPayload) (fs : List File)
      → Plays (speak env s writing now later p fs).result
  unfolding speak
  ready-Plays (toned, repeated) writing now later p fs =
      either s.synth.disabled _ _ (alone toned repeated, refl, inl refl)
        (plays toned repeated (speech env s writing now later p fs)
          (speech-path writing now later p fs))

  -- Whatever fails, provided a path joined from a file name is not empty, a speaker that `NewSpeaker` makes gives a spec that `Validate` accepts: the tone,
  -- and behind it at most one file of speech, at the configured number of repetitions.
  pub speak-IsPlayable :
      (mp : Option (MeterProvider Bytes)) (synth : Synthesizer) (cache : Option Cache)
      (tone : Bytes) (repeat : ℤ)
      → new_speaker mp synth cache tone repeat ≡ ok s
      → (writing : Writing) (now later : ℕ) (p : WebhookPayload) (fs : List File)
      → Plays (speak env s writing now later p fs).result
  speak-IsPlayable mp synth cache tone repeat h =
      ready-Plays (new_speaker-IsReady mp synth cache tone repeat s h)
