-- ===== src/Main/Startup/Checked.antt =====
-- What a check that passes has shown, `runCheck` of cmd/tgpager/main.go.
pub mod Cached
pub mod Tests
use tgpager.Base.{
  ℕ, ◌<◌, ◌≡◌, ◌≢◌, ◌⊎◌, inl, inr, refl, sym, ◌∙◌, true, false, List, Option, none, some, Bytes,
  Result, ok, err, arith, bind_ok, Bool-cases, Option-cases, Result-cases,
}
use tgpager.Config.Load.{Config}
use tgpager.Tts.Cache.{File}
use tgpager.Tts.Speaker.{Surroundings, Speaker, SpeechError}
use tgpager.Tts.Build.{Site, Built, BuildError, build}
use tgpager.Tts.Build.Promises.{Keeps, build-Keeps}
use tgpager.Tts.Preflight.{Moment, PreflightError, attempt_at, preflight, last_failure}
use tgpager.Tts.Preflight.Warm.{Failing, start, again, Ends, preflight-Ends}
use tgpager.Main.Startup.{CheckError, unmetered, as_check, as_preflight, run_check}

Failing-fails :
    (env : Surroundings) (s : Speaker) (moments : ℕ → Moment) (n : ℕ) (fs : List File) (m : ℕ)
    (gs : List File) (x : Option SpeechError)
    → Failing env s moments n fs none m gs x
    → n < m
    → x ≢ none
Failing-fails env s moments n fs m gs x start lt = absurd (omega arith)
Failing-fails env s moments n fs m gs x (again r f c) lt = λ e. ground arith

module _ (env : Surroundings) (moments : ℕ → Moment) (fs : List File) (b : Built) where
  -- The template that is executed is the one that was parsed.
  abbrev pub with_template : Surroundings
  with_template = record env { execute = b.template }

  -- One of the first three attempts spoke the sample alert, after those before it had failed.
  abbrev pub HasSpoken : Type 0
  HasSpoken =
      (m : ℕ) × (gs : List File) × (x : Option SpeechError) × (path : Bytes) × Failing with_template
        b.speaker moments 1 fs none m gs x
      × (m < 4)
      × ((attempt_at with_template b.speaker moments m gs).result ≡ ok path)

  spoke_if_ok : Ends with_template b.speaker moments 3 1 none fs (ok tt) → HasSpoken
  spoke_if_ok (m, gs, x, f, d) = elim d [
    | inl (lt, path, o, z) ↦ (m, gs, x, path, f, omega arith, o)
    | inr (inl (lt, e, o, c, k, z)) ↦ absurd (ground arith)
    | inr (inr (eq, z)) ↦ elim (Option-cases x) [
      | inl y ↦ absurd (Failing-fails with_template b.speaker moments 1 fs m gs x f (omega arith) y)
      | inr (e, y) ↦ absurd (ground (arith, y, z))
    ]
  ]

  preflight_spoke :
      (preflight with_template b.speaker moments fs).result ≡ ok tt
      → (b.speaker.synth.disabled ≡ true) ⊎ HasSpoken
  preflight_spoke h = elim (Bool-cases b.speaker.synth.disabled) [
    | inl off ↦ inl off
    | inr on ↦ inr (spoke_if_ok (rw h at (preflight-Ends with_template b.speaker moments fs on)))
  ]

preflight_passes : (r : Result PreflightError (Unit {0})) → as_preflight r ≡ ok tt → r ≡ ok tt
preflight_passes (ok u) h = refl
preflight_passes (err e) h = absurd (ground arith)

build_passes : (r : Result BuildError Built) (b : Built) → as_check r ≡ ok b → r ≡ ok b
build_passes (ok c) b h = ground arith
build_passes (err e) b h = absurd (ground arith)

module _ (site : Site) (stat : Bytes → Option Bytes) (env : Surroundings) (moments : ℕ → Moment)
    (fs : List File) (cfg : Config) where
  -- If a check passes, the audio file is there and the speaker can be built, with a tone, at least one
  -- repetition, and a provider, if any, that returns only audio that is not empty and has the announced
  -- format; and unless speech is switched off, the sample alert was spoken in one of three attempts, all
  -- those before it having failed.
  pub run_check-Shows :
      run_check site stat env moments fs cfg ≡ ok tt
      → (stat cfg.audio ≡ none)
        × (b : Built) × (build (unmetered site) cfg.tts cfg.audio ≡ ok b)
        × Keeps b.speaker
        × ((b.speaker.synth.disabled ≡ true) ⊎ HasSpoken env moments fs b)
  unfolding run_check
  run_check-Shows h = elim (Option-cases (stat cfg.audio)) [
    | inr (e, s) ↦ absurd (ground arith)
    | inl s ↦
        let (b, made, passed) =
          bind_ok (as_check (build (unmetered site) cfg.tts cfg.audio))
            (λ b.
              as_preflight
                (preflight (record env { execute = b.template }) b.speaker moments fs).result)
            tt (sym (simp (s, run_check) refl) ∙ h) in
        let built = build_passes (build (unmetered site) cfg.tts cfg.audio) b made in
        (
          s,
          b,
          built,
          build-Keeps (unmetered site) cfg.tts cfg.audio b built,
          preflight_spoke env moments fs b (preflight_passes _ passed),
        )
  ]
