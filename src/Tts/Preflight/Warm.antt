-- ===== src/Tts/Preflight/Warm.antt =====
-- When Preflight succeeds.
use tgpager.Base.{
  ℕ, zero, suc, ◌+◌, ◌<◌, ◌≡◌, ◌⊎◌, inl, inr, refl, false, List, Option, none, some, Bytes, Result,
  ok, err, arith, Result-cases, Option-cases,
}
use tgpager.Tts.Cache.{File}
use tgpager.Tts.Speaker.{SpeechError, Speaker, Surroundings}
use tgpager.Tts.Preflight.{
  Moment, PreflightError, preflight_cancelled, preflight_attempts, attempt_at, last_failure,
  preflight_loop, preflight,
}

module _ (env : Surroundings) (s : Speaker) (moments : ℕ → Moment) where
  -- The attempts from `n` up to `m`, which is left out, fail one after another, the context alive; the
  -- directory goes from the first index to the last one, and so does the error of the last failure.
  pub data Failing (n : ℕ) (fs : List File) (last : Option SpeechError)
      : ℕ → List File → Option SpeechError → Type 0 where
    start : Failing n fs last n fs last
    again :
        {m : ℕ} {gs : List File} {x : Option SpeechError} {e : SpeechError}
        → Failing n fs last m gs x
        → (attempt_at env s moments m gs).result ≡ err e
        → (moments m).cancelled ≡ none
        → Failing n fs last (suc m) ((attempt_at env s moments m gs).folder) (some e)

  first_fails :
      {n : ℕ} {fs : List File} {last : Option SpeechError} {e : SpeechError} {m : ℕ}
      {gs : List File} {x : Option SpeechError}
      → (attempt_at env s moments n fs).result ≡ err e
      → (moments n).cancelled ≡ none
      → Failing (suc n) ((attempt_at env s moments n fs).folder) (some e) m gs x
      → Failing n fs last m gs x
  first_fails f c start = again start f c
  first_fails f c (again r g d) = again (first_fails f c r) g d

  -- How the loop ends at attempt `m`, at most `left` attempts from `n` on.
  abbrev pub Ended :
      ℕ → ℕ → ℕ → List File → Option SpeechError → Result PreflightError (Unit {0}) → Type 0
  Ended left n m gs x r =
      ((m < n + left)
        × (path : Bytes) × ((attempt_at env s moments m gs).result ≡ ok path)
        × (r ≡ ok tt))
      ⊎ ((m < n + left)
          × (e : SpeechError) × ((attempt_at env s moments m gs).result ≡ err e)
          × (c : Bytes) × ((moments m).cancelled ≡ some c)
          × (r ≡ err (preflight_cancelled c)))
      ⊎ ((m ≡ n + left) × (r ≡ last_failure env s moments x))

  abbrev pub Ends :
      ℕ → ℕ → Option SpeechError → List File → Result PreflightError (Unit {0}) → Type 0
  Ends left n last fs r =
      (m : ℕ) × (gs : List File) × (x : Option SpeechError) × Failing n fs last m gs x
      × Ended left n m gs x r

  later :
      (left n m : ℕ) (gs : List File) (x : Option SpeechError)
      (r : Result PreflightError (Unit {0}))
      → Ended left (suc n) m gs x r
      → Ended (suc left) n m gs x r
  later left n m gs x r d = elim d [
    | inl (lt, path, o, z) ↦ inl (omega arith, path, o, z)
    | inr (inl (lt, e, o, c, k, z)) ↦ inr (inl (omega arith, e, o, c, k, z))
    | inr (inr (eq, z)) ↦ inr (inr (omega arith, z))
  ]

  loop-Ends :
      (left n : ℕ) (last : Option SpeechError) (fs : List File)
      → Ends left n last fs (preflight_loop env s moments left n last fs).result
  loop-Ends zero n last fs =
      unfold preflight_loop in (n, fs, last, start, inr (inr (omega arith, refl)))
  loop-Ends (suc left) n last fs = elim (Result-cases (attempt_at env s moments n fs).result) [
    | inl (path, o) ↦ (
      n,
      fs,
      last,
      start,
      inl (omega arith, path, o, unfold preflight_loop in rw (o, preflight_loop) refl),
    )
    | inr (e, o) ↦ elim (Option-cases ((moments n).cancelled)) [
      | inr (c, k) ↦ (
        n,
        fs,
        last,
        start,
        inr (
            inl (
              omega arith,
              e,
              o,
              c,
              k,
              unfold preflight_loop in rw (o, preflight_loop) (rw (k, preflight_loop) refl),
            )),
      )
      | inl k ↦
          let (m, gs, x, failing, d) =
            loop-Ends left (suc n) (some e) ((attempt_at env s moments n fs).folder) in
          let same : (preflight_loop env s moments (suc left) n last fs).result
              ≡ (preflight_loop env s moments left (suc n) (some e)
                  ((attempt_at env s moments n fs).folder)).result =
            unfold preflight_loop in rw (o, preflight_loop) (rw (k, preflight_loop) refl) in
          rw same (m, gs, x, first_fails o k failing, later left n m gs x _ d)
    ]
  ]

  pub preflight_on :
      (fs : List File)
      → s.synth.disabled ≡ false
      → preflight env s moments fs ≡ preflight_loop env s moments preflight_attempts 1 none fs
  unfolding preflight
  preflight_on fs on = simp on

  -- How Preflight ends, for a speaker with a provider. Up to some attempt m all attempts fail, each on
  -- the directory that the one before it left, and the context lives; and either attempt m, the third
  -- at most, speaks, and Preflight succeeds; or attempt m fails and the context has ended, and its error
  -- is returned; or all three have failed, and the error of the last is returned.
  pub preflight-Ends :
      (fs : List File)
      → s.synth.disabled ≡ false
      → Ends preflight_attempts 1 none fs (preflight env s moments fs).result
  preflight-Ends fs on = rw (preflight_on fs on) (loop-Ends preflight_attempts 1 none fs)
