-- ===== src/Main/Startup/Checked/Cached.antt =====
-- A check that finds its sample alert in the cache, `runCheck` of cmd/tgpager/main.go with `Preflight` of
-- internal/tts/speaker.go.
use tgpager.Base.{ℕ, suc, ◌≡◌, refl, ◌∙◌, ap, true, false, List, [], ◌∷◌, Option, none, Bytes, ok}
use tgpager.Config.Load.{Config}
use tgpager.Tts.Cache.{File, lookup}
use tgpager.Tts.Speaker.{Surroundings, Speaker, render, name_of, hit, SpeechError}
use tgpager.Tts.Speaker.Again.{speech_found}
use tgpager.Tts.Build.{Site, Built, build}
use tgpager.Tts.Preflight.{Moment, attempt_at, preflight, preflight_loop, preflight_payload}
use tgpager.Tts.Preflight.Warm.{preflight_on}
use tgpager.Main.Startup.{unmetered, run_check}

module _ (env : Surroundings) (s : Speaker) (moments : ℕ → Moment) (fs : List File)
    (text : Bytes) where
  -- The sentence of the sample alert is found by the first attempt.
  abbrev pub IsCached : Type 0
  IsCached =
      (lookup env.disk s.cache (name_of env s text s.synth.format) (moments 1).now fs).1 ≡ true

  attempt_found :
      render (env.execute preflight_payload) ≡ ok text
      → IsCached
      → ((attempt_at env s moments 1 fs).result
          ≡ ok (env.join_path s.cache.dir (name_of env s text s.synth.format)))
        × ((attempt_at env s moments 1 fs).counts ≡ hit ∷ [])
  attempt_found r found =
      let m = moments 1 in
      let e =
        speech_found env (record s { synth = record (s.synth) { synthesize = m.answer } })
          preflight_payload text m.writing m.now m.later fs r found in
      (ap (λ t. t.result) e, ap (λ t. t.counts) e)

  loop_found :
      (left n : ℕ) (last : Option SpeechError) (path : Bytes)
      → (attempt_at env s moments n fs).result ≡ ok path
      → preflight_loop env s moments (suc left) n last fs ≡ record {
        result = ok tt;
        folder = (attempt_at env s moments n fs).folder;
        counts = (attempt_at env s moments n fs).counts;
      }
  unfolding preflight_loop
  loop_found left n last path o = rw (o, preflight_loop) refl

  preflight_found :
      render (env.execute preflight_payload) ≡ ok text
      → IsCached
      → s.synth.disabled ≡ false
      → ((preflight env s moments fs).result ≡ ok tt)
        × ((preflight env s moments fs).counts ≡ hit ∷ [])
  preflight_found r found on =
      let (answered, counted) = attempt_found r found in
      let looped =
        preflight_on env s moments fs on
        ∙ loop_found 2 1 none (env.join_path s.cache.dir (name_of env s text s.synth.format))
            answered in
      (ap (λ t. t.result) looped, ap (λ t. t.counts) looped ∙ counted)

-- A check passes whatever the provider would answer, with no call of it (the count is one hit), if the
-- speaker is built, has a provider, and finds the sentence of the sample alert in its cache at the first
-- attempt.
pub run_check_cached :
    (site : Site) (stat : Bytes → Option Bytes) (env : Surroundings) (moments : ℕ → Moment)
    (fs : List File) (cfg : Config) (b : Built) (text : Bytes)
    → stat cfg.audio ≡ none
    → build (unmetered site) cfg.tts cfg.audio ≡ ok b
    → b.speaker.synth.disabled ≡ false
    → render (b.template preflight_payload) ≡ ok text
    → IsCached (record env { execute = b.template }) b.speaker moments fs text
    → (run_check site stat env moments fs cfg ≡ ok tt)
      × ((preflight (record env { execute = b.template }) b.speaker moments fs).counts ≡ hit ∷ [])
unfolding run_check
run_check_cached site stat env moments fs cfg b text there made on r found =
    let (passed, counted) =
      preflight_found (record env { execute = b.template }) b.speaker moments fs text r found on in
    (simp (there, made, passed, run_check) refl, counted)
