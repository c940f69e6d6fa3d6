-- ===== src/Tts/Build/Succeeds.antt =====
-- When `Build` of internal/tts/build.go succeeds.
use tgpager.Base.{
  ◌≡◌, inl, inr, refl, Bool, true, false, not, ◌&&◌, [], Option, none, some, Bytes, str_eq,
  str_eq_refl, ℤ, pos, Result, ok, err, ◌>>=◌, arith, Option-cases, if◌then◌else◌,
}
use tgpager.Spaces.{trim_space, trim_space-visible}
use tgpager.Config.Load.{
  OpenAiTts, CommandTts, TtsCache, TtsDialect, Tts, dialect_open_ai, dialect_open_router,
}
use tgpager.Config.Schema.{
  non_empty, open_ai_admits, command_admits, provider_admits, cache_admits, tts_admits,
}
use tgpager.Tts.Synthesizer.{Synthesizer, disabled_synthesizer}
use tgpager.Tts.Command.{new_command}
use tgpager.Tts.OpenAi.{new_open_ai, is_dialect, no_speed}
use tgpager.Tts.Cache.{Cache, new_cache_with}
use tgpager.Telemetry.{MeterProvider, MakesAll}
use tgpager.Tts.Metrics.{instrumentation_name, speaker_metrics, new_metrics}
use tgpager.Tts.Speaker.{new_speaker}
use tgpager.Tts.Build.{
  Site, default_template, open_ai_options, speed_text, command_options, dialect_text, as_provider,
  as_cache, as_speaker, new_template, new_synthesizer, build,
}

abbrev pub is_ok {ℓ κ} : {E : Type ℓ} {A : Type κ} → Result E A → Bool
is_ok (ok a) = true
is_ok (err e) = false

-- A chain succeeds if its first step does and the rest does for every result.
chain_is_ok {ℓ κ} :
    {E : Type ℓ} {A B : Type κ} (m : Result E A) (next : A → Result E B)
    → is_ok m ≡ true
    → ((a : A) → is_ok (next a) ≡ true)
    → is_ok (m >>= next) ≡ true
chain_is_ok (ok a) next e h = h a
chain_is_ok (err x) next e h = absurd (ground arith)

known_dialect : (d : TtsDialect) → is_dialect (dialect_text d) ≡ true
unfolding str_eq
known_dialect dialect_open_ai = refl
known_dialect dialect_open_router = refl

known_speed :
    (in_range : Bytes → Bool) (p : OpenAiTts)
    → open_ai_admits in_range p ≡ true
    → (not (str_eq (speed_text p.speed) no_speed) && not (in_range (speed_text p.speed))) ≡ false
unfolding open_ai_admits
known_speed in_range p h = elim (Option-cases p.speed) [
  | inl n ↦ rw n (rw (str_eq_refl no_speed) refl)
  | inr (s, e) ↦ rw e (ground arith)
]

is_ok-open_ai :
    (in_range : Bytes → Bool) (p : OpenAiTts) (timeout : ℤ)
    → open_ai_admits in_range p ≡ true
    → is_ok (as_provider (new_open_ai in_range (open_ai_options p timeout))) ≡ true
unfolding open_ai_admits new_open_ai
is_ok-open_ai in_range p timeout h =
    rw (known_dialect p.dialect, new_open_ai)
      (rw (known_speed in_range p h, new_open_ai) (ground arith))

is_ok-command :
    (p : CommandTts) (timeout : ℤ)
    → command_admits p ≡ true
    → is_ok (as_provider (new_command (command_options p timeout))) ≡ true
unfolding command_admits new_command
is_ok-command p timeout h = ground arith

is_ok-cache :
    (c : TtsCache)
    → cache_admits c ≡ true
    → is_ok (as_cache (new_cache_with true c.dir c.ttl c.max_bytes)) ≡ true
unfolding cache_admits new_cache_with
is_ok-cache c h = ground arith

is_ok-speaker :
    (mp : Option (MeterProvider Bytes)) (synth : Synthesizer) (cache : Cache) (tone : Bytes)
    (repeat : ℤ)
    → non_empty tone ≡ true
    → MakesAll mp
    → is_ok (as_speaker (new_speaker mp synth (some cache) tone repeat)) ≡ true
unfolding new_speaker new_metrics
is_ok-speaker mp synth cache tone repeat h makes = ground (
  arith,
  makes instrumentation_name speaker_metrics.requests,
  makes instrumentation_name speaker_metrics.fallback,
  makes instrumentation_name speaker_metrics.duration,
)

is_ok-silent :
    (mp : Option (MeterProvider Bytes)) (tone : Bytes)
    → non_empty tone ≡ true
    → MakesAll mp
    → is_ok (as_speaker (new_speaker mp disabled_synthesizer none tone (pos 1))) ≡ true
unfolding new_speaker new_metrics
is_ok-silent mp tone h makes = ground (
  arith,
  makes instrumentation_name speaker_metrics.requests,
  makes instrumentation_name speaker_metrics.fallback,
  makes instrumentation_name speaker_metrics.duration,
)

is_ok-synthesizer :
    (site : Site) (t : Tts)
    → provider_admits site.in_range t.provider ≡ true
    → is_ok (new_synthesizer site t) ≡ true
unfolding new_synthesizer provider_admits
is_ok-synthesizer site t h = elim (Option-cases t.provider.open_ai) [
  | inr (p, e) ↦
      rw (e, new_synthesizer)
        (chain_is_ok (as_provider (new_open_ai site.in_range (open_ai_options p t.timeout))) _
          (is_ok-open_ai site.in_range p t.timeout (ground arith)) (λ o. refl))
  | inl e ↦ elim (Option-cases t.provider.command) [
    | inr (p, f) ↦
        rw (e, new_synthesizer)
          (rw (f, new_synthesizer)
            (chain_is_ok (as_provider (new_command (command_options p t.timeout))) _
              (is_ok-command p t.timeout (ground arith)) (λ o. refl)))
    | inl f ↦ absurd (ground arith)
  ]
]

-- The template of a configuration, or the default one where it is blank.
abbrev pub template_text : Option Tts → Bytes
template_text none = default_template
template_text (some t) = if str_eq (trim_space t.template) [] then default_template else t.template

abbrev pub is_some : {A : Type 0} → Option A → Bool
is_some none = false
is_some (some a) = true

is_ok-template :
    (site : Site) (text : Bytes)
    → is_some (site.parse (if str_eq (trim_space text) [] then default_template else text)) ≡ true
    → is_ok (new_template site text) ≡ true
unfolding new_template
is_ok-template site text h = ground arith

-- What the descriptors admit is built, if the meters make every instrument, the directory of the cache can be made and the template, or the
-- default one in its place, can be parsed.
pub built_is_ok :
    (site : Site) (o : Option Tts) (tone : Bytes)
    → elim o [ none ↦ true | some t ↦ tts_admits site.in_range t ] ≡ true
    → non_empty tone ≡ true
    → site.makes_dir ≡ true
    → is_some (site.parse (template_text o)) ≡ true
    → MakesAll site.meter
    → is_ok (build site o tone) ≡ true
unfolding build tts_admits
built_is_ok site none tone h filled dir parsed makes =
    chain_is_ok (as_speaker (new_speaker site.meter disabled_synthesizer none tone (pos 1))) _
      (is_ok-silent site.meter tone filled makes)
      (λ s.
        chain_is_ok (new_template site []) _
          (is_ok-template site [] (rw (trim_space-visible [] tt) (rw (str_eq_refl []) parsed)))
          (λ t. refl))
built_is_ok site (some t) tone h filled dir parsed makes =
    chain_is_ok (new_synthesizer site t) _ (is_ok-synthesizer site t (ground arith)) λ synth.
      chain_is_ok
        (as_cache (new_cache_with site.makes_dir t.cache.dir t.cache.ttl t.cache.max_bytes)) _
        (rw dir (is_ok-cache t.cache (ground arith)))
        λ cache.
          chain_is_ok (new_template site t.template) _ (is_ok-template site t.template parsed) λ u.
            chain_is_ok (as_speaker (new_speaker site.meter synth (some cache) tone t.repeat)) _
              (is_ok-speaker site.meter synth cache tone t.repeat filled makes) λ s. refl
