-- ===== src/Tts/Build/Settings.antt =====
-- The settings of a speaker that is built.
use tgpager.Base.{
  Bool, ◌≡◌, ◌⊎◌, inl, inr, refl, ap, sym, ◌∙◌, true, [], Option, none, some, Bytes, ℤ, pos, negsuc,
  leb_ℤ, ok, bind_ok, ok_unique, arith, Option-cases, if◌then◌else◌,
}
use mathlib.Core.Path.{subst}
use tgpager.Config.Load.{Tts, OpenAiTts, CommandTts}
use tgpager.Config.Schema.{tts_admits, between}
use tgpager.Tts.Synthesizer.{Synthesizer, disabled_synthesizer}
use tgpager.Tts.Command.{CommandOptions, new_command, command_synthesizer}
use tgpager.Tts.OpenAi.{OpenAiOptions, new_open_ai, open_ai_synthesizer}
use tgpager.Tts.Cache.{Cache, new_cache_with}
use tgpager.Telemetry.{MeterProvider}
use tgpager.Tts.Speaker.{Speaker, new_speaker}
use tgpager.Tts.Build.Promises.{as_speaker_ok, built_speaker}
use tgpager.Tts.Build.{
  Site, BuildError, Built, open_ai_options, command_options, speed_text, as_provider, as_cache,
  as_speaker, new_template, new_synthesizer, build,
}

-- The provider over HTTP has the settings of the configuration.
abbrev pub AsksFor : OpenAiTts → OpenAiOptions → Type 0
AsksFor p o =
    (o.model ≡ p.model)
    × (o.voice ≡ p.voice)
    × (o.instructions ≡ p.instructions)
    × (o.speed ≡ speed_text p.speed)
    × (o.api_key ≡ p.api_key.value)

abbrev pub IsProvider : Site → Tts → Synthesizer → Type 0
IsProvider site t s =
    ((p : OpenAiTts) × (o : OpenAiOptions) × (t.provider.open_ai ≡ some p)
      × (s ≡ open_ai_synthesizer o site.endpoint)
      × AsksFor p o)
    ⊎ ((p : CommandTts) × (c : CommandOptions) × (t.provider.command ≡ some p)
        × (s ≡ command_synthesizer c site.machine)
        × (c.name ≡ p.name)
        × (c.args ≡ p.args))

-- What the speaker is: without a section for speech it plays the tone once; and else it has the provider,
-- the cache and the repetitions of the section.
abbrev pub Speaks : Site → Option Tts → Bytes → Speaker → Type 0
Speaks site none tone s = (s.tone ≡ tone) × (s.synth.disabled ≡ true) × (s.repeat ≡ pos 1)
Speaks site (some t) tone s =
    (s.tone ≡ tone)
    × IsProvider site t s.synth
    × (s.repeat ≡ t.repeat)
    × (s.cache.dir ≡ t.cache.dir)
    × (pos s.cache.ttl ≡ t.cache.ttl)
    × (pos s.cache.max_bytes ≡ t.cache.max_bytes)

new_open_ai-AsksFor :
    (site : Site) (p : OpenAiTts) (timeout : ℤ) (o : OpenAiOptions)
    → as_provider (new_open_ai site.in_range (open_ai_options p timeout)) ≡ ok o
    → AsksFor p o
unfolding new_open_ai
new_open_ai-AsksFor site p timeout o h =
    (ground arith, ground arith, ground arith, ground arith, ground arith)

new_command_keeps :
    (p : CommandTts) (timeout : ℤ) (c : CommandOptions)
    → as_provider (new_command (command_options p timeout)) ≡ ok c
    → (c.name ≡ p.name) × (c.args ≡ p.args)
unfolding new_command
new_command_keeps p timeout c h = (ground arith, ground arith)

new_synthesizer-IsProvider :
    (site : Site) (cfg : Tts) (s : Synthesizer)
    → new_synthesizer site cfg ≡ ok s
    → IsProvider site cfg s
unfolding new_synthesizer
new_synthesizer-IsProvider site cfg s h = elim (Option-cases cfg.provider.open_ai) [
  | inr (p, e) ↦
      let (o, made, same) =
        bind_ok (as_provider (new_open_ai site.in_range (open_ai_options p cfg.timeout)))
          (λ o. ok (open_ai_synthesizer o site.endpoint)) s
          (sym (rw (e, new_synthesizer) refl) ∙ h) in
      inl (
        p,
        o,
        e,
        ok_unique {E = BuildError} (ok s) refl (sym same),
        new_open_ai-AsksFor site p cfg.timeout o made,
      )
  | inl e ↦ elim (Option-cases cfg.provider.command) [
    | inr (p, f) ↦
        let (c, made, same) =
          bind_ok (as_provider (new_command (command_options p cfg.timeout)))
            (λ c. ok (command_synthesizer c site.machine)) s
            (sym (rw (e, new_synthesizer) (rw (f, new_synthesizer) refl)) ∙ h) in
        let (name, args) = new_command_keeps p cfg.timeout c made in
        inr (p, c, f, ok_unique {E = BuildError} (ok s) refl (sym same), name, args)
    | inl f ↦ absurd (ground arith)
  ]
]

new_cache_keeps :
    (made : Bool) (dir : Bytes) (ttl max_bytes : ℤ) (cache : Cache)
    → as_cache (new_cache_with made dir ttl max_bytes) ≡ ok cache
    → (cache.dir ≡ dir) × (pos cache.ttl ≡ ttl) × (pos cache.max_bytes ≡ max_bytes)
unfolding new_cache_with
new_cache_keeps made dir (negsuc t) b cache h = absurd (ground arith)
new_cache_keeps made dir (pos t) (negsuc b) cache h = absurd (ground arith)
new_cache_keeps made dir (pos t) (pos b) cache h = (ground arith, ground arith, ground arith)

new_speaker_keeps :
    (mp : Option (MeterProvider Bytes)) (synth : Synthesizer) (cache : Cache) (tone : Bytes)
    (repeat : ℤ) (s : Speaker)
    → new_speaker mp synth (some cache) tone repeat ≡ ok s
    → (s.tone ≡ tone)
      × (s.synth ≡ synth)
      × (s.cache ≡ cache)
      × (s.repeat ≡ (if leb_ℤ (pos 1) repeat then repeat else pos 1))
unfolding new_speaker
new_speaker_keeps mp synth cache tone repeat s h =
    (ground arith, ground arith, ground arith, ground arith)

new_speaker_silent :
    (mp : Option (MeterProvider Bytes)) (tone : Bytes) (s : Speaker)
    → new_speaker mp disabled_synthesizer none tone (pos 1) ≡ ok s
    → (s.tone ≡ tone) × (s.synth.disabled ≡ true) × (s.repeat ≡ pos 1)
unfolding new_speaker
new_speaker_silent mp tone s h = (ground arith, ground arith, ground arith)

at_least_once : (v : ℤ) → between 1 10 v ≡ true → (if leb_ℤ (pos 1) v then v else pos 1) ≡ v
at_least_once v h = ground arith

repeat_admitted :
    (in_range : Bytes → Bool) (t : Tts)
    → tts_admits in_range t ≡ true
    → between 1 10 t.repeat ≡ true
unfolding tts_admits
repeat_admitted in_range t h = ground arith

-- A speaker that is built from a configuration that the descriptors admit has its settings.
pub build-Speaks :
    (site : Site) (cfg : Option Tts) (tone : Bytes) (b : Built)
    → elim cfg [ none ↦ true | some t ↦ tts_admits site.in_range t ] ≡ true
    → build site cfg tone ≡ ok b
    → Speaks site cfg tone b.speaker
unfolding build
build-Speaks site none tone b a h =
    let (s, made, rest) =
      bind_ok (as_speaker (new_speaker site.meter disabled_synthesizer none tone (pos 1))) _ b h in
    let (t, parsed, same) = bind_ok (new_template site []) _ b rest in
    subst (Speaks site none tone) (sym (built_speaker s t b _ refl same))
      (new_speaker_silent site.meter tone s (as_speaker_ok _ s made))
build-Speaks site (some cfg) tone b a h =
    let (synth, sound, h1) = bind_ok (new_synthesizer site cfg) _ b h in
    let (cache, cached, h2) =
      bind_ok
        (as_cache (new_cache_with site.makes_dir cfg.cache.dir cfg.cache.ttl cfg.cache.max_bytes)) _
        b h1 in
    let (t, parsed, h3) = bind_ok (new_template site cfg.template) _ b h2 in
    let (s, made, same) =
      bind_ok (as_speaker (new_speaker site.meter synth (some cache) tone cfg.repeat)) _ b h3 in
    let (tones, voices, stores, repeats) =
      new_speaker_keeps site.meter synth cache tone cfg.repeat s (as_speaker_ok _ s made) in
    let (dir, ttl, bytes) =
      new_cache_keeps site.makes_dir cfg.cache.dir cfg.cache.ttl cfg.cache.max_bytes cache cached in
    subst (Speaks site (some cfg) tone) (sym (built_speaker s t b _ refl same)) (
      tones,
      subst (IsProvider site cfg) (sym voices) (new_synthesizer-IsProvider site cfg synth sound),
      repeats ∙ at_least_once cfg.repeat (repeat_admitted site.in_range cfg a),
      ap (λ c. c.dir) stores ∙ dir,
      ap (λ (c : Cache). pos c.ttl) stores ∙ ttl,
      ap (λ (c : Cache). pos c.max_bytes) stores ∙ bytes,
    )
