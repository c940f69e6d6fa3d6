-- ===== src/Tts/Build/Promises.antt =====
-- What holds of every speaker that is built.
use tgpager.Base.{
  ◌≡◌, ◌⊎◌, inl, inr, refl, ap, sym, ◌∙◌, true, [], Option, none, some, Bytes, ℤ, pos, Result, ok,
  err, bind_ok, ok_unique, arith, Option-cases,
}
use mathlib.Core.Path.{subst}
use tgpager.Config.Load.{Tts}
use tgpager.Tts.Synthesizer.{Synthesizer, disabled_synthesizer, IsSound}
use tgpager.Tts.Command.{new_command, command_synthesizer}
use tgpager.Tts.Command.Contract.{command-IsSound}
use tgpager.Tts.OpenAi.{new_open_ai, open_ai_synthesizer}
use tgpager.Tts.OpenAi.Contract.{open_ai-IsSound}
use tgpager.Tts.Cache.{Cache, new_cache_with}
use tgpager.Telemetry.{MeterProvider}
use tgpager.Tts.Speaker.{Speaker, SpeakerError, new_speaker}
use tgpager.Tts.Speaker.Playable.{IsReady, new_speaker-IsReady}
use tgpager.Tts.Build.{
  Site, BuildError, Built, Template, open_ai_options, command_options, as_provider, as_cache,
  as_speaker, new_template, new_synthesizer, build,
}

new_synthesizer-IsSound :
    (site : Site) (cfg : Tts) (s : Synthesizer) → new_synthesizer site cfg ≡ ok s → IsSound s
unfolding new_synthesizer
new_synthesizer-IsSound site cfg s h = elim (Option-cases cfg.provider.open_ai) [
  | inr (p, e) ↦
      let (o, made, same) =
        bind_ok (as_provider (new_open_ai site.in_range (open_ai_options p cfg.timeout)))
          (λ o. ok (open_ai_synthesizer o site.endpoint)) s
          (sym (rw (e, new_synthesizer) refl) ∙ h) in
      subst IsSound
        (ok_unique {E = BuildError} (ok (open_ai_synthesizer o site.endpoint)) refl same)
        (open_ai-IsSound o site.endpoint)
  | inl e ↦ elim (Option-cases cfg.provider.command) [
    | inr (p, f) ↦
        let (c, made, same) =
          bind_ok (as_provider (new_command (command_options p cfg.timeout)))
            (λ c. ok (command_synthesizer c site.machine)) s
            (sym (rw (e, new_synthesizer) (rw (f, new_synthesizer) refl)) ∙ h) in
        subst IsSound
          (ok_unique {E = BuildError} (ok (command_synthesizer c site.machine)) refl same)
          (command-IsSound c site.machine)
    | inl f ↦ absurd (ground arith)
  ]
]

pub as_speaker_ok : (r : Result SpeakerError Speaker) (s : Speaker) → as_speaker r ≡ ok s → r ≡ ok s
as_speaker_ok (ok a) s h = ap ok (ok_unique (as_speaker (ok a)) refl h)
as_speaker_ok (err e) s h = absurd (ground arith)

new_speaker_synth :
    (mp : Option (MeterProvider Bytes)) (synth : Synthesizer) (cache : Option Cache) (tone : Bytes)
    (repeat : ℤ) (s : Speaker)
    → new_speaker mp synth cache tone repeat ≡ ok s
    → s.synth ≡ synth
unfolding new_speaker
new_speaker_synth mp synth none tone repeat s h = ground arith
new_speaker_synth mp synth (some c) tone repeat s h = ground arith

-- What a built speaker keeps.
abbrev pub Keeps : Speaker → Type 0
Keeps s = IsReady s × ((s.synth.disabled ≡ true) ⊎ IsSound s.synth)

made-Keeps :
    (mp : Option (MeterProvider Bytes)) (synth : Synthesizer) (cache : Option Cache) (tone : Bytes)
    (repeat : ℤ) (s : Speaker)
    → as_speaker (new_speaker mp synth cache tone repeat) ≡ ok s
    → (synth.disabled ≡ true) ⊎ IsSound synth
    → Keeps s
made-Keeps mp synth cache tone repeat s h kept =
    let made = as_speaker_ok (new_speaker mp synth cache tone repeat) s h in
    (
      new_speaker-IsReady mp synth cache tone repeat s made,
      subst (λ y. (y.disabled ≡ true) ⊎ IsSound y)
          (sym (new_speaker_synth mp synth cache tone repeat s made)) kept,
    )

pub built_speaker :
    (s : Speaker) (t : Template) (b : Built) (r : Result BuildError Built)
    → r ≡ ok (record { speaker = s; template = t })
    → r ≡ ok b
    → b.speaker ≡ s
built_speaker s t b r e h = ground arith

-- Every speaker that is built from a configuration has a tone and at least one repetition; and its
-- provider, unless there is none, returns only audio that is not empty and has the announced format.
pub build-Keeps :
    (site : Site) (cfg : Option Tts) (tone : Bytes) (b : Built)
    → build site cfg tone ≡ ok b
    → Keeps b.speaker
unfolding build
build-Keeps site none tone b h =
    let (s, made, rest) =
      bind_ok (as_speaker (new_speaker site.meter disabled_synthesizer none tone (pos 1))) _ b h in
    let (t, parsed, same) = bind_ok (new_template site []) _ b rest in
    subst Keeps (sym (built_speaker s t b _ refl same))
      (made-Keeps site.meter disabled_synthesizer none tone (pos 1) s made (inl refl))
build-Keeps site (some cfg) tone b h =
    let (synth, sound, h1) = bind_ok (new_synthesizer site cfg) _ b h in
    let (cache, cached, h2) =
      bind_ok
        (as_cache (new_cache_with site.makes_dir cfg.cache.dir cfg.cache.ttl cfg.cache.max_bytes)) _
        b h1 in
    let (t, parsed, h3) = bind_ok (new_template site cfg.template) _ b h2 in
    let (s, made, same) =
      bind_ok (as_speaker (new_speaker site.meter synth (some cache) tone cfg.repeat)) _ b h3 in
    subst Keeps (sym (built_speaker s t b _ refl same)) (
      made-Keeps site.meter synth (some cache) tone cfg.repeat s made
        (inr (new_synthesizer-IsSound site cfg synth sound)))
