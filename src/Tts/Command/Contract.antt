-- ===== src/Tts/Command/Contract.antt =====
-- The command of internal/tts/command.go, against the interface of providers.
use tgpager.Base.{
  ◌≡◌, ◌≢◌, refl, ap, sym, ◌∙◌, ◌++◌, [], Bytes, codes, ok, arith, Result-cases, Option-cases, inl,
  inr, if◌then◌else◌,
}
use tgpager.Tts.Synthesizer.{Audio, IsSound, validated_lem}
use tgpager.Tts.Command.{
  CommandOptions, Substituted, substitute, invocation, Exit, Machine, collect, command_synthesize,
  command_synthesizer,
}

collect_lem :
    (opts : CommandOptions) (s : Substituted) (x : Exit) (out : Audio)
    → collect opts s x ≡ ok out
    → (out.audio ≢ []) × (out.format ≡ opts.format)
unfolding collect
collect_lem opts s x out h = elim (Option-cases x.failure) [
  | inr (e, f) ↦ absurd (ground arith)
  | inl f ↦ elim (Result-cases (if s.wants_file then x.file else ok x.stdout)) [
    | inr (e, r) ↦ absurd (ground arith)
    | inl (audio, r) ↦
        let (same, filled) =
          validated_lem (record { audio = audio; format = opts.format }) out (ground arith) in
        (rw same filled, ap (λ a. a.format) same)
  ]
]

synthesized :
    (opts : CommandOptions) (m : Machine) (text : Bytes) (out : Audio)
    → (command_synthesize opts m text).0 ≡ ok out
    → (out.audio ≢ []) × (out.format ≡ opts.format)
unfolding command_synthesize
synthesized opts m text out h = elim (Result-cases m.make_dir) [
  | inr (e, d) ↦ absurd (ground arith)
  | inl (dir, d) ↦
      let s = substitute text (m.join_path dir (codes "speech." ++ opts.format)) opts.args in
      let same : (command_synthesize opts m text).0
          ≡ collect opts s (m.run (invocation opts text s)) =
        rw (d, command_synthesize) refl in
      collect_lem opts s (m.run (invocation opts text s)) out (sym same ∙ h)
]

pub command-IsSound : (opts : CommandOptions) (m : Machine) → IsSound (command_synthesizer opts m)
command-IsSound opts m = record {
  some_audio = λ text out h. (synthesized opts m text out h).0;
  announced = λ text out h. (synthesized opts m text out h).1;
}
