-- ===== src/Main/Startup/Serves.antt =====
-- When `main` of cmd/tgpager/main.go serves, and what it does otherwise.
use tgpager.Base.{
  ◌≡◌, ◌≢◌, ◌↔◌, refl, ap, sym, ◌∙◌, false, Option, none, some, Bytes, ok, arith, Result-cases,
  Option-cases, Bool-cases, inl, inr,
}
use tgpager.Config.Load.{Config}
use tgpager.Main.Startup.{
  Flags, Program, Ending, signed_in, tested_voice, healthy, serves, ends_by, choose, main,
}

module _ (flags : Flags) (p : Program) where
  -- The part of a command never serves.
  command_ends :
      (o : Option Bytes) (done : Ending) (c : Config) → done ≢ serves c → ends_by o done ≢ serves c
  command_ends none done c d h = d h
  command_ends (some e) done c d h = ground arith

  choose_serves :
      (d c : Config)
      → choose flags p d ≡ serves c
      → (d ≡ c) × (flags.voice ≡ false) × (flags.check ≡ false)
  unfolding choose
  choose_serves d c h = elim (Bool-cases flags.voice) [
    | inl e ↦ absurd (
        command_ends (p.test_voice d) tested_voice c (λ x. ground arith)
          (sym (simp (e, choose) refl) ∙ h))
    | inr e ↦ elim (Bool-cases flags.check) [
      | inl f ↦ absurd (
          command_ends (p.test_speech d) healthy c (λ x. ground arith)
            (sym (simp (e, f, choose) refl) ∙ h))
      | inr f ↦ (ground arith, e, f)
    ]
  ]

  -- The program serves with a configuration exactly when it is the one that loads, none of the three
  -- commands is asked for, and its audio file is found.
  pub main-serves_iff :
      (c : Config)
      → (main flags p ≡ serves c) ↔ (
          (p.load ≡ ok c)
          × (p.stat c.audio ≡ none)
          × (flags.login ≡ false)
          × (flags.voice ≡ false)
          × (flags.check ≡ false))
  unfolding main choose
  main-serves_iff c = (there, back)
    where
      back :
          (p.load ≡ ok c)
            × (p.stat c.audio ≡ none)
            × (flags.login ≡ false)
            × (flags.voice ≡ false)
            × (flags.check ≡ false)
          → main flags p ≡ serves c
      back (l, s, a, b, d) = simp (l, s, a, b, d, main, choose) refl

      there :
          main flags p ≡ serves c
          → (p.load ≡ ok c)
            × (p.stat c.audio ≡ none)
            × (flags.login ≡ false)
            × (flags.voice ≡ false)
            × (flags.check ≡ false)
      there h = elim (Result-cases p.load) [
        | inr (e, l) ↦ absurd (ground arith)
        | inl (d, l) ↦ elim (Bool-cases flags.login) [
          | inl a ↦ absurd (
              command_ends (p.sign_in d.telegram) signed_in c (λ x. ground arith)
                (sym (simp (l, a, main) refl) ∙ h))
          | inr a ↦ elim (Option-cases (p.stat d.audio)) [
            | inr (e, s) ↦ absurd (ground arith)
            | inl s ↦
                let (same, v, k) = choose_serves d c (sym (simp (l, a, s, main) refl) ∙ h) in
                (l ∙ ap ok same, ap (λ x. p.stat x.audio) (sym same) ∙ s, a, v, k)
          ]
        ]
      ]
