-- ===== src/Audio/Stream/Render.antt =====
-- When `Render` of internal/audio/render.go succeeds.
use tgpager.Base.{
  ◌≡◌, ◌≢◌, ◌↔◌, refl, List, [], ◌∷◌, Option, none, some, Bytes, str_eq, str_eq_iff, str_eq-false,
  ok, arith, Result-cases, Bool-cases, inl, inr, ap, sym, ◌∙◌,
}
use tgpager.Audio.Spec.{Spec, validate, IsPlayable, validate_iff}
use tgpager.Audio.Compose.{render_args}
use tgpager.Audio.Stream.{finished, finish_ffmpeg, render_spec}

finished-finish_ffmpeg :
    (e : Option Bytes) (stderr : Bytes) → (finished (finish_ffmpeg e stderr) ≡ ok tt) ↔ (e ≡ none)
unfolding finish_ffmpeg
finished-finish_ffmpeg none stderr = ground arith
finished-finish_ffmpeg (some e) stderr = ground arith

module _ (run : List Bytes → Option Bytes × Bytes) (spec : Spec) (path : Bytes) where
  accepted :
      IsPlayable spec
      → path ≢ []
      → render_spec run spec path ≡ (
        finished (finish_ffmpeg (run (render_args spec path)).0 (run (render_args spec path)).1),
        render_args spec path ∷ [],
      )
  unfolding render_spec
  accepted p h = rw ((validate_iff spec).1 p, render_spec, str_eq-false path [] h) refl

  -- A rendering succeeds exactly when the spec is playable, there is a path to write to, and ffmpeg,
  -- run with the arguments for the two, exits with success.
  pub render_spec_iff :
      ((render_spec run spec path).0 ≡ ok tt)
      ↔ (IsPlayable spec × (path ≢ []) × ((run (render_args spec path)).0 ≡ none))
  unfolding render_spec
  render_spec_iff = (there, back)
    where
      back :
          IsPlayable spec × (path ≢ []) × ((run (render_args spec path)).0 ≡ none)
          → (render_spec run spec path).0 ≡ ok tt
      back (p, h, e) =
          ap (λ r. r.0) (accepted p h)
          ∙ (finished-finish_ffmpeg _ (run (render_args spec path)).1).1 e

      there :
          (render_spec run spec path).0 ≡ ok tt
          → IsPlayable spec × (path ≢ []) × ((run (render_args spec path)).0 ≡ none)
      there h = elim (Result-cases (validate spec)) [
        | inr (e, x) ↦ absurd (ground arith)
        | inl (u, x) ↦ elim (Bool-cases (str_eq path [])) [
          | inl empty ↦ absurd (ground arith)
          | inr named ↦
              let p = (validate_iff spec).0 x in
              let given : path ≢ [] = λ e. ground (arith, str_eq_iff path []) in
              (
                p,
                given,
                (finished-finish_ffmpeg _ (run (render_args spec path)).1).0
                    (ap (λ r. r.0) (sym (accepted p given)) ∙ h),
              )
        ]
      ]
