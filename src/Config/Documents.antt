-- ===== src/Config/Documents.antt =====
-- The documentation of the configuration: `Reference` and `JSONSchema` of internal/config/config.go, and
-- internal/config/gen/main.go, which writes them. The generators of the figureout library are given by
-- what they return for the descriptor.
pub mod Tests
use tgpager.Base.{
  ◌≡◌, ◌≢◌, refl, ap, sym, ◌∙◌, ◌⊎◌, inl, inr, List, [], ◌∷◌, ◌++◌, Option, none, some, Bytes,
  codes, Result, ok, err, arith, Option-cases, Result-cases,
}
use tgpager.Strings.{wrap_text}

abbrev pub wrapped : Bytes → Result Bytes Bytes → Result Bytes Bytes
wrapped m (ok page) = ok page
wrapped m (err e) = err (wrap_text m e)

-- `Reference`.
unfoldable pub reference : Result Bytes Bytes → Result Bytes Bytes
reference generated = wrapped (codes "generate reference") generated

-- `JSONSchema`.
unfoldable pub json_schema : Result Bytes Bytes → Result Bytes Bytes
json_schema generated = wrapped (codes "generate json schema") generated

-- The files that were written, the last one last, and the error that `fail` prints before it exits with 1.
pub record Written : Type 0 where
  pub files : List (Bytes × Bytes)
  pub failure : Option Bytes

-- `os.WriteFile` and what comes after it; a file whose writing fails is not counted.
abbrev pub write_then : (Bytes → Bytes → Option Bytes) → Bytes → Bytes → Written → Written
write_then write path text rest = elim (write path text) [
  | some e ↦ record { files = []; failure = some e }
  | none ↦ record rest { files = (path, text) ∷ rest.files }
]

module _ (docs schema : Result Bytes Bytes) (write : Bytes → Bytes → Option Bytes)
    (out schema_out : Bytes) where
  -- `main` behind the reference page.
  unfoldable pub write_schema : Written
  unfolding json_schema
  write_schema = elim (json_schema schema) [
    | err e ↦ record { files = []; failure = some e }
    | ok text ↦ write_then write schema_out text (record { files = []; failure = none })
  ]

  -- `main`, with its two flags.
  unfoldable pub generate : Written
  unfolding reference write_schema
  generate = elim (reference docs) [
    | err e ↦ record { files = []; failure = some e }
    | ok page ↦ write_then write out page write_schema
  ]

  -- Both files were written, each with what was generated for it.
  abbrev pub Complete : Type 0
  Complete =
      (page : Bytes) × (text : Bytes) × (docs ≡ ok page)
      × (schema ≡ ok text)
      × (write out page ≡ none)
      × (write schema_out text ≡ none)
      × (generate ≡ record { files = (out, page) ∷ (schema_out, text) ∷ []; failure = none })

  -- It failed before the page was written, or behind it.
  abbrev pub Broken : Type 0
  Broken =
      (e : Bytes) × (generate.failure ≡ some e)
      × ((generate.files ≡ [])
          ⊎ ((page : Bytes) × (docs ≡ ok page) × (generate.files ≡ (out, page) ∷ [])))

  schema_cases : (page : Bytes) → docs ≡ ok page → write out page ≡ none → Complete ⊎ Broken
  unfolding generate
  schema_cases page d w = elim (Result-cases schema) [
    | inr (e, s) ↦ inr (
      wrap_text (codes "generate json schema") e,
      simp (d, w, s, write_then) refl,
      inr (page, d, simp (d, w, s, write_then) refl),
    )
    | inl (text, s) ↦ elim (Option-cases (write schema_out text)) [
      | inr (e, v) ↦
          inr (
            e,
            simp (d, w, s, v, write_then) refl,
            inr (page, d, simp (d, w, s, v, write_then) refl),
          )
      | inl v ↦ inl (page, text, d, s, w, v, simp (d, w, s, v, write_then) refl)
    ]
  ]

  -- Generating the documentation succeeds only with both files written, the reference page first and the
  -- schema behind it, each with the text generated for it; it fails with no file written, or with the
  -- reference page alone.
  pub generate_cases : Complete ⊎ Broken
  unfolding generate
  generate_cases = elim (Result-cases docs) [
    | inr (e, d) ↦
        inr (wrap_text (codes "generate reference") e, simp (d) refl, inl (simp (d) refl))
    | inl (page, d) ↦ elim (Option-cases (write out page)) [
      | inr (e, w) ↦ inr (e, simp (d, w, write_then) refl, inl (simp (d, w, write_then) refl))
      | inl w ↦ schema_cases page d w
    ]
  ]
