-- ===== src/Tts/Spans/Command.antt =====
-- The span of `Command.Synthesize` in internal/tts/command.go, and what it shows of the text and of the arguments.
use tgpager.Base.{
  ◌≡◌, refl, inl, inr, Result-cases, sym, ◌∙◌, List, [], ◌∷◌, ◌++◌, none, some, Bytes, codes,
  length, ok, err, if◌then◌else◌,
}
use tgpager.Tracing.{Attributes, string, number, flag, SpanDeed, traced}
use tgpager.Tts.Command.{
  CommandOptions, Machine, Substituted, Exit, substitute, invocation, collect, command_synthesize,
}

-- What is set behind the run: nothing if it failed or its output cannot be read.
unfoldable pub audio_attributes : Substituted → Exit → List Attributes
audio_attributes s x = elim x.failure [
  | some e ↦ []
  | none ↦ elim (if s.wants_file then x.file else ok x.stdout) [
    | err e ↦ []
    | ok audio ↦ ((codes "tts.audio_bytes", number (length audio)) ∷ []) ∷ []
  ]
]

abbrev pub flag_attributes : Substituted → Attributes
flag_attributes s =
    (codes "tts.text_via_args", flag s.wants_text)
    ∷ (codes "tts.output_via_file", flag s.wants_file)
    ∷ []

module _ (opts : CommandOptions) where
  abbrev pub command_attributes : Bytes → Attributes
  command_attributes text =
      (codes "tts.provider", string (codes "command"))
      ∷ (codes "tts.command", string opts.name)
      ∷ (codes "tts.text_bytes", number (length text))
      ∷ []

  module _ (m : Machine) (text : Bytes) where
    -- The arguments of a run in a directory.
    abbrev pub prepared : Bytes → Substituted
    prepared dir = substitute text (m.join_path dir (codes "speech." ++ opts.format)) opts.args

    -- How the run ends.
    abbrev pub exit_in : Bytes → Exit
    exit_in dir = m.run (invocation opts text (prepared dir))

    unfoldable pub command_settings : List Attributes
    command_settings = elim m.make_dir [
      | err e ↦ []
      | ok dir ↦ flag_attributes (prepared dir) ∷ audio_attributes (prepared dir) (exit_in dir)
    ]

    -- The span of `Synthesize`.
    unfoldable pub command_span : List (SpanDeed Bytes)
    command_span =
        traced (codes "tts.command.Synthesize") (command_attributes text) command_settings
          (command_synthesize opts m text).0

-- What a run shows, seen from outside: the flags and its exit.
abbrev pub LooksAlike : CommandOptions → CommandOptions → Machine → Bytes → Bytes → Type 0
LooksAlike o p m text other =
    (dir : Bytes)
    → ((prepared o m text dir).wants_text ≡ (prepared p m other dir).wants_text)
      × ((prepared o m text dir).wants_file ≡ (prepared p m other dir).wants_file)
      × (exit_in o m text dir ≡ exit_in p m other dir)

cons_alike : {A : Type 0} → {x y : A} → {xs ys : List A} → x ≡ y → xs ≡ ys → x ∷ xs ≡ y ∷ ys
cons_alike e f = cc

audio_attributes_alike :
    (s t : Substituted) (x y : Exit)
    → s.wants_file ≡ t.wants_file
    → x ≡ y
    → audio_attributes s x ≡ audio_attributes t y
unfolding audio_attributes
audio_attributes_alike s t x y w e = rw (w, e) refl

flag_attributes_alike :
    (s t : Substituted)
    → s.wants_text ≡ t.wants_text
    → s.wants_file ≡ t.wants_file
    → flag_attributes s ≡ flag_attributes t
flag_attributes_alike s t v w = rw (v, w) refl

collect_alike :
    (o p : CommandOptions) (s t : Substituted) (x y : Exit)
    → o.name ≡ p.name
    → o.format ≡ p.format
    → s.wants_file ≡ t.wants_file
    → x ≡ y
    → collect o s x ≡ collect p t y
unfolding collect
collect_alike o p s t x y n f w e = rw (n, f, w, e) refl

settings-made :
    (o : CommandOptions) (m : Machine) (text dir : Bytes)
    → m.make_dir ≡ ok dir
    → command_settings o m text
      ≡ flag_attributes (prepared o m text dir)
        ∷ audio_attributes (prepared o m text dir) (exit_in o m text dir)
unfolding command_settings
settings-made o m text dir e = rw e

synthesize-made :
    (o : CommandOptions) (m : Machine) (text dir : Bytes)
    → m.make_dir ≡ ok dir
    → (command_synthesize o m text).0 ≡ collect o (prepared o m text dir) (exit_in o m text dir)
unfolding command_synthesize
synthesize-made o m text dir e = rw e

module _ (o p : CommandOptions) (m : Machine) (text other : Bytes) where
  settings_alike :
      LooksAlike o p m text other → command_settings o m text ≡ command_settings p m other
  unfolding command_settings
  settings_alike alike = elim (Result-cases m.make_dir) [
    | inr (e, d) ↦ rw d refl
    | inl (dir, d) ↦
        let (v, w, x) = alike dir in
        let flags = flag_attributes_alike (prepared o m text dir) (prepared p m other dir) v w in
        let audio =
          audio_attributes_alike (prepared o m text dir) (prepared p m other dir) _ _ w x in
        settings-made o m text dir d ∙ cons_alike flags audio ∙ sym (settings-made p m other dir d)
  ]

  result_alike :
      o.name ≡ p.name
      → o.format ≡ p.format
      → LooksAlike o p m text other
      → (command_synthesize o m text).0 ≡ (command_synthesize p m other).0
  unfolding command_synthesize
  result_alike n f alike = elim (Result-cases m.make_dir) [
    | inr (e, d) ↦ rw d refl
    | inl (dir, d) ↦
        let (v, w, x) = alike dir in
        synthesize-made o m text dir d
        ∙ collect_alike o p (prepared o m text dir) (prepared p m other dir) _ _ n f w x
        ∙ sym (synthesize-made p m other dir d)
  ]

  -- The span of a synthesis by command shows of the text its length and of the arguments nothing, but for what the
  -- run itself tells: two commands with the same name and format, and two texts of the same length, leave the
  -- same span on the same machine, if in each directory both find the same placeholders and the
  -- executable exits alike, with the same output and the same file.
  pub command_span_hides :
      o.name ≡ p.name
      → o.format ≡ p.format
      → length text ≡ length other
      → LooksAlike o p m text other
      → command_span o m text ≡ command_span p m other
  unfolding command_span
  command_span_hides n f l alike = rw (settings_alike alike, result_alike n f alike, n, l) refl
