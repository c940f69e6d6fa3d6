-- ===== src/Audio/Compose/Plays.antt =====
-- What the two commands play: the filter's inputs, looked up among the files that stand behind "-i".
use tgpager.Base.{
  ℕ, zero, suc, ◌<◌, ◌^◌, ◌≡◌, refl, ap, sym, ◌∙◌, true, false, List, [], ◌∷◌, ◌++◌, Option, none,
  some, Bytes, codes, str_eq, has_prefix, length, get_elem?, get_elem?-append, pos_part, arith,
  append_assoc, append-nil, length-append, Option-cases, inl, inr,
}
use tgpager.Audio.Spec.{Spec}
use tgpager.Audio.Compose.{
  compose_args, concat_filter, stream_args, render_args, input_args, decimal, stream_settings,
  render_settings,
}
use tgpager.Audio.Compose.Graph.{joined_inputs, joined_inputs-concat_filter, repeated, numbers}
use tgpager.Audio.Compose.Items.{
  Item, items, values, outputs, is_flag, flag, output, option, input_items, items-input_args,
  values-input_items, values-input_items_other, outputs-input_items,
}

-- The files with these numbers, if there are such.
unfoldable pub pick : List Bytes → List ℕ → Option (List Bytes)
pick files [] = some []
pick files (i ∷ is) = elim (get_elem? files i) [
  | none ↦ none
  | some f ↦ elim (pick files is) [ none ↦ none | some fs ↦ some (f ∷ fs) ]
]

unfoldable pub picked : List Bytes → Option (List ℕ) → Option (List Bytes)
unfolding pick
picked files none = none
picked files (some is) = pick files is

-- The sounds of a command with one filter.
unfoldable pub plays_through : List Bytes → List Bytes → Option (List Bytes)
plays_through files (graph ∷ []) = picked files (joined_inputs graph)
plays_through files [] = none
plays_through files (g ∷ h ∷ more) = none

unfoldable pub sounds : List Item → Option (List Bytes)
unfolding plays_through
sounds is = plays_through (values (codes "-i") is) (values (codes "-filter_complex") is)

-- What a command plays and where it writes it.
unfoldable pub plays : List Bytes → Option (List Bytes) × List Bytes
unfolding sounds
plays args = (sounds (items args), outputs (items args))

pick-append :
    (files : List Bytes) (is js : List ℕ) (fs gs : List Bytes)
    → pick files is ≡ some fs
    → pick files js ≡ some gs
    → pick files (is ++ js) ≡ some (fs ++ gs)
unfolding pick
pick-append files [] js fs gs h k = ground arith
pick-append files (i ∷ is) js fs gs h k = elim (Option-cases (get_elem? files i)) [
  | inl missing ↦ absurd (ground arith)
  | inr (f, found) ↦ elim (Option-cases (pick files is)) [
    | inl missing ↦ absurd (ground arith)
    | inr (rest, e) ↦ rw (found, pick, pick-append files is js rest gs e k) (ground arith)
  ]
]

pick-numbers :
    (before segs : List Bytes)
    → pick (before ++ segs) (numbers (length before) (length segs)) ≡ some segs
unfolding pick
pick-numbers before [] = refl
pick-numbers before (seg ∷ segs) =
    let at : get_elem? (before ++ seg ∷ segs) (length before) ≡ some seg =
      ap (get_elem? (before ++ seg ∷ segs)) (omega arith)
      ∙ get_elem?-append before (seg ∷ segs) 0 in
    let shift : length (before ++ seg ∷ []) ≡ suc (length before) =
      omega (arith, length-append before (seg ∷ [])) in
    let rest : pick (before ++ seg ∷ segs) (numbers (suc (length before)) (length segs))
        ≡ some segs =
      ap (λ fs. pick fs (numbers (suc (length before)) (length segs)))
        (sym (append_assoc before (seg ∷ []) segs))
      ∙ ap (λ n. pick ((before ++ seg ∷ []) ++ segs) (numbers n (length segs))) (sym shift)
      ∙ pick-numbers (before ++ seg ∷ []) segs in
    rw (at, pick, rest) refl

pick-repeated :
    (k : ℕ) (segs : List Bytes)
    → pick segs (repeated k (numbers 0 (length segs))) ≡ some (repeated k segs)
unfolding pick
pick-repeated zero segs = refl
pick-repeated (suc k) segs =
    pick-append segs _ _ segs (repeated k segs) (pick-numbers [] segs) (pick-repeated k segs)

items-flag :
    (a : Bytes) (args : List Bytes) → is_flag a ≡ true → items (a ∷ args) ≡ flag a ∷ items args
unfolding items
items-flag a [] h = rw h refl
items-flag a (b ∷ args) h = rw h refl

items_file : (path : Bytes) → is_flag path ≡ false → items (path ∷ []) ≡ output path ∷ []
unfolding items
items_file path h = rw h refl

plays-flag : (a : Bytes) (args : List Bytes) → is_flag a ≡ true → plays (a ∷ args) ≡ plays args
unfolding plays values outputs sounds
plays-flag a args h = ap (λ is. (sounds is, outputs is)) (items-flag a args h)

module _ (spec : Spec) (h : length spec.segments < 2 ^ 63) where
  abbrev whole : List Bytes
  whole = repeated (pos_part spec.repeat) spec.segments

  sounds_lem :
      (is : List Item)
      → values (codes "-i") is ≡ spec.segments
      → values (codes "-filter_complex") is ≡ concat_filter (length spec.segments) spec.repeat ∷ []
      → sounds is ≡ some whole
  unfolding sounds plays_through picked pick
  sounds_lem is e f =
      ap (λ fs. plays_through fs (values (codes "-filter_complex") is)) e
      ∙ ap (plays_through spec.segments) f
      ∙ ap (picked spec.segments) (joined_inputs-concat_filter (length spec.segments) spec.repeat h)
      ∙ pick-repeated (pos_part spec.repeat) spec.segments

  -- The items of a command with the composed arguments in front of others.
  composed : List Bytes → List Item
  composed args = input_items spec.segments (
      option (codes "-filter_complex") (concat_filter (length spec.segments) spec.repeat)
      ∷ option (codes "-map") (codes "[out]")
      ∷ items args)

  items-compose_args : (args : List Bytes) → items (compose_args spec ++ args) ≡ composed args
  unfolding compose_args composed items is_flag has_prefix str_eq
  items-compose_args args =
      ap items (append_assoc (input_args spec.segments) _ args) ∙ items-input_args spec.segments _

  composed-sounds :
      (args : List Bytes)
      → values (codes "-i") (items args) ≡ []
      → values (codes "-filter_complex") (items args) ≡ []
      → sounds (composed args) ≡ some whole
  unfolding composed values str_eq
  composed-sounds args e f =
      sounds_lem (composed args)
        (values-input_items spec.segments _
          ∙ ap (λ vs. spec.segments ++ vs) e
          ∙ append-nil spec.segments)
        (values-input_items_other (codes "-filter_complex") spec.segments _ refl
          ∙ ap (λ vs. concat_filter (length spec.segments) spec.repeat ∷ vs) f)

  composed-outputs : (args : List Bytes) → outputs (composed args) ≡ outputs (items args)
  unfolding composed outputs
  composed-outputs args = outputs-input_items spec.segments _

  composed-plays :
      (args files : List Bytes)
      → values (codes "-i") (items args) ≡ []
      → values (codes "-filter_complex") (items args) ≡ []
      → outputs (items args) ≡ files
      → plays (compose_args spec ++ args) ≡ (some whole, files)
  unfolding plays
  composed-plays args files e f o =
      ap (λ is. (sounds is, outputs is)) (items-compose_args args)
      ∙ ap (λ r. (r, outputs (composed args))) (composed-sounds args e f)
      ∙ ap (λ r. (some whole, r)) (composed-outputs args ∙ o)

-- The address of a stream.
abbrev pub rtp_address : Bytes → ℕ → Bytes
rtp_address ip port = codes "rtp://" ++ (ip ++ (codes ":" ++ decimal port))

-- The command that streams a spec into a call and the one that renders it to a file both play its
-- segments in order, as often as it says, and nothing else: the labels of the filter name those inputs
-- in that order, and the filter joins as many sounds as it has labels. The one writes to the address
-- of the stream only, the other to the file only. The spec has fewer than 2^63 segments, and the file
-- is not named like one of the four flags of the commands.
pub plays_alike :
    (spec : Spec) (ssrc port : ℕ) (ip path : Bytes)
    → length spec.segments < 2 ^ 63
    → is_flag path ≡ false
    → (plays (stream_args spec ssrc ip port)
        ≡ (some (repeated (pos_part spec.repeat) spec.segments), rtp_address ip port ∷ []))
      × (plays (render_args spec path)
          ≡ (some (repeated (pos_part spec.repeat) spec.segments), path ∷ []))
unfolding stream_args render_args items values outputs is_flag has_prefix str_eq
plays_alike spec ssrc port ip path h file = (
  plays-flag (codes "-re") (compose_args spec ++ stream_settings ssrc ip port) refl
      ∙ composed-plays spec h (stream_settings ssrc ip port) (rtp_address ip port ∷ []) refl refl
          refl,
  plays-flag (codes "-hide_banner") (codes "-y" ∷ (compose_args spec ++ render_settings path)) refl
      ∙ plays-flag (codes "-y") (compose_args spec ++ render_settings path) refl
      ∙ composed-plays spec h (render_settings path) (path ∷ [])
          (ap (values (codes "-i")) (items_file path file))
          (ap (values (codes "-filter_complex")) (items_file path file))
          (ap outputs (items_file path file)),
)
