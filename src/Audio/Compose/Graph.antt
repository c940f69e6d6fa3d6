-- ===== src/Audio/Compose/Graph.antt =====
-- The filter of internal/audio/ffmpeg.go, read back: which inputs it joins, in which order.
use tgpager.Base.{
  ℕ, zero, suc, ◌+◌, ◌≤◌, ◌<◌, ◌^◌, ◌≡◌, ◌≢◌, refl, ap, sym, ◌∙◌, List, [], ◌∷◌, ◌++◌, Option, none,
  some, Bytes, codes, str_eq, cut_prefix, has_prefix, length, length-append, append_assoc,
  append-nil, All, All-append, str_eq_refl, ℤ, pos, pos_part, ◌==◌, if◌then◌else◌, arith,
}
use tgpager.Strings.{cut_at, cut_at_found}
use tgpager.Strconv.{parse_int, parse_int-format_int, format_int-lacks}
use tgpager.Audio.Compose.{decimal, input_label, Refs, add_round, add_rounds, concat_filter}

-- The number in front of ":a]" and what stands behind it, from the two sides of the colon.
unfoldable pub label_parts : Bytes × Option Bytes → Option (ℕ × Bytes)
label_parts (number, none) = none
label_parts (number, some behind) = elim (cut_prefix behind (codes "a]")) [
  | none ↦ none
  | some rest ↦ elim (parse_int number) [ none ↦ none | some z ↦ some (pos_part z, rest) ]
]

unfoldable pub read_label : Bytes → Option (ℕ × Bytes)
unfolding label_parts
read_label s = label_parts (cut_at b':' s)

-- The labels at the front of a filter, and the rest of it. Each label takes at least one byte, so the
-- length of the text is fuel enough.
unfoldable pub read_labels : ℕ → Bytes → Option (List ℕ × Bytes)
unfolding read_label
read_labels zero s = none
read_labels (suc fuel) [] = some ([], [])
read_labels (suc fuel) (c ∷ s) =
    if c == b'['
    then elim (read_label s) [
      | none ↦ none
      | some p ↦ elim (read_labels fuel p.1) [ none ↦ none | some q ↦ some (p.0 ∷ q.0, q.1) ]
    ]
    else some ([], c ∷ s)

-- The inputs that a filter joins, if it is a concatenation of as many sounds as it has labels.
unfoldable pub joined_inputs : Bytes → Option (List ℕ)
unfolding read_labels
joined_inputs graph = elim (read_labels (suc (length graph)) graph) [
  | none ↦ none
  | some (labels, rest) ↦
      if str_eq rest (codes "concat=n=" ++ (decimal (length labels) ++ codes ":v=0:a=1[out]"))
      then some labels
      else none
]

-- The text of labels, with what follows.
abbrev pub labels_text : List ℕ → Bytes → Bytes
labels_text [] s = s
labels_text (i ∷ is) s = input_label i (labels_text is s)

-- `from`, `from + 1` and so on.
abbrev pub numbers : ℕ → ℕ → List ℕ
numbers from zero = []
numbers from (suc n) = from ∷ numbers (suc from) n

abbrev pub repeated {ℓ} : {A : Type ℓ} → ℕ → List A → List A
repeated zero xs = []
repeated (suc n) xs = xs ++ repeated n xs

labels_text-append :
    (is js : List ℕ) (s : Bytes) → labels_text (is ++ js) s ≡ labels_text is (labels_text js s)
labels_text-append [] js s = refl
labels_text-append (i ∷ is) js s = ap (input_label i) (labels_text-append is js s)

-- A label is its text in front of what follows.
input_label-append : (i : ℕ) (s : Bytes) → input_label i [] ++ s ≡ input_label i s
input_label-append i s = ap (λ t. b'[' ∷ t) (append_assoc (decimal i) (b':' ∷ b'a' ∷ b']' ∷ []) s)

labels_text_then : (is : List ℕ) (s : Bytes) → labels_text is [] ++ s ≡ labels_text is s
labels_text_then [] s = refl
labels_text_then (i ∷ is) s =
    ap (λ t. t ++ s) (sym (input_label-append i (labels_text is [])))
    ∙ append_assoc (input_label i []) (labels_text is []) s
    ∙ ap (λ t. input_label i [] ++ t) (labels_text_then is s)
    ∙ input_label-append i (labels_text is s)

abbrev refs_of : Bytes → ℕ → Refs
refs_of t n = record { text = t; n = n }

pub length-numbers : (from n : ℕ) → length (numbers from n) ≡ n
length-numbers from zero = refl
length-numbers from (suc n) = ap suc (length-numbers (suc from) n)

add_round_lem :
    (left i : ℕ) (t : Bytes) (n : ℕ)
    → add_round left i (refs_of t n) ≡ refs_of (t ++ labels_text (numbers i left) []) (n + left)
unfolding add_round
add_round_lem zero i t n = ground (arith, append-nil t)
add_round_lem (suc left) i t n =
    let rest = labels_text (numbers (suc i) left) [] in
    let e : (t ++ input_label i []) ++ rest ≡ t ++ input_label i rest =
      append_assoc t (input_label i []) rest ∙ ap (λ u. t ++ u) (input_label-append i rest) in
    let c : n + 1 + left ≡ n + suc left = omega arith in
    add_round_lem left (suc i) (t ++ input_label i []) (n + 1) ∙ cc

add_rounds_lem :
    (inputs k : ℕ) (t : Bytes) (n : ℕ)
    → add_rounds inputs k (refs_of t n)
      ≡ refs_of
          (t ++ labels_text (repeated k (numbers 0 inputs)) [])
          (n + length (repeated k (numbers 0 inputs)))
unfolding add_rounds
add_rounds_lem inputs zero t n = ground (arith, append-nil t)
add_rounds_lem inputs (suc k) t n =
    let round = numbers 0 inputs in
    let more = labels_text (repeated k round) [] in
    let e : (t ++ labels_text round []) ++ more ≡ t ++ labels_text (round ++ repeated k round) [] =
      append_assoc t (labels_text round []) more
      ∙ ap (λ u. t ++ u)
          (labels_text_then round more ∙ sym (labels_text-append round (repeated k round) [])) in
    let c : n + inputs + length (repeated k round) ≡ n + length (round ++ repeated k round) =
      omega (arith, length-append round (repeated k round), length-numbers 0 inputs) in
    ap (add_rounds inputs k) (add_round_lem inputs 0 t n)
    ∙ add_rounds_lem inputs k (t ++ labels_text round []) (n + inputs)
    ∙ cc

label_parts_lem :
    (i : ℕ) (s : Bytes) → i < 2 ^ 63 → label_parts (decimal i, some (b'a' ∷ b']' ∷ s)) ≡ some (i, s)
unfolding label_parts cut_prefix has_prefix
label_parts_lem i s h = rw (parse_int-format_int (pos i) (h, omega arith), label_parts) refl

read_label_lem :
    (i : ℕ) (s : Bytes)
    → i < 2 ^ 63
    → read_label (decimal i ++ b':' ∷ b'a' ∷ b']' ∷ s) ≡ some (i, s)
unfolding read_label
read_label_lem i s h =
    ap label_parts (cut_at_found b':' (decimal i) (b'a' ∷ b']' ∷ s) (format_int-lacks (pos i)))
    ∙ label_parts_lem i s h

read_labels_lem :
    (is : List ℕ) (c fuel : ℕ) (s : Bytes)
    → All (λ i. i < 2 ^ 63) is
    → c ≢ b'['
    → length is < fuel
    → read_labels fuel (labels_text is (c ∷ s)) ≡ some (is, c ∷ s)
unfolding read_labels
read_labels_lem is c zero s h d lt = absurd (omega (arith, lt))
read_labels_lem [] c (suc fuel) s h d lt = ground (arith, d)
read_labels_lem (i ∷ is) c (suc fuel) s h d lt =
    rw
      (
        read_label_lem i (labels_text is (c ∷ s)) h.0,
        read_labels_lem is c fuel s h.1 d (omega arith),
      )
      refl

length-labels_text : (is : List ℕ) (s : Bytes) → length is + length s ≤ length (labels_text is s)
length-labels_text [] s = omega arith
length-labels_text (i ∷ is) s = omega (
  arith,
  length-labels_text is s,
  length-append (decimal i) (b':' ∷ b'a' ∷ b']' ∷ labels_text is s),
)

numbers-below : (from n top : ℕ) → from + n ≤ top → All (λ i. i < top) (numbers from n)
numbers-below from zero top h = tt
numbers-below from (suc n) top h = (omega arith, numbers-below (suc from) n top (omega arith))

All-repeated {ℓ} : (P : ℕ → Type ℓ) (k : ℕ) (xs : List ℕ) → All P xs → All P (repeated k xs)
All-repeated P zero xs h = tt
All-repeated P (suc k) xs h = All-append P xs (repeated k xs) h (All-repeated P k xs h)

-- The filter for `inputs` sounds joins all of them in order, as often as it says.
pub joined_inputs-concat_filter :
    (inputs : ℕ) (repeat : ℤ)
    → inputs < 2 ^ 63
    → joined_inputs (concat_filter inputs repeat)
      ≡ some (repeated (pos_part repeat) (numbers 0 inputs))
unfolding concat_filter joined_inputs
joined_inputs-concat_filter inputs repeat h =
    let is = repeated (pos_part repeat) (numbers 0 inputs) in
    let end = codes "concat=n=" ++ (decimal (length is) ++ codes ":v=0:a=1[out]") in
    let text : concat_filter inputs repeat ≡ labels_text is end =
      ap (λ r. r.text ++ (codes "concat=n=" ++ (decimal r.n ++ codes ":v=0:a=1[out]")))
        (add_rounds_lem inputs (pos_part repeat) [] 0
          ∙ ap (refs_of (labels_text is [])) (omega arith))
      ∙ labels_text_then is end in
    let read : read_labels (suc (length (labels_text is end))) (labels_text is end)
        ≡ some (is, end) =
      read_labels_lem is b'c' (suc (length (labels_text is end))) _
        (All-repeated _ (pos_part repeat) _ (numbers-below 0 inputs (2 ^ 63) (omega arith)))
        (λ e. omega (arith, e)) (omega (arith, length-labels_text is end)) in
    ap joined_inputs text ∙ rw (read, joined_inputs, str_eq_refl end) refl
