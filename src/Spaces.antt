-- ===== src/Spaces.antt =====
-- `strings.TrimSpace`, `strings.Fields` and `strings.TrimRight` on texts as bytes. The white space of
-- `unicode.IsSpace` is found by its UTF-8 encodings: their first bytes begin a rune wherever they
-- stand, so a match is always at the boundary of a rune.
use tgpager.Base.{
  ℕ, zero, suc, ◌≤◌, ◌≡◌, refl, Bool, ◌&&◌, ◌||◌, List, [], ◌∷◌, ◌++◌, Option, none, some, Bytes,
  length, All, All-append, leb, ◌==◌, if◌then◌else◌, arith,
}
use mathlib.Core.List.{reverse, reverse-cons, reverse-reverse}

-- Tab, line feed, vertical tab, form feed, carriage return and space.
abbrev pub is_ascii_space : ℕ → Bool
is_ascii_space c = leb 9 c && leb c 13 || c == 32

-- U+0085 and U+00A0.
abbrev pub is_space_pair : ℕ → ℕ → Bool
is_space_pair a b = a == 0xc2 && (b == 0x85 || b == 0xa0)

-- U+1680, U+2000 to U+200A, U+2028, U+2029, U+202F, U+205F and U+3000.
abbrev pub is_space_triple : ℕ → ℕ → ℕ → Bool
is_space_triple a b c =
    a == 0xe1 && b == 0x9a && c == 0x80
    || a == 0xe2 && b == 0x80 && (leb 0x80 c && leb c 0x8a || leb 0xa8 c && leb c 0xa9 || c == 0xaf)
    || a == 0xe2 && b == 0x81 && c == 0x9f
    || a == 0xe3 && b == 0x80 && c == 0x80

-- The text behind a leading space, if it begins with one.
unfoldable pub strip_space : Bytes → Option Bytes
strip_space [] = none
strip_space (a ∷ []) = if is_ascii_space a then some [] else none
strip_space (a ∷ b ∷ []) =
    if is_ascii_space a then some (b ∷ []) else if is_space_pair a b then some [] else none
strip_space (a ∷ b ∷ c ∷ s) =
    if is_ascii_space a
    then some (b ∷ c ∷ s)
    else if is_space_pair a b
    then some (c ∷ s)
    else if is_space_triple a b c
    then some s
    else none

-- The same on a reversed text, for its last rune.
unfoldable pub strip_space_back : Bytes → Option Bytes
strip_space_back [] = none
strip_space_back (a ∷ []) = if is_ascii_space a then some [] else none
strip_space_back (a ∷ b ∷ []) =
    if is_ascii_space a then some (b ∷ []) else if is_space_pair b a then some [] else none
strip_space_back (a ∷ b ∷ c ∷ s) =
    if is_ascii_space a
    then some (b ∷ c ∷ s)
    else if is_space_pair b a
    then some (c ∷ s)
    else if is_space_triple c b a
    then some s
    else none

-- Strips as long as it can; every round takes at least one byte, so the length is fuel enough.
unfoldable pub strip_all : (Bytes → Option Bytes) → ℕ → Bytes → Bytes
strip_all strip zero s = s
strip_all strip (suc fuel) s = elim (strip s) [ none ↦ s | some rest ↦ strip_all strip fuel rest ]

unfoldable pub trim_space : Bytes → Bytes
trim_space s =
    let front = strip_all strip_space (length s) s in
    reverse (strip_all strip_space_back (length front) (reverse front))

-- The field read so far, if it is not empty, in front of the others.
abbrev pub flush : Bytes → List Bytes → List Bytes
flush [] fs = fs
flush (c ∷ s) fs = (c ∷ s) ∷ fs

-- Splits at the spaces. `current` is the field being read.
unfoldable pub split_fields : ℕ → Bytes → Bytes → List Bytes
split_fields zero s current = flush current []
split_fields (suc fuel) [] current = flush current []
split_fields (suc fuel) (c ∷ s) current = elim (strip_space (c ∷ s)) [
  | some rest ↦ flush current (split_fields fuel rest [])
  | none ↦ split_fields fuel s (current ++ c ∷ [])
]

unfoldable pub fields : Bytes → List Bytes
unfolding split_fields strip_space
fields s = split_fields (length s) s []

-- `strings.Join`.
unfoldable pub join : Bytes → List Bytes → Bytes
join sep [] = []
join sep (f ∷ []) = f
join sep (f ∷ g ∷ fs) = f ++ (sep ++ join sep (g ∷ fs))

-- A byte of ASCII that is no space and no control character.
abbrev pub IsVisible : ℕ → Type 0
IsVisible c = (33 ≤ c) × (c ≤ 126)

strip_space-visible : (c : ℕ) (s : Bytes) → IsVisible c → strip_space (c ∷ s) ≡ none
unfolding strip_space
strip_space-visible c [] h = ground arith
strip_space-visible c (b ∷ []) h = ground arith
strip_space-visible c (b ∷ d ∷ s) h = ground arith

-- From behind the last byte is visible, and so are those before it.
strip_space_back-visible : (s : Bytes) → All IsVisible s → strip_space_back s ≡ none
unfolding strip_space_back
strip_space_back-visible [] h = refl
strip_space_back-visible (a ∷ []) h = ground arith
strip_space_back-visible (a ∷ b ∷ []) h = ground arith
strip_space_back-visible (a ∷ b ∷ c ∷ s) h = ground arith

All-reverse : (P : ℕ → Type 0) (s : Bytes) → All P s → All P (reverse s)
All-reverse P [] h = tt
All-reverse P (c ∷ s) h =
    rw (reverse-cons c s) (All-append P (reverse s) (c ∷ []) (All-reverse P s h.1) (h.0, tt))

strip_all-stuck :
    (strip : Bytes → Option Bytes) (fuel : ℕ) (s : Bytes)
    → strip s ≡ none
    → strip_all strip fuel s ≡ s
unfolding strip_all
strip_all-stuck strip zero s h = refl
strip_all-stuck strip (suc fuel) s h = rw (h, strip_all)

strip_space-All : (s : Bytes) → All IsVisible s → strip_space s ≡ none
strip_space-All [] h = unfold strip_space in refl
strip_space-All (c ∷ s) h = strip_space-visible c s h.0

-- A text of visible characters is not changed by trimming.
pub trim_space-visible : (s : Bytes) → All IsVisible s → trim_space s ≡ s
unfolding trim_space
trim_space-visible s h = rw (strip_all-stuck strip_space (length s) s (strip_space-All s h)) (
    rw
      (strip_all-stuck strip_space_back (length s) (reverse s)
        (strip_space_back-visible (reverse s) (All-reverse IsVisible s h)))
      (reverse-reverse s))
