-- ===== src/Strings.antt =====
-- What the code uses of `strings` beside trimming: `Contains`, `ReplaceAll`, `SplitSeq` at line feeds and
-- `TrimSuffix`.
use tgpager.Spaces.{join}
use tgpager.Base.{
  ℕ, zero, suc, ◌-◌, ◌≡◌, ◌≢◌, refl, ap, sym, ◌∙◌, Bool, true, false, ◌||◌, List, [], ◌∷◌, ◌++◌,
  Option, none, some, Bytes, codes, has_prefix, has_prefix-append, length, All, ◌==◌, if◌then◌else◌,
  arith, append-nil,
}

-- The text of an error that `errors.Wrap` or `errors.Wrapf` makes of a message and of another error.
abbrev pub wrap_text : Bytes → Bytes → Bytes
wrap_text message e = message ++ (codes ": " ++ e)

-- `strings.Contains(s, p)`.
unfoldable pub includes : Bytes → Bytes → Bool
includes [] p = has_prefix [] p
includes (c ∷ s) p = has_prefix (c ∷ s) p || includes s p

-- `strings.ReplaceAll(s, old, new)` for an old text that is not empty; the first number is that of the
-- bytes of an occurrence that are still to be passed over.
module _ (old replacement : Bytes) where
  unfoldable pub replace_from : ℕ → Bytes → Bytes
  replace_from skip [] = []
  replace_from (suc skip) (c ∷ s) = replace_from skip s
  replace_from zero (c ∷ s) = elim (has_prefix (c ∷ s) old) [
    | true ↦ replacement ++ replace_from (length old - 1) s
    | false ↦ c ∷ replace_from zero s
  ]

  unfoldable pub replace_all : Bytes → Bytes
  unfolding replace_from
  replace_all s = replace_from 0 s

-- `strings.SplitSeq(s, "\n")`.
unfoldable pub lines : Bytes → List Bytes
lines [] = [] ∷ []
lines (c ∷ s) =
    let rest = lines s in
    if c == b'\n' then [] ∷ rest else elim rest [ [] ↦ (c ∷ []) ∷ [] | l ∷ ls ↦ (c ∷ l) ∷ ls ]

-- `strings.TrimSuffix(s, p)` for a suffix of one byte.
unfoldable pub trim_suffix : ℕ → Bytes → Bytes
trim_suffix p [] = []
trim_suffix p (c ∷ []) = if c == p then [] else c ∷ []
trim_suffix p (c ∷ d ∷ s) = c ∷ trim_suffix p (d ∷ s)

-- `strings.Cut` at a byte: what stands before and behind the first one, if there is one.
unfoldable pub cut_at : ℕ → Bytes → Bytes × Option Bytes
cut_at sep [] = ([], none)
cut_at sep (c ∷ s) =
    let (before, after) = cut_at sep s in if c == sep then ([], some s) else (c ∷ before, after)

pub cut_at_found :
    (sep : ℕ) (p t : Bytes) → All (λ c. c ≢ sep) p → cut_at sep (p ++ sep ∷ t) ≡ (p, some t)
unfolding cut_at
cut_at_found sep [] t h = ground arith
cut_at_found sep (c ∷ p) t h = ground (arith, cut_at_found sep p t h.1)

pub cut_at_missing : (sep : ℕ) (p : Bytes) → All (λ c. c ≢ sep) p → cut_at sep p ≡ (p, none)
unfolding cut_at
cut_at_missing sep [] h = refl
cut_at_missing sep (c ∷ p) h = ground (arith, cut_at_missing sep p h.1)

-- Skipping an occurrence.
replace_from-skip :
    (old new p s : Bytes) → replace_from old new (length p) (p ++ s) ≡ replace_from old new 0 s
unfolding replace_from
replace_from-skip old new [] s = refl
replace_from-skip old new (c ∷ p) s = replace_from-skip old new p s

module _ (b : ℕ) (old' new : Bytes) where
  -- An occurrence at the front is replaced.
  replace_all-front :
      (s : Bytes)
      → replace_all (b ∷ old') new ((b ∷ old') ++ s) ≡ new ++ replace_all (b ∷ old') new s
  unfolding replace_all replace_from
  replace_all-front s =
      let one : length (b ∷ old') - 1 ≡ length old' = omega arith in
      rw (has_prefix-append (b ∷ old') s, replace_from)
        (rw one (ap (λ r. new ++ r) (replace_from-skip (b ∷ old') new old' s)))

  -- A text without the first byte of what is replaced is passed over.
  pub replace_all-plain :
      (p s : Bytes)
      → All (λ c. c ≢ b) p
      → replace_all (b ∷ old') new (p ++ s) ≡ p ++ replace_all (b ∷ old') new s
  unfolding replace_all replace_from has_prefix
  replace_all-plain [] s h = refl
  replace_all-plain (c ∷ p) s h =
      let other : has_prefix (c ∷ (p ++ s)) (b ∷ old') ≡ false = ground (arith, h.0) in
      rw (other, replace_all, replace_from) (ap (λ r. c ∷ r) (replace_all-plain p s h.1))

  pub replace_all-same : (p : Bytes) → All (λ c. c ≢ b) p → replace_all (b ∷ old') new p ≡ p
  unfolding replace_all replace_from
  replace_all-same p h =
      ap (replace_all (b ∷ old') new) (sym (append-nil p)) ∙ replace_all-plain p [] h ∙ append-nil p

  -- One occurrence between two such texts.
  pub replace_all-one :
      (p q : Bytes)
      → All (λ c. c ≢ b) p
      → All (λ c. c ≢ b) q
      → replace_all (b ∷ old') new (p ++ ((b ∷ old') ++ q)) ≡ p ++ (new ++ q)
  replace_all-one p q hp hq =
      replace_all-plain p ((b ∷ old') ++ q) hp
      ∙ ap (λ r. p ++ r) (replace_all-front q ∙ ap (λ r. new ++ r) (replace_all-same q hq))

pub includes-lacks : (b : ℕ) (old p : Bytes) → All (λ c. c ≢ b) p → includes p (b ∷ old) ≡ false
unfolding includes has_prefix
includes-lacks b old [] h = refl
includes-lacks b old (c ∷ p) h = ground (arith, h.0, includes-lacks b old p h.1)

pub includes-skip :
    (b : ℕ) (old p s : Bytes)
    → All (λ c. c ≢ b) p
    → includes (p ++ s) (b ∷ old) ≡ includes s (b ∷ old)
unfolding includes has_prefix
includes-skip b old [] s h = refl
includes-skip b old (c ∷ p) s h =
    let other : (c == b) ≡ false = ground (arith, h.0) in rw other (includes-skip b old p s h.1)

pub includes-append : (p q s : Bytes) → includes q s ≡ true → includes (p ++ q) s ≡ true
unfolding includes
includes-append [] q s h = h
includes-append (c ∷ p) q s h = ground (arith, includes-append p q s h)

includes-prefix : (q s : Bytes) → has_prefix q s ≡ true → includes q s ≡ true
unfolding includes
includes-prefix [] s h = h
includes-prefix (c ∷ q) s h = ground arith

-- What stands inside a text is found in it.
pub includes-middle : (p s q : Bytes) → includes (p ++ (s ++ q)) s ≡ true
includes-middle p s q =
    includes-append p (s ++ q) s (includes-prefix (s ++ q) s (has_prefix-append s q))

has_prefix-left : (s q p : Bytes) → has_prefix s p ≡ true → has_prefix (s ++ q) p ≡ true
unfolding has_prefix
has_prefix-left [] q [] h = refl
has_prefix-left [] q (d ∷ p) h = ground arith
has_prefix-left (c ∷ s) q [] h = refl
has_prefix-left (c ∷ s) q (d ∷ p) h = ground (arith, has_prefix-left s q p)

pub includes-left : (s q p : Bytes) → includes s p ≡ true → includes (s ++ q) p ≡ true
unfolding includes
includes-left [] q p h = includes-prefix q p (has_prefix-left [] q p h)
includes-left (c ∷ s) q p h = ground (arith, has_prefix-left (c ∷ s) q p, includes-left s q p)

-- The parts of a text before and behind the first separator are determined.
pub cut_unique :
    (c : ℕ) (x y s t : Bytes)
    → All (λ d. d ≢ c) x
    → All (λ d. d ≢ c) y
    → x ++ c ∷ s ≡ y ++ c ∷ t
    → (x ≡ y) × (s ≡ t)
cut_unique c [] [] s t hx hy e = (refl, ground arith)
cut_unique c [] (d ∷ y) s t hx hy e = absurd (ground (arith, hy.0))
cut_unique c (d ∷ x) [] s t hx hy e = absurd (ground (arith, hx.0))
cut_unique c (d ∷ x) (f ∷ y) s t hx hy e =
    let (same, rest) = cut_unique c x y s t hx.1 hy.1 (ground arith) in (ground (arith, same), rest)

no_separator : (c : ℕ) (x y s : Bytes) → All (λ d. d ≢ c) x → x ≢ y ++ c ∷ s
no_separator c [] [] s h e = ground arith
no_separator c [] (d ∷ y) s h e = ground arith
no_separator c (d ∷ x) [] s h e = h.0 (ground arith)
no_separator c (d ∷ x) (f ∷ y) s h e = no_separator c x y s h.1 (ground arith)

-- The last separator cuts uniquely where what follows it has none, whatever stands before it.
pub last_cut_unique :
    (c : ℕ) (x y s t : Bytes)
    → All (λ d. d ≢ c) s
    → All (λ d. d ≢ c) t
    → x ++ c ∷ s ≡ y ++ c ∷ t
    → (x ≡ y) × (s ≡ t)
last_cut_unique c [] [] s t hs ht e = (refl, ground arith)
last_cut_unique c [] (d ∷ y) s t hs ht e = absurd (no_separator c s y t hs (ground arith))
last_cut_unique c (d ∷ x) [] s t hs ht e = absurd (no_separator c t x s ht (ground arith))
last_cut_unique c (d ∷ x) (f ∷ y) s t hs ht e =
    let (same, rest) = last_cut_unique c x y s t hs ht (ground arith) in
    (ground (arith, same), rest)

-- A list of texts without the separator is determined by the text that joins them.
pub join_unique :
    (c : ℕ) (x y : Bytes) (xs ys : List Bytes)
    → All (All (λ d. d ≢ c)) (x ∷ xs)
    → All (All (λ d. d ≢ c)) (y ∷ ys)
    → join (c ∷ []) (x ∷ xs) ≡ join (c ∷ []) (y ∷ ys)
    → (x ∷ xs) ≡ (y ∷ ys)
unfolding join
join_unique c x y [] [] hx hy e = ap (λ z. z ∷ []) e
join_unique c x y [] (z ∷ ys) hx hy e = absurd (no_separator c x y (join (c ∷ []) (z ∷ ys)) hx.0 e)
join_unique c x y (z ∷ xs) [] hx hy e =
    absurd (no_separator c y x (join (c ∷ []) (z ∷ xs)) hy.0 (sym e))
join_unique c x y (z ∷ xs) (w ∷ ys) hx hy e =
    let (first, rest) =
      cut_unique c x y (join (c ∷ []) (z ∷ xs)) (join (c ∷ []) (w ∷ ys)) hx.0 hy.0 e in
    let more = join_unique c z w xs ys hx.1 hy.1 rest in ground (arith, first, more)
