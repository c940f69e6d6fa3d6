-- ===== src/Base/Text.antt =====
-- Go strings and byte slices as lists of byte values, with the tests of `strings` and `bytes`.
use Prim.Native.Nat.{ℕ, suc, ◌-◌}
use Prim.Native.Char.{code}
use Prim.Native.String.{String}
use mathlib.Core.Path.{◌≡◌, refl, ap}
use mathlib.Core.Logic.{◌↔◌, ◌≢◌}
use mathlib.Core.Bool.{Bool, true, false, ◌&&◌}
use mathlib.Core.Option.{Option, none, some}
use mathlib.Core.Option
use mathlib.Core.List.{List, [], ◌∷◌, ◌++◌}
use native.Mathlib.Omega.{arith}
use tgpager.Base.Lists.{length, drop, drop-append, get_elem?, take}
use tgpager.Base.Tests.{◌==◌, if◌then◌else◌}

abbrev pub Bytes : Type 0
Bytes = List ℕ

-- The code points of a literal: its bytes, since every literal of the program is ASCII.
abbrev pub codes : String → Bytes
codes String.[] = []
codes (String.◌∷◌ c s) = code c ∷ codes s

-- `a == b` on strings, `bytes.Equal`, and `subtle.ConstantTimeCompare(a, b) == 1`.
unfoldable pub str_eq : Bytes → Bytes → Bool
str_eq [] [] = true
str_eq [] (d ∷ t) = false
str_eq (c ∷ s) [] = false
str_eq (c ∷ s) (d ∷ t) = c == d && str_eq s t

-- `strings.HasPrefix(s, prefix)`.
unfoldable pub has_prefix : Bytes → Bytes → Bool
has_prefix s [] = true
has_prefix [] (p ∷ ps) = false
has_prefix (c ∷ s) (p ∷ ps) = c == p && has_prefix s ps

-- `bytes.Index(s, pattern)`: the first position at which the pattern stands.
unfoldable pub index : Bytes → Bytes → Option ℕ
unfolding has_prefix
index [] p = if has_prefix [] p then some 0 else none
index (c ∷ s) p = if has_prefix (c ∷ s) p then some 0 else Option.map suc (index s p)

pub str_eq_iff : (s t : Bytes) → (str_eq s t ≡ true) ↔ (s ≡ t)
unfolding str_eq
str_eq_iff [] [] = ground arith
str_eq_iff [] (d ∷ t) = ground arith
str_eq_iff (c ∷ s) [] = ground arith
str_eq_iff (c ∷ s) (d ∷ t) = ground (arith, str_eq_iff s t)

pub str_eq_refl : (s : Bytes) → str_eq s s ≡ true
str_eq_refl s = (str_eq_iff s s).1 refl

pub str_eq-false : (s t : Bytes) → s ≢ t → str_eq s t ≡ false
str_eq-false s t h = ground (arith, str_eq_iff s t)

pub has_prefix-append : (p s : Bytes) → has_prefix (p ++ s) p ≡ true
unfolding has_prefix
has_prefix-append [] s = refl
has_prefix-append (c ∷ p) s = ground (arith, has_prefix-append p s)

-- `strings.CutPrefix`: what stands behind the prefix.
unfoldable pub cut_prefix : Bytes → Bytes → Option Bytes
cut_prefix s p = if has_prefix s p then some (drop (length p) s) else none

pub drop-prefix : (s p : Bytes) → has_prefix s p ≡ true → p ++ drop (length p) s ≡ s
unfolding has_prefix
drop-prefix s [] h = refl
drop-prefix [] (d ∷ p) h = ground arith
drop-prefix (c ∷ s) (d ∷ p) h = ground (arith, drop-prefix s p)

-- It succeeds exactly on the texts with that prefix.
pub cut_prefix_iff : (s p t : Bytes) → (cut_prefix s p ≡ some t) ↔ (s ≡ p ++ t)
unfolding cut_prefix
cut_prefix_iff s p t = (
  λ h. ground (arith, drop-prefix s p),
  λ e. rw (e, has_prefix-append p t) (ap some (drop-append p t)),
)

-- `s[i]`; every use is at an index inside `s`.
abbrev pub byte_at : Bytes → ℕ → ℕ
byte_at s i = elim (get_elem? s i) [ none ↦ 0 | some b ↦ b ]

-- `s[i:j]` for i ≤ j.
abbrev pub slice : Bytes → ℕ → ℕ → Bytes
slice s i j = take (j - i) (drop i s)
