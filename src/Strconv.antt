-- ===== src/Strconv.antt =====
-- `strconv.FormatInt(v, 10)` and `strconv.ParseInt(s, 10, 64)`, which peer.go and peercache.go use.
use tgpager.Base.{
  ℕ, zero, suc, ◌+◌, ◌-◌, ◌*◌, ◌/◌, ◌%◌, ◌^◌, ◌<◌, ◌≡◌, refl, Bool, true, false, ◌&&◌, [], ◌∷◌,
  ◌++◌, Option, none, some, ◌∙◌, Bytes, All, All-append, ℤ, pos, negsuc, IsInt64, ltb, leb, ◌==◌,
  if◌then◌else◌, arith, ◌≢◌, Bool-cases, inl, inr,
}
use tgpager.Spaces.{IsVisible}
use native.Mathlib.Nat.{pow-suc}
use mathlib.Core.List.{concat-ne-nil}

-- The digits of a number below ten to the fuel.
unfoldable pub digits : ℕ → ℕ → Bytes
digits zero n = []
digits (suc fuel) n =
    let front = digits fuel (n / 10) in
    if ltb n 10 then (b'0' + n) ∷ [] else front ++ (b'0' + n % 10) ∷ []

-- Twenty digits are enough for 64 bits.
unfoldable pub format_int : ℤ → Bytes
unfolding digits
format_int (pos n) = digits 20 n
format_int (negsuc n) = b'-' ∷ digits 20 (suc n)

abbrev pub is_digit : ℕ → Bool
is_digit c = leb b'0' c && leb c b'9'

-- The number that a text of digits spells behind `n`.
unfoldable pub read_digits : Bytes → ℕ → Option ℕ
read_digits [] n = some n
read_digits (c ∷ s) n = if is_digit c then read_digits s (n * 10 + (c - b'0')) else none

unfoldable pub parse_digits : Bytes → Option ℕ
unfolding read_digits
parse_digits [] = none
parse_digits (c ∷ s) = read_digits (c ∷ s) 0

-- A result out of the range of int64 is an error.
unfoldable pub signed : Bool → Option ℕ → Option ℤ
signed negative none = none
signed true (some zero) = some (pos 0)
signed true (some (suc n)) = if ltb n (2 ^ 63) then some (negsuc n) else none
signed false (some n) = if ltb n (2 ^ 63) then some (pos n) else none

unfoldable pub parse_int : Bytes → Option ℤ
unfolding parse_digits signed
parse_int [] = none
parse_int (c ∷ s) =
    if c == b'-'
    then signed true (parse_digits s)
    else if c == b'+'
    then signed false (parse_digits s)
    else signed false (parse_digits (c ∷ s))

abbrev pub IsDigit : ℕ → Type 0
IsDigit c = is_digit c ≡ true

read_digits-append :
    (s t : Bytes) (n m : ℕ) → read_digits s n ≡ some m → read_digits (s ++ t) n ≡ read_digits t m
unfolding read_digits
read_digits-append [] t n m h = ground arith
read_digits-append (c ∷ s) t n m h = ground (arith, read_digits-append s t (n * 10 + (c - b'0')) m)

-- `n` has at most `fuel` digits.
abbrev Fits : ℕ → ℕ → Type 0
Fits n fuel = n < 10 ^ fuel

Fits-tenth : (n fuel : ℕ) → Fits n (suc fuel) → Fits (n / 10) fuel
Fits-tenth n fuel h = let e : 10 ^ suc fuel ≡ 10 ^ fuel * 10 = pow-suc 10 fuel in omega (arith, e)

read_digits-digits : (fuel n : ℕ) → Fits n fuel → read_digits (digits fuel n) 0 ≡ some n
unfolding digits
read_digits-digits zero n h = unfold read_digits in ground arith
read_digits-digits (suc fuel) n h = elim (Bool-cases (ltb n 10)) [
  | inl one ↦ rw one (unfold read_digits in ground arith)
  | inr more ↦ rw more (
      read_digits-append (digits fuel (n / 10)) _ 0 (n / 10)
        (read_digits-digits fuel (n / 10) (Fits-tenth n fuel h))
      ∙ unfold read_digits in ground arith)
]

pub digits-IsDigit : (fuel n : ℕ) → All IsDigit (digits fuel n)
unfolding digits
digits-IsDigit zero n = tt
digits-IsDigit (suc fuel) n = elim (Bool-cases (ltb n 10)) [
  | inl one ↦ rw one (ground arith)
  | inr more ↦
      rw more
        (All-append IsDigit (digits fuel (n / 10)) _ (digits-IsDigit fuel (n / 10)) (ground arith))
]

digits-ne-nil : (fuel n : ℕ) → digits (suc fuel) n ≢ []
unfolding digits
digits-ne-nil fuel n = elim (Bool-cases (ltb n 10)) [
  | inl one ↦ rw one (λ e. cc)
  | inr more ↦ rw more (concat-ne-nil _ (digits fuel (n / 10)))
]

-- A text of digits is read without a sign.
parse_int-unsigned :
    (s : Bytes) {n : ℕ}
    → All IsDigit s
    → s ≢ []
    → read_digits s 0 ≡ some n
    → n < 2 ^ 63
    → parse_int s ≡ some (pos n)
unfolding parse_int
parse_int-unsigned [] h e r lt = absurd (e refl)
parse_int-unsigned (c ∷ s) h e r lt = ground arith

parse_int-minus :
    (s : Bytes) {n : ℕ}
    → s ≢ []
    → read_digits s 0 ≡ some (suc n)
    → n < 2 ^ 63
    → parse_int (b'-' ∷ s) ≡ some (negsuc n)
unfolding parse_int
parse_int-minus [] e r lt = absurd (e refl)
parse_int-minus (c ∷ s) e r lt = ground arith

-- Every int64 is read back from its decimal text.
pub parse_int-format_int : (z : ℤ) → IsInt64 z → parse_int (format_int z) ≡ some z
unfolding format_int
parse_int-format_int (pos n) h =
    parse_int-unsigned (digits 20 n) (digits-IsDigit 20 n) (digits-ne-nil 19 n)
      (read_digits-digits 20 n (omega arith)) (omega arith)
parse_int-format_int (negsuc n) h =
    parse_int-minus (digits 20 (suc n)) (digits-ne-nil 19 (suc n))
      (read_digits-digits 20 (suc n) (omega arith)) (omega arith)

digits-lack : (s : Bytes) → All IsDigit s → All (λ c. c ≢ b':') s
digits-lack [] h = tt
digits-lack (c ∷ s) h = (ground arith, digits-lack s h.1)

-- The text of an integer holds digits and a minus sign only.
pub format_int-lacks : (z : ℤ) → All (λ c. c ≢ b':') (format_int z)
unfolding format_int
format_int-lacks (pos n) = digits-lack (digits 20 n) (digits-IsDigit 20 n)
format_int-lacks (negsuc n) =
    (omega arith, digits-lack (digits 20 (suc n)) (digits-IsDigit 20 (suc n)))

digits-IsVisible : (s : Bytes) → All IsDigit s → All IsVisible s
digits-IsVisible [] h = tt
digits-IsVisible (c ∷ s) h = ((ground arith, ground arith), digits-IsVisible s h.1)

-- Its characters are visible.
pub format_int-IsVisible : (z : ℤ) → All IsVisible (format_int z)
unfolding format_int
format_int-IsVisible (pos n) = digits-IsVisible (digits 20 n) (digits-IsDigit 20 n)
format_int-IsVisible (negsuc n) =
    ((omega arith, omega arith), digits-IsVisible (digits 20 (suc n)) (digits-IsDigit 20 (suc n)))
