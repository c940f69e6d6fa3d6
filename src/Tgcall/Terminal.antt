-- ===== src/Tgcall/Terminal.antt =====
-- internal/tgcall/auth.go: the prompts of a sign-in. The standard input is the list of what its reads
-- give, one after the other, and has ended behind the last of them.
pub mod Lines
pub mod Tests
use tgpager.Base.{
  ℕ, zero, suc, ◌+◌, Bool, true, false, ◌||◌, List, [], ◌∷◌, ◌++◌, Option, none, some, Bytes, codes,
  cut_prefix, Result, ok, err, ◌==◌, if◌then◌else◌,
}
use tgpager.Spaces.{trim_space}
use tgpager.Strings.{cut_at, wrap_text}

-- `ReadString('\n')` of a new buffered reader: it reads on until it has a line feed, and what it read
-- behind that is lost with the reader. The second part is the input that it leaves.
unfoldable pub read_line : List Bytes → Option Bytes × List Bytes
read_line [] = (none, [])
read_line (c ∷ cs) =
    let (before, behind) = cut_at b'\n' c in
    let (line, left) = read_line cs in
    elim behind [
      | some lost ↦ (some (before ++ b'\n' ∷ []), cs)
      | none ↦ elim line [ none ↦ (none, left) | some l ↦ (some (c ++ l), left) ]
    ]

-- `prompt`, for the error of the context if it has ended: the answer, the input that is left, and
-- whether the text was printed.
unfoldable pub prompt : Option Bytes → List Bytes → Result Bytes Bytes × List Bytes × Bool
prompt (some e) stdin = (err e, stdin, false)
prompt none stdin =
    let (line, left) = read_line stdin in
    elim line [
      | none ↦ (err (wrap_text (codes "read prompt") (codes "EOF")), left, true)
      | some value ↦ (ok (trim_space value), left, true)
    ]

-- The text behind its first letter, if that folds with `t`, one of the letters y, e and s: the long s,
-- U+017F, folds with s.
unfoldable pub fold_letter : Bytes → ℕ → Option Bytes
fold_letter [] t = none
fold_letter (c ∷ s) t =
    if c == t || c + 32 == t
    then some s
    else if t == b's'
    then cut_prefix (c ∷ s) (0xc5 ∷ 0xbf ∷ [])
    else none

abbrev is_empty : Bytes → Bool
is_empty [] = true
is_empty (c ∷ s) = false

-- `strings.EqualFold` with a text of such letters.
unfoldable pub equal_fold : Bytes → Bytes → Bool
unfolding fold_letter
equal_fold s [] = is_empty s
equal_fold s (t ∷ ts) = elim (fold_letter s t) [ none ↦ false | some rest ↦ equal_fold rest ts ]

-- `AcceptTermsOfService`.
unfoldable pub accept_terms : Option Bytes → List Bytes → Result Bytes (Unit {0}) × List Bytes
accept_terms ctx stdin =
    let (answer, left, asked) = prompt ctx stdin in
    elim answer [
      | err e ↦ (err e, left)
      | ok a ↦
          if equal_fold a (codes "y") || equal_fold a (codes "yes")
          then (ok tt, left)
          else (err (codes "terms of service rejected"), left)
    ]

-- `SignUp`.
abbrev pub sign_up : Result Bytes (Unit {0})
sign_up = err (codes "sign up not implemented")

-- `Phone`, `Code` and `Password` one after the other, as a sign-in asks: so many prompts, and their
-- answers until one fails.
unfoldable pub ask : ℕ → List Bytes → Result Bytes (List Bytes)
unfolding prompt
ask zero stdin = ok []
ask (suc n) stdin =
    let (answer, left, asked) = prompt none stdin in
    let more = ask n left in
    elim answer [ err e ↦ err e | ok a ↦ elim more [ err e ↦ err e | ok as' ↦ ok (a ∷ as') ] ]
