-- ===== src/Tts/Command/Placeholders.antt =====
-- What becomes of the arguments of a command.
use tgpager.Base.{
  ◌≡◌, ◌≢◌, refl, ap, ◌∙◌, Bool, true, false, ◌||◌, List, [], ◌∷◌, ◌++◌, Bytes, codes, All,
  All-append, has_prefix, arith,
}
use tgpager.Strings.{
  includes, replace_all-one, includes-middle, includes-lacks, includes-skip, includes-append,
  includes-left,
}
use tgpager.Tts.Command.{Substituted, substitute, text_placeholder, output_placeholder}

-- An argument as an operator writes it: plain, or with one placeholder between plain texts; plain text
-- has no opening brace.
pub data Arg : Type 0 where
  plain : Bytes → Arg
  with_text with_output : Bytes → Bytes → Arg

abbrev pub IsPlain : Bytes → Type 0
IsPlain = All λ c. c ≢ b'{'

abbrev pub IsWritten : Arg → Type 0
IsWritten (plain s) = IsPlain s
IsWritten (with_text p q) = IsPlain p × IsPlain q
IsWritten (with_output p q) = IsPlain p × IsPlain q

abbrev pub spelled : Arg → Bytes
spelled (plain s) = s
spelled (with_text p q) = p ++ (text_placeholder ++ q)
spelled (with_output p q) = p ++ (output_placeholder ++ q)

-- What the argument stands for.
abbrev pub meant : Bytes → Bytes → Arg → Bytes
meant text out (plain s) = s
meant text out (with_text p q) = p ++ (text ++ q)
meant text out (with_output p q) = p ++ (out ++ q)

abbrev pub asks_text : List Arg → Bool
asks_text [] = false
asks_text (plain s ∷ xs) = asks_text xs
asks_text (with_text p q ∷ xs) = true
asks_text (with_output p q ∷ xs) = asks_text xs

abbrev pub asks_file : List Arg → Bool
asks_file [] = false
asks_file (plain s ∷ xs) = asks_file xs
asks_file (with_text p q ∷ xs) = asks_file xs
asks_file (with_output p q ∷ xs) = true

abbrev pub spelled_all : List Arg → List Bytes
spelled_all [] = []
spelled_all (x ∷ xs) = spelled x ∷ spelled_all xs

abbrev pub meant_all : Bytes → Bytes → List Arg → List Bytes
meant_all text out [] = []
meant_all text out (x ∷ xs) = meant text out x ∷ meant_all text out xs

IsPlain-append : (p q : Bytes) → IsPlain p → IsPlain q → IsPlain (p ++ q)
IsPlain-append p q hp hq = All-append (λ c. c ≢ b'{') p q hp hq

output_lacks_text :
    (q : Bytes) → IsPlain q → includes (output_placeholder ++ q) text_placeholder ≡ false
unfolding includes has_prefix
output_lacks_text q h =
    includes-lacks b'{' (codes "{text}}") (codes "output}}" ++ q)
      (IsPlain-append (codes "output}}") q (omega arith) h)

-- The other placeholder is not found in an argument with one.
includes_other :
    (p q : Bytes)
    → IsPlain p
    → IsPlain q
    → includes (p ++ (output_placeholder ++ q)) text_placeholder ≡ false
includes_other p q hp hq =
    includes-skip b'{' (codes "{text}}") p (output_placeholder ++ q) hp ∙ output_lacks_text q hq

-- The record that the loop makes of its first argument and of the rest.
abbrev joined : Bytes → Bool → Bool → Substituted → Substituted
joined a t f rest = record {
  args = a ∷ rest.args;
  wants_text = t || rest.wants_text;
  wants_file = f || rest.wants_file;
}

substitute_one :
    (text out : Bytes) (x : Arg) (more : List Bytes)
    → IsPlain text
    → IsWritten x
    → substitute text out (spelled x ∷ more)
      ≡ joined
          (meant text out x)
          (asks_text (x ∷ []))
          (asks_file (x ∷ []))
          (substitute text out more)
unfolding substitute
substitute_one text out (plain s) more ht hs =
    rw (includes-lacks b'{' (codes "{text}}") s hs)
      (rw (includes-lacks b'{' (codes "{output}}") s hs) refl)
substitute_one text out (with_text p q) more ht (hp, hq) =
    rw (includes-middle p text_placeholder q, replace_all-one b'{' (codes "{text}}") text p q hp hq)
      (rw
        (includes-lacks b'{' (codes "{output}}") (p ++ (text ++ q))
          (IsPlain-append p (text ++ q) hp (IsPlain-append text q ht hq)))
        refl)
substitute_one text out (with_output p q) more ht (hp, hq) = rw (includes_other p q hp hq) (
    rw
      (
        includes-middle p output_placeholder q,
        replace_all-one b'{' (codes "{output}}") out p q hp hq,
      )
      refl)

joined_once :
    (text out : Bytes) (x : Arg) (xs : List Arg)
    → joined (meant text out x) (asks_text (x ∷ [])) (asks_file (x ∷ [])) (record {
      args = meant_all text out xs;
      wants_text = asks_text xs;
      wants_file = asks_file xs;
    })
      ≡ record {
        args = meant_all text out (x ∷ xs);
        wants_text = asks_text (x ∷ xs);
        wants_file = asks_file (x ∷ xs);
      }
joined_once text out (plain s) xs = refl
joined_once text out (with_text p q) xs = refl
joined_once text out (with_output p q) xs = refl

-- For a text without an opening brace, the command gets its arguments with each placeholder replaced by
-- what it stands for; the text goes to the standard input unless some argument asks for it, and the
-- audio is read from the output file exactly if some argument names it.
pub substitute-meant :
    (text out : Bytes) (xs : List Arg)
    → IsPlain text
    → All IsWritten xs
    → substitute text out (spelled_all xs) ≡ record {
      args = meant_all text out xs;
      wants_text = asks_text xs;
      wants_file = asks_file xs;
    }
substitute-meant text out [] ht hs = unfold substitute in refl
substitute-meant text out (x ∷ xs) ht (h, hs) =
    substitute_one text out x (spelled_all xs) ht h
    ∙ ap (joined (meant text out x) (asks_text (x ∷ [])) (asks_file (x ∷ [])))
        (substitute-meant text out xs ht hs)
    ∙ joined_once text out x xs

-- If an argument asks for the text, and the text itself has the output placeholder in it, then the
-- audio is read from the output file, also where no argument names that file.
pub substitute_diverted :
    (text out : Bytes) (xs : List Arg)
    → All IsWritten xs
    → asks_text xs ≡ true
    → includes text output_placeholder ≡ true
    → (substitute text out (spelled_all xs)).wants_file ≡ true
unfolding substitute
substitute_diverted text out [] hs asks has = ground arith
substitute_diverted text out (plain s ∷ xs) (h, hs) asks has =
    ground (arith, substitute_diverted text out xs hs asks has)
substitute_diverted text out (with_output p q ∷ xs) (h, hs) asks has =
    ground (arith, substitute_diverted text out xs hs asks has)
substitute_diverted text out (with_text p q ∷ xs) ((hp, hq), hs) asks has =
    rw (includes-middle p text_placeholder q, replace_all-one b'{' (codes "{text}}") text p q hp hq)
      (rw
        (includes-append p (text ++ q) output_placeholder
          (includes-left text q output_placeholder has))
        refl)
