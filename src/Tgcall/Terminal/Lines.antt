-- ===== src/Tgcall/Terminal/Lines.antt =====
-- Prompts on a terminal and on a pipe.
use tgpager.Base.{
  true, ℕ, suc, ◌≡◌, ◌≢◌, refl, List, [], ◌∷◌, ◌++◌, none, some, Bytes, codes, length, map, All, ok,
  err,
}
use tgpager.Spaces.{trim_space}
use tgpager.Strings.{cut_at_found, wrap_text}
use tgpager.Tgcall.Terminal.{read_line, prompt, ask}

abbrev pub IsLine : Bytes → Type 0
IsLine = All (λ c. c ≢ b'\n')

abbrev pub ended : Bytes → Bytes
ended line = line ++ b'\n' ∷ []

read_line-more :
    (line lost : Bytes) (stdin : List Bytes)
    → IsLine line
    → read_line ((line ++ b'\n' ∷ lost) ∷ stdin) ≡ (some (ended line), stdin)
unfolding read_line
read_line-more line lost stdin h = simp (cut_at_found b'\n' line lost h, read_line) refl

prompt-more :
    (line lost : Bytes) (stdin : List Bytes)
    → IsLine line
    → prompt none ((line ++ b'\n' ∷ lost) ∷ stdin) ≡ (ok (trim_space (ended line)), stdin, true)
unfolding prompt
prompt-more line lost stdin h = simp (read_line-more line lost stdin h, prompt) refl

ask-suc :
    (n : ℕ) (line lost : Bytes) (stdin as' : List Bytes)
    → IsLine line
    → ask n stdin ≡ ok as'
    → ask (suc n) ((line ++ b'\n' ∷ lost) ∷ stdin) ≡ ok (trim_space (ended line) ∷ as')
unfolding ask
ask-suc n line lost stdin as' h e = simp (prompt-more line lost stdin h, ask, e) refl

-- On a terminal, where every read gives one line, the prompts get the lines in order, without the
-- white space around them.
pub ask_lines :
    (ls rest : List Bytes)
    → All IsLine ls
    → ask (length ls) (map ended ls ++ rest) ≡ ok (map (λ l. trim_space (ended l)) ls)
unfolding ask
ask_lines [] rest h = refl
ask_lines (l ∷ ls) rest h =
    ask-suc (length ls) l [] (map ended ls ++ rest) _ h.0 (ask_lines ls rest h.1)

-- Where the first read gives more than one line, as on a pipe, and nothing comes behind it, a second
-- prompt fails, whatever the text behind the first line feed is: the reader of the first prompt has
-- taken it.
pub ask_piped :
    (line more : Bytes) (n : ℕ)
    → IsLine line
    → (prompt none ((line ++ b'\n' ∷ more) ∷ []) ≡ (ok (trim_space (ended line)), [], true))
      × (ask (suc (suc n)) ((line ++ b'\n' ∷ more) ∷ [])
          ≡ err (wrap_text (codes "read prompt") (codes "EOF")))
unfolding ask read_line
ask_piped line more n h = (prompt-more line more [] h, simp (prompt-more line more [] h, ask) refl)
