-- ===== src/Tgcall/Terminal/Tests.antt =====
-- A sign-in at a terminal, and one with its answers piped in.
use tgpager.Base.{◌≡◌, refl, [], ◌∷◌, ◌++◌, none, codes, ok, err, true, arith}
use tgpager.Spaces.{trim_space}
use tgpager.Strings.{wrap_text}
use tgpager.Tgcall.Terminal.{prompt, ask, equal_fold, fold_letter}
use tgpager.Tgcall.Terminal.Lines.{ended, ask_piped}

fold_sample : equal_fold (codes "yES") (codes "yes") ≡ true
unfolding equal_fold fold_letter
fold_sample = refl

ask_piped_example :
    (prompt none ((codes "+100" ++ b'\n' ∷ codes "12345\n") ∷ [])
      ≡ (ok (trim_space (ended (codes "+100"))), [], true))
    × (ask 2 ((codes "+100" ++ b'\n' ∷ codes "12345\n") ∷ [])
        ≡ err (wrap_text (codes "read prompt") (codes "EOF")))
ask_piped_example = ask_piped (codes "+100") (codes "12345\n") 0 (ground arith)
