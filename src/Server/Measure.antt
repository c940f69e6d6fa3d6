-- ===== src/Server/Measure.antt =====
-- The steps of server.go and of the page loop of main.go that are left without new webhooks, and how many
-- these can be.
use tgpager.Base.{
  ℕ, suc, ◌+◌, ◌*◌, ◌<◌, ◌≡◌, ap, ◌∙◌, inl, inr, Bool, true, false, List, [], ◌∷◌, ◌++◌, Option,
  none, some, length, length-append, arith, ltb, Bool-cases,
}
use tgpager.Server.{CallRequest}
use tgpager.Server.Interleaving.{
  World, resume, receive, finish, Step, begins, resumes, receives, finishes,
}

-- A new webhook enters.
unfoldable pub starts : {w u : World} → Step w u → Bool
starts (begins w req) = true
starts (resumes w xs ys req e) = false
starts (receives w req rest q c) = false
starts (finishes w req c) = false

-- So many steps, none of which is a new webhook.
pub data Work : ℕ → World → World → Type 0 where
  rested : (w : World) → Work 0 w w
  worked :
      {n : ℕ} {w t u : World} → Work n w t → (st : Step t u) → starts st ≡ false → Work (suc n) w u

abbrev pub occupied : Option CallRequest → ℕ
occupied none = 0
occupied (some req) = 1

-- The steps that are left at most.
abbrev pub steps_left : World → ℕ
steps_left w = 3 * length w.pending + 2 * length w.server.queue + occupied w.current

resume-steps_left :
    (w : World) (xs ys : List CallRequest) (req : CallRequest)
    → w.pending ≡ xs ++ req ∷ ys
    → steps_left (resume req (xs ++ ys) w) < steps_left w
unfolding resume
resume-steps_left w xs ys req e =
    let before : length w.pending ≡ suc (length (xs ++ ys)) =
      ap length e ∙ omega (arith, length-append xs (req ∷ ys), length-append xs ys) in
    elim (Bool-cases (ltb (length w.server.queue) w.server.capacity)) [
      | inl room ↦
          rw (room, resume) (omega (arith, before, length-append w.server.queue (req ∷ [])))
      | inr full ↦ rw (full, resume) (omega (arith, before))
    ]

pub Step-steps_left :
    {w u : World} (st : Step w u) → starts st ≡ false → steps_left u < steps_left w
unfolding starts receive finish
Step-steps_left (begins w req) h = absurd (ground arith)
Step-steps_left (resumes w xs ys req e) h = resume-steps_left w xs ys req e
Step-steps_left (receives w req rest q c) h = ground (arith, q, c)
Step-steps_left (finishes w req c) h = ground (arith, c)

abbrev pub AtRest : World → Type 0
AtRest w = (w.pending ≡ []) × (w.server.queue ≡ []) × (w.current ≡ none)

-- Some step is possible that is not a new webhook.
abbrev pub Goes : World → Type 0
Goes w = (v : World) × (st : Step w v) × (starts st ≡ false)
