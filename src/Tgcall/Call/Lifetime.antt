-- ===== src/Tgcall/Call/Lifetime.antt =====
-- The effects of `Ring` of internal/tgcall/call.go, replayed on the calls that are up.
use tgpager.Base.{
  ap, ◌∙◌, ℕ, zero, suc, ◌+◌, ◌≡◌, refl, Bool, true, false, List, [], ◌∷◌, ◌++◌, Option, none, some,
  ℤ, arith,
}
use tgpager.Tgcall.Errors.{ErrorLib}
use tgpager.Tgcall.Retry.{Event, waited, tried, retry}
use tgpager.Tgcall.Retry.Schedule.{tries}
use tgpager.Tgcall.Call.{
  InputUser, Effect, accepted, refused, played, discarded, attempt_counted, duration_recorded,
  Attempt, Ringing, ring_once, tries_of, effects_of, ring,
}

-- Runs the effects on whether there is a call that was accepted and not yet asked to be hung up; none is a
-- fault: a second call beside it, audio with no such call, or a hangup of none.
pub held_after : List Effect → Bool → Option Bool
held_after [] held = some held
held_after (accepted u ∷ es) true = none
held_after (accepted u ∷ es) false = held_after es true
held_after (refused u ∷ es) held = held_after es held
held_after (played ∷ es) true = held_after es true
held_after (played ∷ es) false = none
held_after (discarded f ∷ es) true = held_after es false
held_after (discarded f ∷ es) false = none
held_after (attempt_counted f ∷ es) held = held_after es held
held_after (duration_recorded f ∷ es) held = held_after es held

-- How many calls are up behind the effects, beside `n` that were before: a hangup that fails leaves its call
-- up.
unfoldable pub up_after : List Effect → ℕ → ℕ
up_after [] n = n
up_after (accepted u ∷ es) n = up_after es (suc n)
up_after (discarded true ∷ es) n = up_after es n
up_after (discarded false ∷ es) zero = up_after es zero
up_after (discarded false ∷ es) (suc n) = up_after es n
up_after (refused u ∷ es) n = up_after es n
up_after (played ∷ es) n = up_after es n
up_after (attempt_counted f ∷ es) n = up_after es n
up_after (duration_recorded f ∷ es) n = up_after es n

-- The hangups that failed.
pub failed_hangups : List Effect → ℕ
failed_hangups [] = 0
failed_hangups (discarded true ∷ es) = suc (failed_hangups es)
failed_hangups (discarded false ∷ es) = failed_hangups es
failed_hangups (accepted u ∷ es) = failed_hangups es
failed_hangups (refused u ∷ es) = failed_hangups es
failed_hangups (played ∷ es) = failed_hangups es
failed_hangups (attempt_counted f ∷ es) = failed_hangups es
failed_hangups (duration_recorded f ∷ es) = failed_hangups es

pub counted : List Effect → ℕ
counted [] = 0
counted (attempt_counted f ∷ es) = suc (counted es)
counted (accepted u ∷ es) = counted es
counted (refused u ∷ es) = counted es
counted (played ∷ es) = counted es
counted (discarded f ∷ es) = counted es
counted (duration_recorded f ∷ es) = counted es

module _ (lib : ErrorLib) where
  ring_once-held :
      (peer : Option InputUser) (a : Attempt lib) (es : List Effect)
      → held_after ((ring_once lib peer a).1 ++ es) false ≡ held_after es false
  unfolding ring_once held_after
  ring_once-held none a es = refl
  ring_once-held (some u) a es = ground arith

  ring_once-up :
      (peer : Option InputUser) (a : Attempt lib) (es : List Effect)
      → ((n : ℕ) → up_after es n ≡ failed_hangups es + n)
      → (n : ℕ)
      → up_after ((ring_once lib peer a).1 ++ es) n
        ≡ failed_hangups ((ring_once lib peer a).1 ++ es) + n
  unfolding ring_once up_after failed_hangups
  ring_once-up none a es h n = h n
  ring_once-up (some u) a es h n = ground (arith, h n, h (suc n))

  ring_once-counted :
      (peer : Option InputUser) (a : Attempt lib) (es : List Effect)
      → counted ((ring_once lib peer a).1 ++ es) ≡ suc (counted es)
  unfolding ring_once counted
  ring_once-counted none a es = refl
  ring_once-counted (some u) a es = ground arith

  module _ (peer : Option InputUser) (env : ℕ → Ringing lib) where
    effects_of-held : (es : List Event) → held_after (effects_of lib peer env es) false ≡ some false
    effects_of-held [] = unfold held_after in refl
    effects_of-held (waited w ∷ es) = effects_of-held es
    effects_of-held (tried n ∷ es) =
        ring_once-held peer ((env n).attempt) (effects_of lib peer env es) ∙ effects_of-held es

    effects_of-up :
        (es : List Event) (n : ℕ)
        → up_after (effects_of lib peer env es) n ≡ failed_hangups (effects_of lib peer env es) + n
    unfolding up_after failed_hangups
    effects_of-up [] n = omega arith
    effects_of-up (waited w ∷ es) n = effects_of-up es n
    effects_of-up (tried k ∷ es) n =
        ring_once-up peer ((env k).attempt) (effects_of lib peer env es) (effects_of-up es) n

    effects_of-counted : (es : List Event) → counted (effects_of lib peer env es) ≡ tries es
    effects_of-counted [] = unfold counted in refl
    effects_of-counted (waited w ∷ es) = effects_of-counted es
    effects_of-counted (tried n ∷ es) =
        ring_once-counted peer ((env n).attempt) (effects_of lib peer env es)
        ∙ ap suc (effects_of-counted es)

    -- However the calls, the waits and the context end, a run of `Ring` asks to hang up each call that was
    -- accepted, once and before it requests another, and plays audio only into a call that it has not yet
    -- asked to hang up. Of the calls it leaves up exactly those whose hangup failed, beside the `n` that were
    -- up before. And it counts one attempt for each try that it makes.
    pub ring-up :
        (attempts : ℕ) (delay : ℤ) (n : ℕ)
        → let es = (ring lib peer env attempts delay).1 in
          (held_after es false ≡ some false)
          × (up_after es n ≡ failed_hangups es + n)
          × (counted es ≡ tries (retry lib (tries_of lib peer env) delay attempts).1)
    unfolding ring
    ring-up attempts delay n =
        let es = (retry lib (tries_of lib peer env) delay attempts).1 in
        (effects_of-held es, effects_of-up es n, effects_of-counted es)
