-- ===== src/Tgcall/Retry/Schedule.antt =====
-- The times at which `retry` of internal/tgcall/call.go makes its tries.
use mathlib.Core.Path.{subst}
use tgpager.Base.{
  ℕ, zero, suc, ◌≤◌, ◌≡◌, refl, ap, sym, ◌∙◌, ◌||◌, List, [], ◌∷◌, ◌++◌, Option, none, some, ℤ,
  leb_ℤ, if◌then◌else◌, arith, inl, inr, Bool-cases, Option-cases,
}
use tgpager.Tgcall.Errors.{ErrorLib, permanent}
use tgpager.Tgcall.Retry.{
  Event, waited, tried, Try, retry_wait, pause, interruption, attempt, loop, retry,
  loop_interrupted, loop_succeeds, loop_stops, loop_retries,
}

abbrev pub tries : List Event → ℕ
tries [] = 0
tries (waited w ∷ es) = tries es
tries (tried n ∷ es) = suc (tries es)

module _ (lib : ErrorLib) where
  open lib use {Error, as_flood_wait}

  -- The longer of the configured delay and the wait that Telegram demands with the error.
  abbrev pub demanded : Option Error → ℤ → ℤ
  demanded none delay = delay
  demanded (some e) delay = elim (as_flood_wait e) [
    | none ↦ delay
    | some flood ↦ if leb_ℤ delay flood then flood else delay
  ]

  pub retry_wait-demanded :
      (e : Error) (delay : ℤ) → retry_wait lib e delay ≡ demanded (some e) delay
  unfolding retry_wait
  retry_wait-demanded e delay = elim (Option-cases (as_flood_wait e)) [
    | inl silent ↦ rw (silent, retry_wait) (rw (silent, demanded))
    | inr (flood, asked) ↦ rw (asked, retry_wait) (rw (asked, demanded) (ground arith))
  ]

  pub tries-attempt :
      (n : ℕ) (wait : ℤ) (es : List Event)
      → tries (pause lib n wait ++ tried n ∷ es) ≡ suc (tries es)
  tries-attempt n wait es = ground arith

  module _ (env : ℕ → Try lib) (delay : ℤ) where
    -- `k` tries from try `n` on, with the given sleep before the first of them.
    abbrev pub plan : ℕ → ℕ → ℤ → List Event
    plan zero n wait = []
    plan (suc k) n wait =
        pause lib n wait ++ tried n ∷ plan k (suc n) (demanded ((env n).outcome) delay)

    -- What is known of the events of a run: not too many tries, and those as planned.
    abbrev Planned : ℕ → ℕ → ℤ → Option Error × List Event → Type 0
    Planned left n wait r = (tries r.1 ≤ left) × (r.1 ≡ plan (tries r.1) n wait)

    attempt-Planned :
        (left n : ℕ) (wait : ℤ) (r : Option Error × List Event)
        → Planned left (suc n) (demanded ((env n).outcome) delay) r
        → Planned (suc left) n wait (attempt lib n wait r)
    attempt-Planned left n wait (r, es) (few, planned) = (
      omega (arith, tries-attempt n wait es),
      rw (tries-attempt n wait es) (ap (λ fs. pause lib n wait ++ tried n ∷ fs) planned),
    )

    demanded_after :
        (n : ℕ) (e : Error)
        → (env n).outcome ≡ some e
        → retry_wait lib e delay ≡ demanded ((env n).outcome) delay
    demanded_after n e o = retry_wait-demanded e delay ∙ ap (λ x. demanded x delay) (sym o)

    loop-Planned :
        (left n : ℕ) (wait : ℤ) (last : Option Error)
        → Planned left n wait (loop lib env delay left n wait last)
    loop-Planned zero n wait last = unfold loop in (omega arith, refl)
    loop-Planned (suc left) n wait last = elim (Option-cases (interruption lib n (env n))) [
      | inr (e, i) ↦ rw (loop_interrupted lib env delay left n wait last i) (omega arith, refl)
      | inl i ↦ elim (Option-cases ((env n).outcome)) [
        | inl o ↦
            rw (loop_succeeds lib env delay left n wait last i o)
              (attempt-Planned left n wait (none, []) (omega arith, refl))
        | inr (e, o) ↦ elim (Bool-cases ((env n).cancelled || permanent lib e)) [
          | inl f ↦
              rw (loop_stops lib env delay left n wait last i o f)
                (attempt-Planned left n wait (some e, []) (omega arith, refl))
          | inr f ↦ rw (loop_retries lib env delay left n wait last i o f) (
              attempt-Planned left n wait
                (loop lib env delay left (suc n) (retry_wait lib e delay) (some e))
                (subst
                  (λ w.
                    Planned left (suc n) w
                      (loop lib env delay left (suc n) (retry_wait lib e delay) (some e)))
                  (demanded_after n e o)
                  (loop-Planned left (suc n) (retry_wait lib e delay) (some e))))
        ]
      ]
    ]

    -- A run of `retry` makes at most as many tries as it is allowed, numbered from 1 on, the first at
    -- once and each other one after a sleep: the configured delay, or the wait that Telegram demanded
    -- with the failure of the try before it, if that is longer.
    pub retry-plan :
        (attempts : ℕ)
        → let es = (retry lib env delay attempts).1 in
          (tries es ≤ attempts) × (es ≡ plan (tries es) 1 delay)
    unfolding retry
    retry-plan attempts = loop-Planned attempts 1 delay none
