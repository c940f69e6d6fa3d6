-- ===== src/Tgcall/Retry/Result.antt =====
-- What `retry` returns, and after which tries.
use tgpager.Base.{
  ℕ, zero, suc, ◌+◌, ◌<◌, ◌≡◌, refl, true, false, ◌||◌, List, [], ◌∷◌, ◌++◌, Option, none, some,
  codes, ℤ, ◌⊎◌, arith, inl, inr, Bool-cases, Option-cases,
}
use tgpager.Tgcall.Errors.{ErrorLib, permanent}
use tgpager.Tgcall.Retry.{
  Event, tried, pause, Try, retry_wait, interruption, attempt, all_failed, loop, retry,
  loop_interrupted, loop_succeeds, loop_stops, loop_retries,
}
use tgpager.Tgcall.Retry.Schedule.{tries, tries-attempt}

module _ (lib : ErrorLib) (env : ℕ → Try lib) where
  open lib use {Error, wrap}

  -- Try `m` is made and fails in a way that another try may mend.
  pub record Fails (m : ℕ) (e : Error) : Type 0 where
    pub made : interruption lib m (env m) ≡ none
    pub failed : (env m).outcome ≡ some e
    pub mendable : ((env m).cancelled || permanent lib e) ≡ false

  -- All tries from `n` up to `m`, which is left out, fail so; the last error before `m` is the last
  -- index.
  pub data Failing (n : ℕ) (last : Option Error) : ℕ → Option Error → Type 0 where
    start : Failing n last n last
    again :
        {m : ℕ} {x : Option Error} {e : Error}
        → Failing n last m x
        → Fails m e
        → Failing n last (suc m) (some e)

  first_fails :
      {n : ℕ} {e : Error} {last : Option Error} {m : ℕ} {x : Option Error}
      → Fails n e
      → Failing (suc n) (some e) m x
      → Failing n last m x
  first_fails f start = again start f
  first_fails f (again r g) = again (first_fails f r) g

  -- How a run with `left` tries from try `n` on ends, when the tries up to `m` have failed.
  abbrev pub Ended : ℕ → ℕ → ℕ → Option Error → Option Error × List Event → Type 0
  Ended left n m x r =
      ((m < n + left)
        × (n + tries r.1 ≡ suc m)
        × (interruption lib m (env m) ≡ none)
        × ((env m).outcome ≡ none)
        × (r.0 ≡ none))
      ⊎ ((m < n + left)
          × (n + tries r.1 ≡ suc m)
          × (interruption lib m (env m) ≡ none)
          × (e : Error) × ((env m).outcome ≡ some e)
          × (((env m).cancelled || permanent lib e) ≡ true)
          × (r.0 ≡ some e))
      ⊎ ((m < n + left)
          × (n + tries r.1 ≡ m)
          × (e : Error) × (interruption lib m (env m) ≡ some e)
          × (r.0 ≡ some (wrap (codes "retry") e)))
      ⊎ ((m ≡ n + left) × (n + tries r.1 ≡ m) × (r.0 ≡ all_failed lib x))

  abbrev pub Ends : ℕ → ℕ → Option Error → Option Error × List Event → Type 0
  Ends left n last r = (m : ℕ) × (x : Option Error) × Failing n last m x × Ended left n m x r

  -- A try made in front of a run.
  Ended-attempt :
      (left n m : ℕ) (x : Option Error) (wait : ℤ) (r : Option Error × List Event)
      → Ended left (suc n) m x r
      → Ended (suc left) n m x (attempt lib n wait r)
  Ended-attempt left n m x wait (r, es) d = elim d [
    | inl (lt, c, i, o, z) ↦ inl (omega arith, omega (arith, counted), i, o, z)
    | inr (inl (lt, c, i, e, o, f, z)) ↦
        inr (inl (omega arith, omega (arith, counted), i, e, o, f, z))
    | inr (inr (inl (lt, c, e, i, z))) ↦
        inr (inr (inl (omega arith, omega (arith, counted), e, i, z)))
    | inr (inr (inr (eq, c, z))) ↦ inr (inr (inr (omega arith, omega (arith, counted), z)))
  ]
    where
      counted : tries (pause lib n wait ++ tried n ∷ es) ≡ suc (tries es)
      counted = tries-attempt lib n wait es

  loop-Ends :
      (delay : ℤ) (left n : ℕ) (wait : ℤ) (last : Option Error)
      → Ends left n last (loop lib env delay left n wait last)
  loop-Ends delay zero n wait last =
      unfold loop in (n, last, start, inr (inr (inr (omega arith, omega arith, refl))))
  loop-Ends delay (suc left) n wait last = elim (Option-cases (interruption lib n (env n))) [
    | inr (e, i) ↦
        rw (loop_interrupted lib env delay left n wait last i)
          (n, last, start, inr (inr (inl (omega arith, omega arith, e, i, refl))))
    | inl i ↦ elim (Option-cases ((env n).outcome)) [
      | inl o ↦ rw (loop_succeeds lib env delay left n wait last i o) (
        n,
        last,
        start,
        inl (omega arith, omega (arith, tries-attempt lib n wait []), i, o, refl),
      )
      | inr (e, o) ↦ elim (Bool-cases ((env n).cancelled || permanent lib e)) [
        | inl f ↦ rw (loop_stops lib env delay left n wait last i o f) (
          n,
          last,
          start,
          inr (inl (omega arith, omega (arith, tries-attempt lib n wait []), i, e, o, f, refl)),
        )
        | inr f ↦
            let (m, x, fs, d) = loop-Ends delay left (suc n) (retry_wait lib e delay) (some e) in
            rw (loop_retries lib env delay left n wait last i o f) (
              m,
              x,
              first_fails (record { made = i; failed = o; mendable = f }) fs,
              Ended-attempt left n m x wait _ d,
            )
      ]
    ]
  ]

  -- How a run ends, in every case. For some try m, each try before it was made and failed with an error
  -- that may be mended, and one of four things holds: try m succeeds, and the run succeeds; it fails
  -- for good or the context has ended, and its error is returned as it is; the context ends in the
  -- sleep before it, and the context's error is returned; or the allowed tries are used up, and the
  -- error of the last is returned. The run makes no further try.
  pub retry-Ends : (delay : ℤ) (attempts : ℕ) → Ends attempts 1 none (retry lib env delay attempts)
  unfolding retry
  retry-Ends delay attempts = loop-Ends delay attempts 1 delay none
