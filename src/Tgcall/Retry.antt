-- ===== src/Tgcall/Retry.antt =====
-- `retry` and `retryWait` of internal/tgcall/call.go. The environment says, for each try, how it ends.
pub mod Schedule
pub mod Result
use tgpager.Base.{
  ℕ, zero, suc, Bool, true, false, ◌||◌, List, [], ◌∷◌, ◌++◌, Option, none, some, Bytes, codes, ℤ,
  leb_ℤ, ltb, if◌then◌else◌, ◌≡◌, refl, arith,
}
use tgpager.Tgcall.Errors.{ErrorLib, permanent}

-- What a run of `retry` does, in order: it sleeps before a try, and it makes the try of that number.
pub data Event : Type 0 where
  waited : ℤ → Event
  tried : ℕ → Event

module _ (lib : ErrorLib) where
  open lib use {Error, wrap, wrap_nil, as_flood_wait}

  -- A try: the error of a context that ends during the sleep before it, the result of `attempt`, and
  -- whether the context has ended when it returns.
  pub record Try : Type 0 where
    pub interrupted : Option Error
    pub outcome : Option Error
    pub cancelled : Bool

  unfoldable pub retry_wait : Error → ℤ → ℤ
  retry_wait e base = elim (as_flood_wait e) [
    | none ↦ base
    | some flood ↦ if leb_ℤ flood base then base else flood
  ]

  -- The sleep before try `n`, which only the first goes without.
  abbrev pub pause : ℕ → ℤ → List Event
  pause n wait = if ltb 1 n then waited wait ∷ [] else []

  abbrev pub interruption : ℕ → Try → Option Error
  interruption n t = if ltb 1 n then t.interrupted else none

  -- Try `n` is made after its sleep, and the rest of the run follows.
  abbrev pub attempt : ℕ → ℤ → Option Error × List Event → Option Error × List Event
  attempt n wait (r, es) = (r, pause n wait ++ tried n ∷ es)

  -- `errors.Wrapf(lastErr, "all %d attempts failed", attempts)`.
  abbrev pub all_failed : Option Error → Option Error
  all_failed none = wrap_nil (codes "all %d attempts failed")
  all_failed (some e) = some (wrap (codes "all %d attempts failed") e)

  module _ (env : ℕ → Try) (delay : ℤ) where
    -- The loop with `left` tries to go, at try `n`.
    unfoldable pub loop : ℕ → ℕ → ℤ → Option Error → Option Error × List Event
    unfolding retry_wait
    loop zero n wait last = (all_failed last, [])
    loop (suc left) n wait last = elim (interruption n (env n)) [
      | some e ↦ (some (wrap (codes "retry") e), [])
      | none ↦ attempt n wait (elim ((env n).outcome) [
        | none ↦ (none, [])
        | some e ↦ elim ((env n).cancelled || permanent lib e) [
          | true ↦ (some e, [])
          | false ↦ loop left (suc n) (retry_wait e delay) (some e)
        ]
      ])
    ]

    unfoldable pub retry : ℕ → Option Error × List Event
    unfolding loop
    retry attempts = loop attempts 1 delay none

    -- One round of the loop, by how try `n` ends.
    pub loop_interrupted :
        (left n : ℕ) (wait : ℤ) (last : Option Error) {e : Error}
        → interruption n (env n) ≡ some e
        → loop (suc left) n wait last ≡ (some (wrap (codes "retry") e), [])
    unfolding loop
    loop_interrupted left n wait last i = rw (i, loop)

    pub loop_succeeds :
        (left n : ℕ) (wait : ℤ) (last : Option Error)
        → interruption n (env n) ≡ none
        → (env n).outcome ≡ none
        → loop (suc left) n wait last ≡ attempt n wait (none, [])
    unfolding loop
    loop_succeeds left n wait last i o = rw (i, loop) (rw (o, loop))

    pub loop_stops :
        (left n : ℕ) (wait : ℤ) (last : Option Error) {e : Error}
        → interruption n (env n) ≡ none
        → (env n).outcome ≡ some e
        → ((env n).cancelled || permanent lib e) ≡ true
        → loop (suc left) n wait last ≡ attempt n wait (some e, [])
    unfolding loop
    loop_stops left n wait last i o f = rw (i, loop) (rw (o, loop) (rw f))

    pub loop_retries :
        (left n : ℕ) (wait : ℤ) (last : Option Error) {e : Error}
        → interruption n (env n) ≡ none
        → (env n).outcome ≡ some e
        → ((env n).cancelled || permanent lib e) ≡ false
        → loop (suc left) n wait last
          ≡ attempt n wait (loop left (suc n) (retry_wait e delay) (some e))
    unfolding loop
    loop_retries left n wait last i o f = rw (i, loop) (rw (o, loop) (rw f))
