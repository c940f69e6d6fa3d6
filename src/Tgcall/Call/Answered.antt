-- ===== src/Tgcall/Call/Answered.antt =====
-- When `Ring` of internal/tgcall/call.go succeeds.
use tgpager.Base.{
  ℕ, ◌≤◌, ◌<◌, ◌≡◌, ◌≢◌, refl, sym, ◌∙◌, Option, none, some, ℤ, inl, inr, arith, Option-cases,
}
use tgpager.Tgcall.Errors.{ErrorLib}
use tgpager.Tgcall.Call.{
  InputUser, Attempt, Signal, connected, cancelled, disconnected, wait_connected, place_call,
  hold_call, ring_once, Ringing, tries_of, ring,
}
use tgpager.Tgcall.Retry.{retry, all_failed}
use tgpager.Tgcall.Retry.Result.{retry-Ends, Failing, start, again}

module _ (lib : ErrorLib) (peer : Option InputUser) where
  -- A try is answered: the call is accepted and connected, and the callback has ended without an error.
  pub record IsAnswered (a : Attempt lib) : Type 0 where
    pub requested : a.request ≡ none
    pub joined : a.signal ≡ connected
    pub played_all : a.play ≡ none

  joined_of : (s : Signal lib) → wait_connected lib s ≡ none → s ≡ connected
  unfolding wait_connected
  joined_of connected h = refl
  joined_of (cancelled e) h = absurd (ground arith)
  joined_of disconnected h = absurd (ground arith)

  ring_once-IsAnswered : (a : Attempt lib) → (ring_once lib peer a).0 ≡ none → IsAnswered a
  unfolding ring_once place_call hold_call
  ring_once-IsAnswered a h = elim (Option-cases peer) [
    | inl p ↦ absurd (ground (arith, p, h))
    | inr (u, p) ↦ elim (Option-cases a.request) [
      | inr (e, r) ↦ absurd (ground (arith, p, r, h))
      | inl r ↦ elim (Option-cases (wait_connected lib a.signal)) [
        | inr (e, w) ↦ absurd (ground (arith, p, r, w, h))
        | inl w ↦ record {
          requested = r;
          joined = joined_of a.signal w;
          played_all = sym (held u p r w) ∙ h;
        }
      ]
    ]
  ]
    where
      held :
          (u : InputUser)
          → peer ≡ some u
          → a.request ≡ none
          → wait_connected lib a.signal ≡ none
          → (ring_once lib peer a).0 ≡ a.play
      held u p r w = simp (p, r, w, ring_once, place_call, hold_call) refl

  module _ (env : ℕ → Ringing lib) where
    last_failed :
        {n m : ℕ} {last x : Option lib.Error}
        → Failing lib (tries_of lib peer env) n last m x
        → n < m
        → (e : lib.Error) × (x ≡ some e)
    last_failed start lt = absurd (omega (arith, lt))
    last_failed (again {e = e} r f) lt = (e, refl)

    all_fail :
        (e : lib.Error) (x r : Option lib.Error) → x ≡ some e → r ≡ all_failed lib x → r ≢ none
    all_fail e x r same z h = ground (arith, same, z, h)

    -- If `Ring` succeeds, and is allowed at least one try, then some try was answered.
    pub ring-IsAnswered :
        (attempts : ℕ) (delay : ℤ)
        → 1 ≤ attempts
        → (ring lib peer env attempts delay).0 ≡ none
        → (n : ℕ) × IsAnswered ((env n).attempt)
    unfolding ring
    ring-IsAnswered attempts delay some_try h =
        let (m, x, fails, ended) = retry-Ends lib (tries_of lib peer env) delay attempts in
        elim ended [
          | inl (lt, c, i, o, z) ↦ (m, ring_once-IsAnswered ((env m).attempt) o)
          | inr (inl (lt, c, i, e, o, f, z)) ↦ absurd (ground (arith, z, h))
          | inr (inr (inl (lt, c, e, i, z))) ↦ absurd (ground (arith, z, h))
          | inr (inr (inr (eq, c, z))) ↦
              let (e, same) = last_failed fails (omega (arith, eq, some_try)) in
              absurd (all_fail e x (retry lib (tries_of lib peer env) delay attempts).0 same z h)
        ]
