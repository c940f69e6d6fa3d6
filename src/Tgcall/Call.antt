-- ===== src/Tgcall/Call.antt =====
-- `Ring` and what it is made of, in internal/tgcall/call.go: one attempt at a call, and its effects.
pub mod Lifetime
pub mod Answered
pub mod Tests
use tgpager.Base.{ℕ, Bool, true, false, List, [], ◌∷◌, ◌++◌, Option, none, some, Bytes, codes, ℤ}
use tgpager.Tgcall.Errors.{ErrorLib}
use tgpager.Tgcall.Retry.{Event, waited, tried, Try, retry}

-- `tg.InputUserClass`: the three classes that the client handles, and any other.
pub data InputUser : Type 0 where
  input_user : ℤ → ℤ → InputUser
  input_user_self : InputUser
  input_user_from_message : ℤ → ℤ → ℤ → InputUser
  other_user : InputUser

-- What an attempt does to the world, in order: `calls.Request` accepted or failed, the callback that
-- plays the audio, `calls.Discard` and the two metrics by outcome (true is a failure).
pub data Effect : Type 0 where
  accepted : InputUser → Effect
  refused : InputUser → Effect
  played : Effect
  discarded : Bool → Effect
  attempt_counted : Bool → Effect
  duration_recorded : Bool → Effect

abbrev pub is_failure {ℓ} : {E : Type ℓ} → Option E → Bool
is_failure none = false
is_failure (some e) = true

module _ (lib : ErrorLib) where
  open lib use {Error, new, wrap}

  -- What comes first after a call is accepted: the end of the context or the timeout, the callback of
  -- `OnConnected`, or that of `OnDisconnected`.
  pub data Signal : Type 0 where
    cancelled : Error → Signal
    connected : Signal
    disconnected : Signal

  -- How the calls of one attempt end: `calls.Request`, the wait, the callback, and `calls.Discard`.
  pub record Attempt : Type 0 where
    pub request : Option Error
    pub signal : Signal
    pub play : Option Error
    pub discard : Option Error

  unfoldable pub wait_connected : Signal → Option Error
  wait_connected (cancelled e) = some (wrap (codes "wait connected") e)
  wait_connected connected = none
  wait_connected disconnected = some (new (codes "disconnected before connect"))

  -- `placeCall`: nil or the error, and the request that was made.
  unfoldable pub place_call : Option InputUser → Attempt → Option Error × List Effect
  place_call none a = (some (new (codes "peer is not resolved")), [])
  place_call (some u) a = elim a.request [
    | none ↦ (none, accepted u ∷ [])
    | some e ↦ (some (wrap (codes "request call") e), refused u ∷ [])
  ]

  -- From the accepted call on: the hangup is deferred, and its error is only logged.
  unfoldable pub hold_call : Attempt → Option Error × List Effect
  hold_call a = elim (wait_connected a.signal) [
    | some e ↦ (some e, discarded (is_failure a.discard) ∷ [])
    | none ↦ (a.play, played ∷ discarded (is_failure a.discard) ∷ [])
  ]

  -- The deferred metrics run last.
  abbrev pub measured : Option Error × List Effect → Option Error × List Effect
  measured (r, es) =
      (r, es ++ attempt_counted (is_failure r) ∷ duration_recorded (is_failure r) ∷ [])

  unfoldable pub ring_once : Option InputUser → Attempt → Option Error × List Effect
  unfolding place_call hold_call wait_connected
  ring_once peer a =
      let (r, es) = place_call peer a in
      elim r [
        | some e ↦ measured (some e, es)
        | none ↦ let (r', es') = hold_call a in measured (r', es ++ es')
      ]

  -- An attempt in a run of `retry`, and what the context does around it.
  pub record Ringing : Type 0 where
    pub attempt : Attempt
    pub interrupted : Option Error
    pub cancelled_after : Bool

  module _ (peer : Option InputUser) (env : ℕ → Ringing) where
    -- `Ring` gives `retry` one call of `ringOnce` for each try.
    abbrev pub tries_of : ℕ → Try lib
    tries_of n = record {
      interrupted = (env n).interrupted;
      outcome = (ring_once peer ((env n).attempt)).0;
      cancelled = (env n).cancelled_after;
    }

    abbrev pub effects_of : List Event → List Effect
    effects_of [] = []
    effects_of (waited w ∷ es) = effects_of es
    effects_of (tried n ∷ es) = (ring_once peer ((env n).attempt)).1 ++ effects_of es

    unfoldable pub ring : ℕ → ℤ → Option Error × List Effect
    ring attempts delay = let (r, es) = retry lib tries_of delay attempts in (r, effects_of es)
