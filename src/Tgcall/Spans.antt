-- ===== src/Tgcall/Spans.antt =====
-- The spans of a call in internal/tgcall/call.go: those of `Ring`, of its attempts, and of `placeCall`.
pub mod Nested
pub mod Tests
use tgpager.Base.{
  Bool, List, [], ◌∷◌, ◌++◌, Option, none, some, Bytes, codes, ℕ, ℤ, Result, ok, err,
}
use tgpager.Tracing.{Attributes, string, SpanDeed, event_added, started, ended, enclosing}
use tgpager.Tgcall.Errors.{ErrorLib}
use tgpager.Tgcall.Retry.{Event, waited, tried, retry}
use tgpager.Tgcall.Call.{
  InputUser, Attempt, Signal, cancelled, connected, disconnected, Ringing, place_call, ring_once,
  tries_of, ring,
}

module _ (lib : ErrorLib) where
  open lib use {Error}

  -- The result of a function that only returns an error.
  abbrev pub returned : Option Error → Result Error (Unit {0})
  returned none = ok tt
  returned (some e) = err e

  -- `placeCall`: no span without a peer, and no error in the span.
  unfoldable pub place_spans : Option InputUser → List (SpanDeed Error)
  place_spans none = []
  place_spans (some u) = started (codes "tgcall.PlaceCall") [] ∷ ended ∷ []

  abbrev pub signal_spans : Signal lib → List (SpanDeed Error)
  signal_spans (cancelled e) = []
  signal_spans connected = event_added (codes "connected") ∷ []
  signal_spans disconnected = []

  -- What `ringOnce` does with spans inside of its own; the callback has none.
  unfoldable pub attempt_spans : Option InputUser → Attempt lib → List (SpanDeed Error)
  attempt_spans peer a = elim (place_call lib peer a).0 [
    | some e ↦ place_spans peer
    | none ↦ place_spans peer ++ signal_spans a.signal
  ]

  -- The span of `ringOnce`.
  unfoldable pub ring_once_span : Option InputUser → Attempt lib → List (SpanDeed Error)
  ring_once_span peer a =
      enclosing (codes "tgcall.Attempt") [] (attempt_spans peer a)
        (returned (ring_once lib peer a).0)

  module _ (name : Bytes) (peer : Option InputUser) (env : ℕ → Ringing lib) where
    -- Those of the tries that a run makes.
    abbrev pub tried_spans : List Event → List (SpanDeed Error)
    tried_spans [] = []
    tried_spans (waited w ∷ es) = tried_spans es
    tried_spans (tried n ∷ es) = ring_once_span peer ((env n).attempt) ++ tried_spans es

    -- The span of `Ring`, for the peer of that name in the configuration.
    unfoldable pub ring_span : ℕ → ℤ → List (SpanDeed Error)
    ring_span attempts delay =
        enclosing (codes "tgcall.Ring") ((codes "tgpager.peer", string name) ∷ [])
          (tried_spans ((retry lib (tries_of lib peer env) delay attempts).1))
          (returned (ring lib peer env attempts delay).0)
