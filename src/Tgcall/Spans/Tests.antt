-- ===== src/Tgcall/Spans/Tests.antt =====
-- The spans of a call on a sample.
use tgpager.Base.{◌≡◌, refl, some, [], ◌∷◌, codes, pos}
use tgpager.Tracing.{started, ended, error_recorded, status_error, enclosing, finish_span}
use tgpager.Tracing.Nesting.{NestsIn, starts_of}
use tgpager.Tgcall.Sample.{made, failures}
use tgpager.Tgcall.Call.{ring_once, place_call, hold_call, wait_connected, ring}
use tgpager.Tgcall.Call.Lifetime.{counted}
use tgpager.Tgcall.Call.Tests.{callee, rings}
use tgpager.Tgcall.Spans.{place_spans, attempt_spans, ring_once_span, ring_span}
use tgpager.Tgcall.Spans.Nested.{attempt_name, ring_span-IsWhole}

-- The first attempt of the sample is cut before it is connected, and the second plays.
first_attempt_traced :
    ring_once_span failures (some callee) (rings 1).attempt
    ≡ started (codes "tgcall.Attempt") []
      ∷ started (codes "tgcall.PlaceCall") []
      ∷ ended
      ∷ error_recorded (made (codes "disconnected before connect"))
      ∷ status_error (made (codes "disconnected before connect"))
      ∷ ended
      ∷ []
unfolding ring_once_span attempt_spans place_spans place_call ring_once hold_call wait_connected
    enclosing finish_span
first_attempt_traced = refl

ring_span-IsWhole_example :
    NestsIn 1 (ring_span failures (codes "@oncall") (some callee) rings 3 (pos 2))
    × (starts_of attempt_name (ring_span failures (codes "@oncall") (some callee) rings 3 (pos 2))
        ≡ counted (ring failures (some callee) rings 3 (pos 2)).1)
ring_span-IsWhole_example =
    ring_span-IsWhole failures (codes "@oncall") (some callee) rings 3 (pos 2) 1
