-- ===== src/Tracing.antt =====
-- The spans of go.opentelemetry.io/otel/trace, by what the packages do with them.
pub mod Nesting
use tgpager.Base.{ℕ, ◌≡◌, Bool, List, [], ◌∷◌, ◌++◌, Bytes, Result, ok, err, ℤ}

-- The value of an attribute; `seconds_of` are the seconds of a duration in nanoseconds, a float.
pub data Value : Type 0 where
  string : Bytes → Value
  number : ℕ → Value
  seconds_of : ℤ → Value
  flag : Bool → Value

abbrev pub Attributes : Type 0
Attributes = List (Bytes × Value)

-- `Start` with its attributes, `SetAttributes`, `AddEvent`, `RecordError`, `SetStatus(codes.Error, err.Error())` and `End`.
pub data SpanDeed (E : Type 0) : Type 0 where
  started : Bytes → Attributes → SpanDeed E
  attributes_set : Attributes → SpanDeed E
  event_added : Bytes → SpanDeed E
  error_recorded status_error : E → SpanDeed E
  ended : SpanDeed E

-- A call of `SetAttributes` for each.
abbrev pub set_each : {E : Type 0} → List Attributes → List (SpanDeed E)
set_each [] = []
set_each (a ∷ more) = attributes_set a ∷ set_each more

module _ {E A : Type 0} where
  -- The deferred function that a traced function begins with.
  unfoldable pub finish_span : Result E A → List (SpanDeed E)
  finish_span (ok a) = ended ∷ []
  finish_span (err e) = error_recorded e ∷ status_error e ∷ ended ∷ []

  -- The span of a function: its name and first attributes, the ones it sets on the way, and its result.
  unfoldable pub traced : Bytes → Attributes → List Attributes → Result E A → List (SpanDeed E)
  unfolding finish_span
  traced name first later r = started name first ∷ (set_each later ++ finish_span r)

  -- The same around the spans of the functions that it calls.
  unfoldable pub enclosing : Bytes → Attributes → List (SpanDeed E) → Result E A → List (SpanDeed E)
  unfolding finish_span
  enclosing name first inner r = started name first ∷ (inner ++ finish_span r)
