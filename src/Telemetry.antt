-- ===== src/Telemetry.antt =====
-- The instruments that the packages make at a meter of go.opentelemetry.io/otel, which may refuse one.
use tgpager.Base.{Bytes, List, [], ◌∷◌, Option, none, some, Result, ok, err, ◌≡◌, refl}

pub data Shape : Type 0 where
  int64_counter float64_histogram : Shape

-- An instrument as it is asked for; no unit is the empty one.
pub record Instrument : Type 0 where
  pub shape : Shape
  pub name : Bytes
  pub description : Bytes
  pub unit : Bytes

-- A provider, by the answers of its meters: the name of the meter, the instrument, and the error if it
-- is not made.
abbrev pub MeterProvider : Type 0 → Type 0
MeterProvider E = Bytes → Instrument → Option E

module _ {E : Type 0} where
  -- That of otel/metric/noop makes every instrument.
  abbrev pub noop : MeterProvider E
  noop meter i = none

  -- `if opts.MeterProvider == nil`.
  abbrev pub or_noop : Option (MeterProvider E) → MeterProvider E
  or_noop none = noop
  or_noop (some mp) = mp

  abbrev pub create : MeterProvider E → Bytes → Instrument → Result E Instrument
  create mp meter i = elim (mp meter i) [ none ↦ ok i | some e ↦ err e ]

  -- The first refusal among instruments that are asked for in turn.
  abbrev pub refusal : MeterProvider E → Bytes → List Instrument → Option E
  refusal mp meter [] = none
  refusal mp meter (i ∷ is) = elim (mp meter i) [ none ↦ refusal mp meter is | some e ↦ some e ]

  abbrev pub made_or : {A : Type 0} → Option E → A → Result E A
  made_or none a = ok a
  made_or (some e) a = err e

  -- A provider whose meters make every instrument they are asked for.
  abbrev pub MakesAll : Option (MeterProvider E) → Type 0
  MakesAll mp = (meter : Bytes) (i : Instrument) → or_noop mp meter i ≡ none

  pub MakesAll-refusal :
      (mp : Option (MeterProvider E)) (meter : Bytes) (is : List Instrument)
      → MakesAll mp
      → refusal (or_noop mp) meter is ≡ none
  MakesAll-refusal mp meter [] makes = refl
  MakesAll-refusal mp meter (i ∷ is) makes =
      rw (makes meter i, refusal) (MakesAll-refusal mp meter is makes)
