-- ===== src/Tts/Metrics.antt =====
-- What NewSpeaker of internal/tts/speaker.go counts with.
use tgpager.Base.{Bytes, codes, List, [], ◌∷◌, Result, ok, ◌>>=◌, ◌≡◌, arith}
use tgpager.Telemetry.{
  Instrument, int64_counter, float64_histogram, MeterProvider, create, refusal, made_or,
}

abbrev pub instrumentation_name : Bytes
instrumentation_name = codes "github.com/go-faster/tgpager/internal/tts"

pub record Metrics : Type 0 where
  pub requests : Instrument
  pub fallback : Instrument
  pub duration : Instrument

abbrev pub speaker_metrics : Metrics
speaker_metrics = record {
  requests = record {
    shape = int64_counter;
    name = codes "tgpager.tts.requests";
    description = codes "Speech synthesis attempts by result";
    unit = [];
  };
  fallback = record {
    shape = int64_counter;
    name = codes "tgpager.tts.fallbacks";
    description = codes "Pages that played the static file because synthesis failed";
    unit = [];
  };
  duration = record {
    shape = float64_histogram;
    name = codes "tgpager.tts.duration";
    description = codes "Speech synthesis duration";
    unit = codes "s";
  };
}

abbrev pub speaker_instruments : List Instrument
speaker_instruments =
    speaker_metrics.requests ∷ speaker_metrics.fallback ∷ speaker_metrics.duration ∷ []

module _ {E : Type 0} where
  unfoldable pub new_metrics : MeterProvider E → Result E Metrics
  new_metrics mp = do
    requests ← create mp instrumentation_name speaker_metrics.requests
    fallback ← create mp instrumentation_name speaker_metrics.fallback
    duration ← create mp instrumentation_name speaker_metrics.duration
    ok (record { requests = requests; fallback = fallback; duration = duration })

  -- The metrics are the three instruments, or the error is the first refusal among them.
  pub new_metrics_lem :
      (mp : MeterProvider E)
      → new_metrics mp
        ≡ made_or (refusal mp instrumentation_name speaker_instruments) speaker_metrics
  unfolding new_metrics
  new_metrics_lem mp = ground arith
