-- ===== src/Tgcall/Metrics.antt =====
-- internal/tgcall/metrics.go: what the client counts with.
use tgpager.Base.{Bytes, codes, List, [], ◌∷◌, Option, none, some, Result, ok, ◌>>=◌, ◌≡◌, arith}
use tgpager.Telemetry.{
  Instrument, int64_counter, float64_histogram, MeterProvider, create, refusal, made_or,
}

abbrev pub instrumentation_name : Bytes
instrumentation_name = codes "github.com/go-faster/tgpager/internal/tgcall"

pub record Metrics : Type 0 where
  pub attempts : Instrument
  pub duration : Instrument
  pub voice : Instrument
  pub text : Instrument

abbrev pub client_metrics : Metrics
client_metrics = record {
  attempts = record {
    shape = int64_counter;
    name = codes "tgpager.call.attempts";
    description = codes "Telegram call attempts by outcome";
    unit = [];
  };
  duration = record {
    shape = float64_histogram;
    name = codes "tgpager.call.duration";
    description = codes "Duration of a call attempt";
    unit = codes "s";
  };
  voice = record {
    shape = int64_counter;
    name = codes "tgpager.voice.messages";
    description = codes "Voice messages sent by outcome";
    unit = [];
  };
  text = record {
    shape = int64_counter;
    name = codes "tgpager.text.messages";
    description = codes "Text messages sent by outcome";
    unit = [];
  };
}

abbrev pub client_instruments : List Instrument
client_instruments =
    client_metrics.attempts ∷ client_metrics.duration ∷ client_metrics.voice ∷ client_metrics.text
    ∷ []

module _ {E : Type 0} where
  -- `newMetrics`.
  unfoldable pub new_metrics : MeterProvider E → Result E Metrics
  new_metrics mp = do
    attempts ← create mp instrumentation_name client_metrics.attempts
    duration ← create mp instrumentation_name client_metrics.duration
    voice ← create mp instrumentation_name client_metrics.voice
    text ← create mp instrumentation_name client_metrics.text
    ok (record { attempts = attempts; duration = duration; voice = voice; text = text })

  -- `outcome`.
  unfoldable pub outcome : Option E → Bytes × Bytes
  outcome none = (codes "outcome", codes "success")
  outcome (some e) = (codes "outcome", codes "failure")

  -- The metrics are the four instruments, or the error is the first refusal among them.
  pub new_metrics_lem :
      (mp : MeterProvider E)
      → new_metrics mp ≡ made_or (refusal mp instrumentation_name client_instruments) client_metrics
  unfolding new_metrics
  new_metrics_lem mp = ground arith
