-- ===== src/Server/Metrics.antt =====
-- internal/server/metrics.go: what the webhook server counts with.
use tgpager.Base.{Bytes, codes, ℕ, List, [], ◌∷◌, Option, Result, ok, ◌>>=◌, ◌≡◌, refl, arith}
use tgpager.Telemetry.{
  Instrument, int64_counter, MeterProvider, or_noop, MakesAll, MakesAll-refusal, create, refusal,
  made_or,
}
use tgpager.Server.{
  Server, new, Verdict, unauthorized, malformed, invalid, not_firing, duplicate, queued,
}

abbrev pub instrumentation_name : Bytes
instrumentation_name = codes "github.com/go-faster/tgpager/internal/server"

pub record Metrics : Type 0 where
  pub webhooks : Instrument
  pub queued_pages : Instrument

abbrev pub server_metrics : Metrics
server_metrics = record {
  webhooks = record {
    shape = int64_counter;
    name = codes "tgpager.webhooks.received";
    description = codes "Alertmanager webhooks by result";
    unit = [];
  };
  queued_pages = record {
    shape = int64_counter;
    name = codes "tgpager.pages.queued";
    description = codes "Pages accepted onto the call queue";
    unit = [];
  };
}

abbrev pub server_instruments : List Instrument
server_instruments = server_metrics.webhooks ∷ server_metrics.queued_pages ∷ []

-- `resultAttr`, at the texts that the handler gives it.
unfoldable pub result_attr : Verdict → Bytes × Bytes
result_attr unauthorized = (codes "result", codes "unauthorized")
result_attr malformed = (codes "result", codes "malformed")
result_attr invalid = (codes "result", codes "invalid")
result_attr not_firing = (codes "result", codes "not_firing")
result_attr duplicate = (codes "result", codes "duplicate")
result_attr queued = (codes "result", codes "queued")

-- Webhooks with different verdicts are counted apart.
pub result_attr_unique : (v w : Verdict) → result_attr v ≡ result_attr w → v ≡ w
unfolding result_attr
result_attr_unique v w h = ground arith

module _ {E : Type 0} where
  -- `newMetrics`.
  unfoldable pub new_metrics : MeterProvider E → Result E Metrics
  new_metrics mp = do
    webhooks ← create mp instrumentation_name server_metrics.webhooks
    pages ← create mp instrumentation_name server_metrics.queued_pages
    ok (record { webhooks = webhooks; queued_pages = pages })

  -- The metrics are the two instruments, or the error is the first refusal among them.
  pub new_metrics_lem :
      (mp : MeterProvider E)
      → new_metrics mp ≡ made_or (refusal mp instrumentation_name server_instruments) server_metrics
  unfolding new_metrics
  new_metrics_lem mp = ground arith

  -- `New`: an error of the metrics is a panic.
  unfoldable pub new_server : Option (MeterProvider E) → ℕ → Bytes → Result E Server
  new_server mp queue_size token = do m ← new_metrics (or_noop mp); ok (new queue_size token)

  pub MakesAll-new_server :
      (mp : Option (MeterProvider E)) (queue_size : ℕ) (token : Bytes)
      → MakesAll mp
      → new_server mp queue_size token ≡ ok (new queue_size token)
  unfolding new_server
  MakesAll-new_server mp queue_size token makes =
      simp (new_metrics_lem, MakesAll-refusal mp instrumentation_name server_instruments makes) refl
