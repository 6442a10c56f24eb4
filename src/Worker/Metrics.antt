-- ===== src/Worker/Metrics.antt =====
-- crates/ruvoy-envoy-fiber/src/metrics.rs: what the filter's counting effects write to Envoy's
-- statistics. Whether Envoy takes a definition is an argument.
use ruvoy.Prelude.{ℕ, ◌/◌, Bool, ◌&&◌, List, [], ◌∷◌, Bytes, text}
use ruvoy.EnvoyUpstream.Headers.{CallOutcome, label}
use ruvoy.Worker.Defs.{
  Outcome, completed, failed, cancelled, Rejection, admission, invalid_request, internal, Effect,
  counts_submitted, counts_rejected, counts_responded, counts_call, counts_answered,
}

-- A metric of the filter: its name and the names of its labels.
pub record Metric : Type 0 where
  pub name : Bytes
  pub labels : List Bytes

abbrev pub requests : Metric
requests = record { name = text "requests_total"; labels = [] }

abbrev pub rejected : Metric
rejected = record { name = text "rejected_total"; labels = text "reason" ∷ [] }

abbrev pub responses : Metric
responses = record { name = text "responses_total"; labels = text "outcome" ∷ [] }

abbrev pub duration_ms : Metric
duration_ms = record { name = text "duration_ms"; labels = [] }

abbrev pub upstream_calls : Metric
upstream_calls = record {
  name = text "upstream_calls_total";
  labels = text "cluster" ∷ text "outcome" ∷ [];
}

abbrev pub upstream_duration_ms : Metric
upstream_duration_ms = record { name = text "upstream_duration_ms"; labels = text "cluster" ∷ [] }

-- `Metrics::define`: whether there are metrics, which are there only all together.
unfoldable pub define : (Metric → Bool) → Bool
define takes =
    takes requests
    && (takes rejected
        && (takes responses
            && (takes duration_ms && (takes upstream_calls && takes upstream_duration_ms))))

-- What is written: the metric, the values of its labels, and the increment or what is recorded.
pub data Sample : Type 0 where
  increments : Metric → List Bytes → Sample
  records : Metric → List Bytes → ℕ → Sample

unfoldable pub reason : Rejection → Bytes
reason admission = text "admission"
reason invalid_request = text "invalid_request"
reason internal = text "internal"

unfoldable pub outcome_text : Outcome → Bytes
outcome_text completed = text "completed"
outcome_text failed = text "failed"
outcome_text cancelled = text "cancelled"

-- Milliseconds of a duration in nanoseconds.
unfoldable pub as_millis : ℕ → ℕ
as_millis duration = duration / 1_000_000

unfoldable pub submitted : List Sample
submitted = increments requests [] ∷ []

unfoldable pub rejected_for : Rejection → List Sample
unfolding reason
rejected_for why = increments rejected (reason why ∷ []) ∷ []

unfoldable pub responded : Outcome → ℕ → List Sample
unfolding outcome_text as_millis
responded outcome duration =
    increments responses (outcome_text outcome ∷ [])
    ∷ records duration_ms [] (as_millis duration)
    ∷ []

unfoldable pub upstream_call : Bytes → CallOutcome → List Sample
unfolding label
upstream_call cluster outcome = increments upstream_calls (cluster ∷ label outcome ∷ []) ∷ []

unfoldable pub upstream_answered : Bytes → ℕ → List Sample
unfolding as_millis
upstream_answered cluster waited =
    records upstream_duration_ms (cluster ∷ []) (as_millis waited) ∷ []

-- What a counting effect of the filter writes.
unfoldable pub samples : Effect → List Sample
unfolding submitted rejected_for responded upstream_call upstream_answered
samples counts_submitted = submitted
samples (counts_rejected why) = rejected_for why
samples (counts_responded outcome duration) = responded outcome duration
samples (counts_call cluster outcome) = upstream_call cluster outcome
samples (counts_answered cluster waited) = upstream_answered cluster waited
samples _ = []
