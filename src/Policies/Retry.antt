-- ===== src/Policies/Retry.antt =====
-- lib/policies/retry.js: `RetryPolicy` and `FallthroughRetryPolicy`.
mod Tests
use Prim.Native.String.{String}
use text.Mathlib.Text.{◌==◌}
use integration_hell.Common.{
  ◌⊎◌, inl, inr, ℕ, ◌≤◌, ◌≡◌, refl, ◌↔◌, arith, Bool, true, false, not, ◌&&◌, Option, none, some,
  leb, ltb, if◌then◌else◌,
}

-- `DecisionInfo` with its constants: `rethrow`, and `retry` with a consistency and a host.
pub data Decision : Type 0 where
  rethrow : Decision
  retry : Option ℕ → Bool → Decision

-- `retryResult(consistency, useCurrentHost)`, where `none` is `undefined`
pub retry_result : Option ℕ → Option Bool → Decision
retry_result consistency none = retry consistency true
retry_result consistency (some use_current) = retry consistency use_current

pub on_unavailable : ℕ → Decision
unfolding retry_result
on_unavailable nb_retry = if ltb 0 nb_retry then rethrow else retry_result none (some false)

pub on_read_timeout : ℕ → ℕ → ℕ → Bool → Decision
unfolding retry_result
on_read_timeout nb_retry received block_for is_data_present =
    if ltb 0 nb_retry
    then rethrow
    else if leb block_for received && not is_data_present
    then retry_result none none
    else rethrow

pub on_write_timeout : ℕ → String → Decision
unfolding retry_result
on_write_timeout nb_retry write_type =
    if ltb 0 nb_retry
    then rethrow
    else if write_type == "BATCH_LOG"
    then retry_result none none
    else rethrow

pub on_request_error : Decision
unfolding retry_result
on_request_error = retry_result none (some false)

-- What a coordinator or the connection reports, as the policy sees it.
pub data Report : Type 0 where
  unavailable : Report
  read_timeout : ℕ → ℕ → Bool → Report
  write_timeout : String → Report
  request_error : Report

pub default_decision : ℕ → Report → Decision
unfolding on_unavailable on_read_timeout on_write_timeout on_request_error
default_decision nb_retry unavailable = on_unavailable nb_retry
default_decision nb_retry (read_timeout received block_for is_data_present) =
    on_read_timeout nb_retry received block_for is_data_present
default_decision nb_retry (write_timeout write_type) = on_write_timeout nb_retry write_type
default_decision nb_retry request_error = on_request_error

-- `FallthroughRetryPolicy` gives `rethrow` from each of its four methods.
pub fallthrough_decision : ℕ → Report → Decision
fallthrough_decision nb_retry report = rethrow

-- When the default policy retries, and on which host.
abbrev pub Retries : ℕ → Report → Bool → Type 0
Retries nb_retry unavailable same = (nb_retry ≡ 0) × (same ≡ false)
Retries nb_retry (read_timeout received block_for is_data_present) same =
    (nb_retry ≡ 0) × (block_for ≤ received) × (is_data_present ≡ false) × (same ≡ true)
Retries nb_retry (write_timeout write_type) same =
    (nb_retry ≡ 0) × ((write_type == "BATCH_LOG") ≡ true) × (same ≡ true)
Retries nb_retry request_error same = same ≡ false

-- The default policy retries exactly these reports, with the consistency left alone: a first
-- unavailable error, on the next host; a first read timeout with enough answers and no data, on the
-- same host; a first write timeout of a batch log, on the same host; any request error, on the next
-- host.
pub default_decision-Retries :
    (nb_retry : ℕ) (report : Report) (same : Bool)
    → (default_decision nb_retry report ≡ retry none same) ↔ Retries nb_retry report same
unfolding default_decision
default_decision-Retries nb_retry unavailable same = ground arith
default_decision-Retries nb_retry (read_timeout received block_for is_data_present) same =
    ground arith
default_decision-Retries nb_retry (write_timeout write_type) same = ground arith
default_decision-Retries nb_retry request_error same = ground arith
