-- ===== src/Policies/Retry/Tests.antt =====
-- lib/policies/retry.js at concrete reports.
use integration_hell.Common.{◌≡◌, refl, true, none}
use integration_hell.Policies.Retry.{write_timeout, retry, default_decision}

batch_log : default_decision 0 (write_timeout "BATCH_LOG") ≡ retry none true
unfolding default_decision
batch_log = refl
