-- ===== src/AgentRunManager/Lease.antt =====
-- The lease of src/persistence/repositories/agent_run_manager.py: its constants, the two tests of
-- its expiry, and the readings of the database's clock.
use instructional_agent_mvp.Prelude.{
  ℕ, ◌+◌, ◌<◌, ◌≡◌, Bool, false, Option, none, some, arith, ltb, leb, not,
}

abbrev pub provider_timeout_seconds : ℕ
provider_timeout_seconds = 30

abbrev pub safety_margin_seconds : ℕ
safety_margin_seconds = 15

abbrev pub lease_duration_seconds : ℕ
lease_duration_seconds = 60

-- The times that one transaction reads: `now()`, which is fixed when it starts, and
-- `clock_timestamp()` in the WHERE clause of its ownership statement, in the SET clause of that,
-- and in the WHERE clause of `mark_failed_if_owner`. A row lock's wait lies before `tested`.
pub record Clock : Type 0 where
  pub started : ℕ
  pub tested : ℕ
  pub written : ℕ
  pub marked : ℕ

-- `_new_lease_expiry_expr`.
abbrev pub new_lease_expiry : ℕ → ℕ
new_lease_expiry now = now + lease_duration_seconds

-- LEASE_IS_VALID: `lease_expires_at > clock_timestamp()`. A comparison with NULL does not pass.
abbrev pub lease_is_valid : Option ℕ → ℕ → Bool
lease_is_valid none now = false
lease_is_valid (some expiry) now = ltb now expiry

-- LEASE_IS_EXPIRED: `lease_expires_at <= clock_timestamp()`.
abbrev pub lease_is_expired : Option ℕ → ℕ → Bool
lease_is_expired none now = false
lease_is_expired (some expiry) now = leb expiry now

-- The assertion on which the module's import rests.
lease_outlasts_provider : provider_timeout_seconds + safety_margin_seconds < lease_duration_seconds
lease_outlasts_provider = omega arith

-- Of a lease that is set exactly one of the two tests passes.
pub lease_valid_or_expired :
    (expiry now : ℕ) → lease_is_expired (some expiry) now ≡ not (lease_is_valid (some expiry) now)
lease_valid_or_expired expiry now = ground arith
