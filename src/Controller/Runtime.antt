-- ===== src/Controller/Runtime.antt =====
-- controller/health.py and controller/policy_state.py (write_desired_policy): the one row of
-- `interception_runtime`. The policy is stored as it is, where the program stores its JSON text.
use opti_gate.Base.{ℕ, String, Option, none, some, Bool, if◌then◌else◌}
use opti_gate.Policy.Sets.{PolicySets}

pub data RuntimeMode : Type 0 where
  stopped running repair_only fail_open : RuntimeMode

-- The columns that this process writes.
pub record Runtime : Type 0 where
  pub applied_generation : ℕ
  pub mode : RuntimeMode
  pub last_healthy_at : Option ℕ
  pub fail_open_reason : Option String
  pub desired_policy : Option PolicySets

-- The defaults of a row that an INSERT makes.
abbrev pub fresh : Runtime
fresh = record {
  applied_generation = 0;
  mode = RuntimeMode.stopped;
  last_healthy_at = none;
  fail_open_reason = none;
  desired_policy = none;
}

-- INSERT … ON CONFLICT(singleton_id) DO UPDATE
abbrev pub upsert : (Runtime → Runtime) → Option Runtime → Option Runtime
upsert set none = some (set fresh)
upsert set (some row) = some (set row)

-- A write that the database refuses is swallowed.
unfoldable pub safe_write : (accepts : Bool) → (Runtime → Runtime) → Option Runtime → Option Runtime
safe_write accepts set row = if accepts then upsert set row else row

module _ (accepts : Bool) where
  unfoldable pub report_healthy : (now applied_generation : ℕ) → Option Runtime → Option Runtime
  report_healthy now applied_generation = safe_write accepts (λ row. record row {
    applied_generation = applied_generation;
    mode = RuntimeMode.running;
    last_healthy_at = some now;
    fail_open_reason = none;
  })

  unfoldable pub report_fail_open :
      (reason : String) (applied_generation : Option ℕ) → Option Runtime → Option Runtime
  report_fail_open reason none =
      safe_write accepts
        (λ row. record row { mode = RuntimeMode.fail_open; fail_open_reason = some reason })
  report_fail_open reason (some g) = safe_write accepts (λ row. record row {
    applied_generation = g;
    mode = RuntimeMode.fail_open;
    fail_open_reason = some reason;
  })

  unfoldable pub report_repair_only : (reason : String) → Option Runtime → Option Runtime
  report_repair_only reason =
      safe_write accepts
        (λ row. record row { mode = RuntimeMode.repair_only; fail_open_reason = some reason })

unfoldable pub write_desired_policy : PolicySets → Option Runtime → Option Runtime
write_desired_policy policy = upsert (λ row. record row { desired_policy = some policy })
