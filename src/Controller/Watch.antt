-- ===== src/Controller/Watch.antt =====
-- controller/periodic.py (_tick) and common/system_events.py, lines 96 to 149: what a periodic loop
-- logs of its cycles.
use opti_gate.Base.{ℕ, String, Option, none, some, Bool, true, false, if◌then◌else◌, ◌<>◌}
use opti_gate.Tables.{Database, Severity}
use opti_gate.Identity.Events.{log_event}

-- `state["failing"]`, and the database that the callbacks write to.
pub record Watch : Type 0 where
  pub failing : Bool
  pub db : Database

module _ (source : String) where
  -- A failure to record is swallowed; `accepts` says whether the database takes the write.
  unfoldable pub on_error : (accepts : Bool) (now : ℕ) (exc : String) → Watch → Watch
  on_error accepts now exc w = record {
    failing = true;
    db =
        if accepts
        then log_event w.db now source Severity.error (source <> (" failed: " <> exc)) none
        else w.db;
  }

  unfoldable pub on_success : (accepts : Bool) (now : ℕ) → Watch → Watch
  on_success accepts now w =
      if w.failing
      then record {
        failing = false;
        db =
            if accepts
            then log_event w.db now source Severity.recovery (source <> " recovered") none
            else w.db;
      }
      else w

  -- One cycle of the task, which raises `exc` or returns.
  unfoldable pub tick : (accepts : Bool) (now : ℕ) (outcome : Option String) → Watch → Watch
  tick accepts now none = on_success accepts now
  tick accepts now (some exc) = on_error accepts now exc
