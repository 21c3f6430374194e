-- ===== src/Schedule.antt =====
-- common/schedule_eval.py. `Clock` is the pure clock check, `Overrides` the manual shifts, and
-- `Lockout` the schedules in effect for a target; `Week` relates the clock check to the week.
pub mod Clock
pub mod Week
pub mod Overrides
pub mod Lockout
pub mod Effect
pub mod Chosen
pub mod InForce
