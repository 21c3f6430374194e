-- ===== src/Matching.antt =====
-- common/matching.py. `Grants` has the checks of whom a rule is for, `Axes` what they decide, and
-- `Lan` the network check.
pub mod Grants
pub mod Axes
pub mod Lan
