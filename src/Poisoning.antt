-- ===== src/Poisoning.antt =====
-- controller/desired_state.py and controller/reconcile.py: whom the ARP worker is to redirect, and
-- when it is told anew.
pub mod Targets
pub mod Freshest
pub mod Reconcile
