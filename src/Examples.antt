-- ===== src/Examples.antt =====
-- A small household, on which the theorems are applied: a child's laptop and an ignored printer.
pub mod Household
mod Policies
mod Times
mod Rules
mod Discovery
mod Requests
mod Pages
mod Logins
mod Dns
mod Cycles
