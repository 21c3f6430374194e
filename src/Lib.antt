-- ===== src/Lib.antt =====
-- OptiGate: a household gateway that decides, for each device, what its traffic may reach. The
-- program keeps one SQLite database. Discovery records which MAC holds which address; schedules and
-- grants say what a device may do; the controller computes from them the sets of addresses that the
-- packet filter enforces and the targets that are redirected; and two helpers of the Squid proxy
-- answer for each TLS connection and each HTTP request.
--
-- The files and the code that they model:
--   Base       the shared names, tests, list and text functions that the program's Python uses
--   Tables     the tables of common/db.py (SCHEMA), a record for each, and the database of them all
--   Settings   common/db.py: get_setting, set_setting, optigate_hostname
--   Platform   what is taken from ipaddress, re, zoneinfo, urllib and the Crunchyroll API, as
--              parameters: a record of functions, of which no law is assumed
--   Matching   common/matching.py: Grants has the checks of who a rule applies to, Lan the network
--              check; Axes gives their meaning
--   Schedule   common/schedule_eval.py: Clock, Overrides and Lockout have the functions; Week,
--              Effect, Chosen and InForce describe the windows of a week, the override of a target and
--              what is in effect
--   Policy     common/policy_class.py (Class) and controller/policy_state.py (Sets), with what the
--              packet filter may rely on in Partition, Membership and Safety
--   Poisoning  controller/desired_state.py and controller/reconcile.py (Targets, Reconcile)
--   Identity   common/identity.py (Bindings), common/device_identity.py (Resolve) and the two event
--              tables (Events); the other files say what an observation and a request change
--   Proxy      common/logging_util.py (Log), common/matching.py (Domains), proxy/sni_helper.py (Sni),
--              common/cr_urls.py (Requests), common/series_resolve.py (Series),
--              proxy/authz_helper.py (Shows and Authz) and common/squid_helper.py (Authz.answer)
--   RateLimit  common/rate_limit.py: the limit on failed logins
--   Adguard    controller/adguard_sync.py and common/optigate_rewrite.py: Rule has the text of a rule,
--              Merge the merging, Devices, Scoped, Deny, Categories and Block the sources of rules,
--              Managed their sum, Client the requests to the server as an interface with documented
--              laws, Rewrites and Sync the cycle; the other files say whom the rules reach and what a
--              cycle leaves
--   Controller controller/health.py (Runtime), run_cycle of controller/main.py (Cycle), and a cycle of a
--              periodic task with what it logs (Watch); Reported and Capped say what these leave
--   Portal     common/auth.py (Password) and the two forms of dashboard/captive_portal_server.py (Login,
--              Admin), and dashboard/block_page_server.py (BlockPage); the other files say who gets online, and what a hash verifies
--   Examples   a household of two devices, on which the theorems are applied
--
-- An operation of the program is a function from the database to the database, by explicit state
-- passing. An exception is none of Option; where the code rolls back, nothing of the failed call
-- remains. A table is the list of its rows by rowid, `fetchone` without an order takes the first
-- row, and ORDER BY is stable. Timestamps are seconds, text order of the ISO form being time order.
-- There is no fuel: every loop runs over the rows of a table or the parts of a text.
-- An unknown time zone and a text that is no number raise; a number is taken to be written in ASCII
-- digits. Case folding and white space are those of ASCII and of Python's str.strip. The columns that no
-- modelled code reads (confidence, hostname, display texts) are left out of the tables.
--
-- Not modelled: run_cycle without a policy connection, the enabled flag of a rewrite, which no code
-- reads, the dashboard (web handlers around these functions), the loops
-- and sockets of the controller, network clients (of AdGuard Home's, common/adguard_client.py, the
-- interface that Adguard/Client states), and the packet filter of phase3, which is not Python.
pub mod Base
pub mod Tables
pub mod Platform
pub mod Settings
pub mod Matching
pub mod Schedule
pub mod Policy
pub mod Poisoning
pub mod Identity
pub mod Proxy
pub mod RateLimit
pub mod Adguard
pub mod Controller
pub mod Portal
pub mod Examples
