-- ===== src/Proxy.antt =====
-- proxy/sni_helper.py and proxy/authz_helper.py, with the parts of common/ that only they use: what
-- Squid is answered for a connection and for a request.
pub mod Log
pub mod Domains
pub mod Sni
pub mod Requests
pub mod Series
pub mod Shows
pub mod Approved
pub mod Authz
pub mod FirstMatch
pub mod Recorded
pub mod ShowDenials
pub mod Denials
pub mod Agreement
pub mod Permitted
pub mod Guarded
pub mod Cache
