-- ===== src/Platform.antt =====
-- What the modelled code takes from Python's `ipaddress`, `re` and `zoneinfo`. Each is an argument
-- of the definitions that use it; nothing is assumed of one but what a theorem names.
use opti_gate.Base.{ℕ, String, Option, Bool, List, ◌⊎◌}

-- A search that the half-second alarm of common/matching.py (_search_with_timeout) may stop.
pub data SearchOutcome : Type 0 where
  found not_found timed_out : SearchOutcome

-- `datetime.weekday()` (Monday is 0), `.hour` and `.minute` of an instant in a zone.
pub record LocalTime : Type 0 where
  pub weekday : ℕ
  pub hour : ℕ
  pub minute : ℕ

pub record Platform : Type 0 where
  -- `ipaddress.ip_address(s)` does not raise.
  pub is_address : String → Bool
  -- `ip in ipaddress.ip_network(cidr, strict=False)`; none where `ip_network` raises.
  pub in_network : String → String → Option Bool
  -- `re.compile(p, re.IGNORECASE)` does not raise.
  pub compiles : String → Bool
  -- The compiled pattern searched for in a text.
  pub search : String → String → SearchOutcome
  -- `now_utc.astimezone(ZoneInfo(zone))`; none where `ZoneInfo` raises.
  pub astimezone : String → ℕ → Option LocalTime
  -- The first group of `re.compile(p, re.IGNORECASE).fullmatch(s)`, where it matches.
  pub fullmatch : String → String → Option String
  -- `str.casefold()`
  pub casefold : String → String
  -- `urllib.parse.unquote(s)`
  pub unquote : String → String
  -- `db.now_iso()` at a second.
  pub isoformat : ℕ → String

-- What `cr_api.SeriesResolver().resolve(ids)` answers at a moment: the parent series of the objects
-- it knows, or a `ResolutionError` with its message.
abbrev pub Resolver : Type 0
Resolver = List String → String ⊎ List (String × Option String)
