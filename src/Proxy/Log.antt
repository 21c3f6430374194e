-- ===== src/Proxy/Log.antt =====
-- common/logging_util.py: the access log, in which an event is written once in five minutes.
use opti_gate.Base.{ℕ, ◌+◌, String, Option, none, some, Bool, ◌&&◌, [], ◌∷◌, ◌++◌}
use opti_gate.Base.{
  ◌==◌, nat_eq, string_eq, option_eq, bool_beq, if◌then◌else◌, any, leb, partition,
}
use opti_gate.Tables.{Database, AccessRow}

abbrev pub dedupe_window_seconds : ℕ
dedupe_window_seconds = 300

-- A path without its query string.
unfoldable pub strip_query : Option String → Option String
strip_query none = none
strip_query (some path) = some (partition b'?' path).0

-- The WHERE clause that looks for the same event in the window.
unfoldable pub is_repeat : ℕ → AccessRow → AccessRow → Bool
is_repeat now e r =
    r.username == e.username
    && r.domain == e.domain
    && bool_beq r.allowed e.allowed
    && leb now (r.ts + dedupe_window_seconds)
    && r.series_id == e.series_id
    && strip_query r.path == strip_query e.path

-- The row that is written has the time of the call.
unfoldable pub log_access : Database → (now : ℕ) → AccessRow → Database
log_access db now e =
    if any (is_repeat now e) db.access_log
    then db
    else record db { access_log = db.access_log ++ (record e { ts = now } ∷ []) }
