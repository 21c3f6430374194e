-- ===== src/Identity/Events.antt =====
-- common/identity.py, lines 375 to 399, and common/system_events.py, lines 64 to 93: the two event
-- tables.
use opti_gate.Base.{ℕ, zero, suc, ◌+◌, String, Option, List, [], ◌∷◌, ◌++◌}
use opti_gate.Base.{filter, contains, sort_by, map, leb, nat_eq, if◌then◌else◌, ltb}
use opti_gate.Tables.{Database, NetworkEvent, SystemEvent, Severity}

unfoldable pub record_event : NetworkEvent → Database → Database
record_event e db = record db { network_events = db.network_events ++ (e ∷ []) }

-- The rowid that SQLite gives the next row: one more than the largest in the table.
unfoldable pub next_id : List ℕ → ℕ
next_id [] = 1
next_id (i ∷ ids) = let n = next_id ids in if ltb i n then n else i + 1

unfoldable pub take : ℕ → List ℕ → List ℕ
take zero ids = []
take (suc n) [] = []
take (suc n) (i ∷ ids) = i ∷ take n ids

-- DELETE … WHERE id NOT IN (SELECT id … ORDER BY id DESC LIMIT limit)
unfoldable pub prune : ℕ → List SystemEvent → List SystemEvent
unfolding take
prune limit rows =
    let newest = take limit (sort_by (λ a b. leb b a) (map (λ (e : SystemEvent). e.id) rows)) in
    filter (λ (e : SystemEvent). contains newest e.id) rows

abbrev pub max_stored_events : ℕ
max_stored_events = 5000

unfoldable pub log_event :
    Database
    → (now : ℕ) → (source : String) → Severity
    → (message : String) → (detail : Option String) → Database
unfolding prune next_id
log_event db now source severity message detail =
    let rows = db.system_events in
    let e : SystemEvent = record {
      id = next_id (map (λ (e : SystemEvent). e.id) rows);
      ts = now;
      source = source;
      severity = severity;
      message = message;
      detail = detail;
    } in
    record db { system_events = prune max_stored_events (rows ++ (e ∷ [])) }
