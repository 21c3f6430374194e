-- ===== src/Settings.antt =====
-- common/db.py, lines 904 to 914 and 974 to 980: the key-value settings.
use opti_gate.Base.{String, Option, none, some, [], ◌∷◌, find?, any, ◌==◌, string_eq, ◌<>◌}
use opti_gate.Base.{if◌then◌else◌, is_empty, ◌++◌, update_where}
use opti_gate.Tables.{Database}

-- `get_setting(conn, key, default)`, where the default is none if it is left out.
unfoldable pub get_setting : Database → String → Option String → Option String
get_setting db key default = elim (find? (λ (r : String × String). r.0 == key) db.settings) [
  | some r ↦ some r.1
  | none ↦ default
]

-- INSERT … ON CONFLICT(key) DO UPDATE
unfoldable pub set_setting : Database → String → String → Database
set_setting db key value = record db {
  settings =
      if any (λ (r : String × String). r.0 == key) db.settings
      then update_where (λ (r : String × String). r.0 == key)
          (λ (r : String × String). (key, value)) db.settings
      else db.settings ++ ((key, value) ∷ []);
}

unfoldable pub optigate_hostname : Database → String
unfolding get_setting
optigate_hostname db = elim (get_setting db "optigate_hostname_prefix" (some "optigate")) [
  | none ↦ "optigate.home"
  | some prefix ↦ (if is_empty prefix then "optigate" else prefix) <> ".home"
]
