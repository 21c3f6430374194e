-- ===== src/Examples/Household.antt =====
-- The data of the examples.
use opti_gate.Base.{none, some, [], ◌∷◌, true, false, lower}
use opti_gate.Tables.{Database, User, Device, Binding, Domain, Mode, Kind, Schedule}
use opti_gate.Platform.{Platform, SearchOutcome}

-- Monday, 21:30; every pattern is found, no Crunchyroll pattern matches.
abbrev pub platform : Platform
platform = record {
  is_address = λ s. true;
  in_network = λ ip cidr. some true;
  compiles = λ p. true;
  search = λ p s. SearchOutcome.found;
  astimezone = λ zone now. some (record { weekday = 0; hour = 21; minute = 30 });
  fullmatch = λ p s. none;
  casefold = lower;
  unquote = λ s. s;
  isoformat = λ now. "now";
}

abbrev pub child : User
child = record {
  id = 1;
  username = "child";
  display_name = "Child";
  password_hash = "pbkdf2_sha256$1$aa$secret";
}

abbrev pub laptop : Device
laptop = record {
  id = 1;
  mac_address = "aa";
  label = none;
  user_id = some 1;
  group_id = none;
  ignored = false;
  bump_enabled = true;
  bypass_login = false;
  is_authenticated = true;
  quarantined_at = none;
  created_at = 0;
}

abbrev pub printer : Device
printer = record {
  id = 2;
  mac_address = "bb";
  label = some "printer";
  user_id = none;
  group_id = none;
  ignored = true;
  bump_enabled = false;
  bypass_login = false;
  is_authenticated = true;
  quarantined_at = none;
  created_at = 0;
}

abbrev pub laptop_binding : Binding
laptop_binding = record {
  id = 1;
  device_id = some 1;
  mac_address = "aa";
  ipv4_address = "10.0.0.10";
  first_seen_at = 0;
  last_seen_at = 100;
  source = "snapshot";
  active = true;
}

abbrev pub printer_binding : Binding
printer_binding = record {
  id = 2;
  device_id = some 2;
  mac_address = "bb";
  ipv4_address = "10.0.0.11";
  first_seen_at = 0;
  last_seen_at = 100;
  source = "snapshot";
  active = true;
}

-- The address that the laptop had yesterday.
abbrev pub old_binding : Binding
old_binding = record {
  id = 3;
  device_id = some 1;
  mac_address = "aa";
  ipv4_address = "10.0.0.11";
  first_seen_at = 0;
  last_seen_at = 50;
  source = "snapshot";
  active = false;
}

-- The laptop's binding after its device was deleted.
abbrev pub orphan_binding : Binding
orphan_binding = record laptop_binding { device_id = none }

abbrev pub homework : Domain
homework = record {
  id = 1;
  pattern = "homework";
  mode = Mode.splice;
  kind = Kind.generic;
  is_global = false;
}

abbrev pub bedtime : Schedule
bedtime = record {
  id = 1;
  name = "bedtime";
  days_of_week = "mon";
  start_time = "21:00";
  end_time = "06:00";
  time_zone = "UTC";
  lockout_all = true;
  is_global = false;
  is_mode = false;
}

abbrev pub home : Database
home = record {
  settings = [];
  users = child ∷ [];
  groups = [];
  devices = laptop ∷ printer ∷ [];
  device_bindings = laptop_binding ∷ printer_binding ∷ [];
  domains = homework ∷ [];
  domain_paths = [];
  user_domains = (1, 1) ∷ [];
  group_domains = [];
  device_domains = [];
  adguard_allowlist = [];
  user_adguard_allowlist = [];
  group_adguard_allowlist = [];
  device_adguard_allowlist = [];
  categories = [];
  category_domains = [];
  category_overrides = [];
  category_users = [];
  category_groups = [];
  category_devices = [];
  schedules = [];
  schedule_categories = [];
  schedule_users = [];
  schedule_groups = [];
  schedule_devices = [];
  schedule_overrides = [];
  user_shows = [];
  series_cache = [];
  access_log = [];
  network_events = [];
  system_events = [];
}

-- The same household with a bedtime for the child.
abbrev pub evening : Database
evening = record home { schedules = bedtime ∷ []; schedule_users = (1, 1) ∷ [] }

-- The child is shifted to the bedtime until the second 1000.
abbrev pub shifted : Database
shifted = record evening {
  schedule_overrides =
      record {
        id = 1;
        schedule_id = 1;
        user_id = some 1;
        group_id = none;
        device_id = none;
        created_at = 0;
        expires_at = 1000;
      }
      ∷ [];
}

-- The printer has the laptop's old address.
abbrev pub moved : Database
moved = record home { device_bindings = old_binding ∷ laptop_binding ∷ printer_binding ∷ [] }

-- The laptop's device was deleted.
abbrev pub deleted : Database
deleted = record home {
  devices = printer ∷ [];
  device_bindings = orphan_binding ∷ printer_binding ∷ [];
}

-- An administrator added the laptop again.
abbrev pub readded : Database
readded = record home { device_bindings = orphan_binding ∷ printer_binding ∷ [] }
