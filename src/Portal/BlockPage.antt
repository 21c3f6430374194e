-- ===== src/Portal/BlockPage.antt =====
-- dashboard/block_page_server.py, lines 128 to 270: the page of a blocked name, and the page that
-- tells a device who it is. The time is the clock's; `escape` is Python's html.escape.
use opti_gate.Base.{ℕ, String, List, Option, none, some, [], ◌∷◌, false, if◌then◌else◌}
use opti_gate.Base.{◌==◌, string_eq, cut, has_char, lower, is_empty, find?, nat_eq, length}
use opti_gate.Base.{◌||◌}
use opti_gate.Settings.{optigate_hostname}
use opti_gate.Tables.{Database, Device, User, Group}
use opti_gate.Identity.Resolve.{resolve_device, resolve_user_for_device}
use opti_gate.Proxy.Log.{log_access}
use opti_gate.Proxy.Sni.{access_row}

-- The answers: the page of a device with its rows and its footer, or 403 and the blocked name.
pub data Response : Type 0 where
  device_info : (hostname : String) (rows : List (String × String)) (footer : String) → Response
  forbidden : (host : String) → Response

-- `host.rsplit(":", 1)[0] if host.count(":") == 1 else host`
unfoldable pub without_port : String → String
without_port host = elim (cut b':' host) [
  | none ↦ host
  | some (name, port) ↦ if has_char b':' port then host else name
]

unfoldable pub group_row : Database → Device → Option Group
group_row db d = elim d.group_id [
  | none ↦ none
  | some i ↦ find? (λ (g : Group). g.id == i) db.groups
]

unfoldable pub footer_of : List (String × String) → String
footer_of rows =
    if length rows == 1
    then "Not recognized on this network yet -- if you're having trouble connecting, ask whoever administers it."
    else "Having trouble connecting? Share this page with whoever administers this network."

module _ (escape : String → String) (now : ℕ) (client_ip : String) where
  unfoldable pub assigned_to : Device → Option User → Option Group → String
  assigned_to d (some u) group = escape u.display_name
  assigned_to d none none = if d.ignored then "Ignored (never filtered)" else "<em>Unassigned</em>"
  assigned_to d none (some g) =
      if d.ignored || g.ignored then "Ignored (never filtered)" else escape g.name

  unfoldable pub shown_label : Option String → String
  shown_label none = "<em>Unnamed device</em>"
  shown_label (some label) = if is_empty label then "<em>Unnamed device</em>" else escape label

  unfoldable pub device_rows : Database → Option Device → List (String × String)
  device_rows db none = ("IP address", escape client_ip) ∷ []
  device_rows db (some d) =
      ("Label", shown_label d.label)
      ∷ ("Assigned to", assigned_to d (resolve_user_for_device db (some d)) (group_row db d))
      ∷ ("IP address", escape client_ip)
      ∷ ("MAC address", escape d.mac_address)
      ∷ ("Device name", "<em>Not tracked yet</em>")
      ∷ []

  -- A lookup that raises is rolled back, and leaves the row of the address.
  unfoldable pub respond_device_info : Database → (hostname : String) → Database × Response
  respond_device_info db hostname = elim (resolve_device db client_ip now) [
    | none ↦
        let rows = device_rows db none in (db, device_info (escape hostname) rows (footer_of rows))
    | some (found, device) ↦
        let rows = device_rows found device in
        (found, device_info (escape hostname) rows (footer_of rows))
  ]

  unfoldable pub log_block : Database → (host : String) → Database
  log_block db host = elim (resolve_device db client_ip now) [
    | none ↦ db
    | some (found, device) ↦ log_access found now (
        access_row device (resolve_user_for_device found device) client_ip host none false
          "dns_tier_denied")
  ]

  -- The name of a request without a Host header is "this site".
  unfoldable pub respond : Database → (host_header : String) → Database × Response
  respond db host_header =
      let host = without_port host_header in
      if lower host == lower (optigate_hostname db)
      then respond_device_info db (optigate_hostname db)
      else (log_block db host, forbidden (escape host))
