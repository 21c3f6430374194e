-- ===== src/Portal/Blocked.antt =====
-- Portal/BlockPage: a blocked request is answered and logged.
use opti_gate.Base.{ℕ, String, Option, none, some, false, ◌≡◌, refl, ◌==◌, string_eq, lower}
use opti_gate.Settings.{optigate_hostname}
use opti_gate.Tables.{Database, Device}
use opti_gate.Identity.Resolve.{resolve_device, resolve_user_for_device, log_identity_fields}
use opti_gate.Proxy.Sni.{access_row}
use opti_gate.Proxy.Recorded.{IsRecorded, log_access_lem}
use opti_gate.Portal.BlockPage.{forbidden, without_port, log_block, respond}

module _ (escape : String → String) (now : ℕ) (client_ip : String) where
  -- A request for a name other than the program's own, whether or not its address has a device,
  -- where the lookup of the device does not raise, is answered with the page of the blocked name,
  -- and the log has a denial of the name of the last five minutes for the person or the device.
  pub respond-forbidden :
      (db found : Database) (device : Option Device) (host_header : String)
      → resolve_device db client_ip now ≡ some (found, device)
      → (lower (without_port host_header) == lower (optigate_hostname db)) ≡ false
      → ((respond escape now client_ip db host_header).1
          ≡ forbidden (escape (without_port host_header)))
        × IsRecorded
            (respond escape now client_ip db host_header).0
            now
            (log_identity_fields device (resolve_user_for_device found device)).1
            (without_port host_header)
            false
  unfolding respond log_block access_row
  respond-forbidden db found device host_header h other =
      rw (other, log_block, h)
        (
          refl,
          log_access_lem found now (
              access_row device (resolve_user_for_device found device) client_ip
                (without_port host_header) none false "dns_tier_denied"),
        )
