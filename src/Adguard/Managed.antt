-- ===== src/Adguard/Managed.antt =====
-- controller/adguard_sync.py, lines 981 to 989: the rules of the managed block.
use opti_gate.Base.{ℕ, String, List, ◌++◌, Option, ◌>>=◌}
use opti_gate.Tables.{Database}
use opti_gate.Platform.{Platform}
use opti_gate.Adguard.Merge.{merge_duplicate_domain_rules}
use opti_gate.Adguard.Devices.{fetch_eligible_devices}
use opti_gate.Adguard.Deny.{build_rules, build_splice_deny_rules, build_ech_strip_rules}
use opti_gate.Adguard.Categories.{build_category_deny_rules, build_adguard_allow_rules}
use opti_gate.Adguard.Block.{build_anti_doh_rules}

module _ (π : Platform) (db : Database) (now : ℕ) where
  -- The six sources of rules, in the order of the block.
  unfoldable pub managed_rules : Option String → Option (List String)
  managed_rules block_page_ip =
      let devices = fetch_eligible_devices db in
      do
        category_rules ← build_category_deny_rules db π now block_page_ip devices
        merge_duplicate_domain_rules (
            build_rules db block_page_ip devices
            ++ (build_splice_deny_rules db block_page_ip devices
                ++ (category_rules
                    ++ (build_anti_doh_rules
                        ++ (build_ech_strip_rules db devices
                            ++ build_adguard_allow_rules db devices)))))
