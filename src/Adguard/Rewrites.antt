-- ===== src/Adguard/Rewrites.antt =====
-- common/optigate_rewrite.py: the DNS rewrite of the program's own host name.
use opti_gate.Base.{String, List, Option, none, some, not, string_eq, filter}
use opti_gate.Base.{any, ends_with, is_empty, if◌then◌else◌}
use opti_gate.Tables.{Database}
use opti_gate.Settings.{optigate_hostname}
use opti_gate.Adguard.Client.{Action, done, ask, for_each, ◌>>=◌, AdguardClient, Rewrite}
use opti_gate.Adguard.Client.{is_rewrite}

-- The rewrites that the program manages.
unfoldable pub ours : List Rewrite → List Rewrite
ours current = filter (λ (r : Rewrite). ends_with r.domain ".home") current

module _ {S : Type 0} (α : AdguardClient S) where
  -- Delete what is stale, then add what is missing.
  unfoldable pub reconcile_rewrites : String → String → List Rewrite → Action S Unit
  reconcile_rewrites desired_domain block_page_ip rows = do
    _ ←
        for_each
          (λ (r : Rewrite).
            if not (is_rewrite desired_domain block_page_ip r)
            then α.delete_rewrite r.domain r.answer
            else done tt)
          rows
    if any (is_rewrite desired_domain block_page_ip) rows
        then done tt
        else α.add_rewrite desired_domain block_page_ip

  unfoldable pub sync_optigate_rewrite : Database → Option String → Action S Unit
  sync_optigate_rewrite db none = done tt
  sync_optigate_rewrite db (some block_page_ip) = if is_empty block_page_ip then done tt else (do
    current ← ask α.get_rewrites
    reconcile_rewrites (optigate_hostname db) block_page_ip (ours current))
