-- ===== src/Adguard/Scoped.antt =====
-- controller/adguard_sync.py, lines 467 to 478, 586 to 596 and 797 to 810: the loop that three
-- sources of rules share, over domains or allowlist entries.
use opti_gate.Base.{String, List, [], ◌∷◌, Bool, filter, map}
use opti_gate.Tables.{PolicyRow}

-- The addresses of the rows that a test picks, in their order.
unfoldable pub addresses : (PolicyRow → Bool) → List PolicyRow → List String
unfolding filter
addresses p rows = map (λ (row : PolicyRow). row.ipv4_address) (filter p rows)

-- One rule of a domain, unless it would be for nobody.
abbrev pub unless_empty : (List String → String) → List String → List String → List String
unless_empty rule [] rest = rest
unless_empty rule (ip ∷ ips) rest = rule (ip ∷ ips) ∷ rest

-- `for entry in entries: ips = [… for device in devices if picks(…)]; if ips: rules.append(…)`
unfoldable pub scoped_rules :
    {A : Type 0}
    → (make : A → List String → String) (picks : A → PolicyRow → Bool) → List PolicyRow
    → List A
    → List String
unfolding addresses
scoped_rules make picks devices [] = []
scoped_rules make picks devices (entry ∷ entries) =
    unless_empty (make entry) (addresses (picks entry) devices)
      (scoped_rules make picks devices entries)
