-- ===== src/Matching/Lan.antt =====
-- common/matching.py, lines 530 to 555: is a client inside the configured networks?
use opti_gate.Base.{String, none, List, [], ◌∷◌, Bool, true, false, if◌then◌else◌, ◌||◌}
use opti_gate.Base.{strip, split_space, is_empty, from_option}
use opti_gate.Tables.{Database}
use opti_gate.Settings.{get_setting}
use opti_gate.Platform.{Platform}

-- The loop over the networks; one that `ip_network` refuses is passed over.
unfoldable pub in_any_network : Platform → String → List String → Bool
in_any_network π ip [] = false
in_any_network π ip (cidr ∷ rest) =
    from_option false (π.in_network ip cidr) || in_any_network π ip rest

unfoldable pub ip_in_configured_lan : Platform → Database → String → Bool
unfolding in_any_network
ip_in_configured_lan π db ip =
    let raw = strip (from_option "" (get_setting db "local_network" none)) in
    if is_empty raw
    then true
    else if π.is_address ip
    then in_any_network π ip (split_space raw)
    else false
