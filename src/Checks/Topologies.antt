-- ===== src/Checks/Topologies.antt =====
-- `ValidateNodes` on small topologies.
use yuliya_bachelorarbeit.Base.{
  pos, List, [], ◌∷◌, ◌≡◌, ◌≢◌, refl, ok, err, ◌↔◌, eq_iff, arith, AllPairs, String,
}
use yuliya_bachelorarbeit.Node.{Node}
use yuliya_bachelorarbeit.Config.Topology.{validate_nodes, bad_channel, shared_channel}
use yuliya_bachelorarbeit.Config.Topology.Valid.{Valid, validate_nodes-Valid}
use yuliya_bachelorarbeit.Relay.{relay_or_default}
use yuliya_bachelorarbeit.Relay.Alias.{
  OutletsApart, worker, leader, aliased, validate_nodes-OutletsApart, validate_nodes-aliased,
}
use yuliya_bachelorarbeit.Checks.Samples.{edge_1, edge_2}

abbrev pair : List Node
pair = leader ∷ edge_1 ∷ edge_2 ∷ []

accepts_pair : validate_nodes pair ≡ ok tt
unfolding validate_nodes
accepts_pair = refl

rejects_third_channel :
    validate_nodes (leader ∷ worker "edge-3" "A" (pos 2) ∷ []) ≡ err (bad_channel "edge-3" (pos 2))
unfolding validate_nodes
rejects_third_channel = refl

rejects_shared :
    validate_nodes (leader ∷ edge_1 ∷ worker "edge-3" "A" (pos 0) ∷ [])
    ≡ err (shared_channel "edge-1" "edge-3" "A" (pos 0))
unfolding validate_nodes
rejects_shared = refl

validate_nodes-Valid_example : (validate_nodes pair ≡ ok tt) ↔ Valid pair
validate_nodes-Valid_example = validate_nodes-Valid pair

validate_nodes-OutletsApart_example : AllPairs (OutletsApart "Z") pair
unfolding validate_nodes
validate_nodes-OutletsApart_example =
    let edge : ◌≢◌ {A = String} "A" "Z" = ground (arith, eq_iff "A" "Z") in
    validate_nodes-OutletsApart "Z" pair refl (ground (arith, eq_iff "" "Z"), (edge, (edge, tt)))

validate_nodes-aliased_example :
    (validate_nodes (aliased "ABC") ≡ ok tt)
    × (relay_or_default "" "ABC" ≡ relay_or_default "ABC" "ABC")
    × ¬ AllPairs (OutletsApart "ABC") (aliased "ABC")
validate_nodes-aliased_example = validate_nodes-aliased "ABC" (ground (arith, eq_iff "ABC" ""))
