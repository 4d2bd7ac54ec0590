-- ===== src/Relay/Alias.antt =====
-- The outlets of a topology that `ValidateNodes` accepts, as the relay controller resolves them.
use yuliya_bachelorarbeit.Base.{
  ℤ, pos, true, false, String, eq_iff, List, [], ◌∷◌, ok, ◌≡◌, ◌≢◌, arith, All, AllPairs, refl,
}
use yuliya_bachelorarbeit.Node.{Node, zero_node, active, sleeping}
use yuliya_bachelorarbeit.Config.Topology.{validate_nodes}
use yuliya_bachelorarbeit.Config.Topology.Valid.{Apart, validate_nodes-Valid}
use yuliya_bachelorarbeit.Relay.{relay_or_default}

-- Two workers on different outlets, where an unnamed relay is the default one.
abbrev pub OutletsApart : String → Node → Node → Type 0
OutletsApart default n m =
    n.local ≡ false
    → m.local ≡ false
    → relay_or_default n.relay_uid default ≡ relay_or_default m.relay_uid default
    → n.channel ≢ m.channel

OutletsApart-All :
    (default : String) (n : Node) (ms : List Node)
    → n.relay_uid ≢ default
    → All (λ m. m.relay_uid ≢ default) ms
    → All (Apart n) ms
    → All (OutletsApart default n) ms
unfolding relay_or_default
OutletsApart-All default n [] h hs a = tt
OutletsApart-All default n (m ∷ ms) h hs a = (
  λ ln lm same chan.
      a.0.outlets ln lm (ground (arith, eq_iff n.relay_uid "", eq_iff m.relay_uid "", h, hs.0))
        chan,
  OutletsApart-All default n ms h hs.1 a.1,
)

OutletsApart-AllPairs :
    (default : String) (nodes : List Node)
    → All (λ n. n.relay_uid ≢ default) nodes
    → AllPairs Apart nodes
    → AllPairs (OutletsApart default) nodes
OutletsApart-AllPairs default [] h a = tt
OutletsApart-AllPairs default (n ∷ ns) h a =
    (OutletsApart-All default n ns h.0 h.1 a.0, OutletsApart-AllPairs default ns h.1 a.1)

-- In an accepted topology where no node spells out the default relay's UID, no two workers are
-- switched by one outlet.
pub validate_nodes-OutletsApart :
    (default : String) (nodes : List Node)
    → validate_nodes nodes ≡ ok tt
    → All (λ n. n.relay_uid ≢ default) nodes
    → AllPairs (OutletsApart default) nodes
validate_nodes-OutletsApart default nodes e h =
    OutletsApart-AllPairs default nodes h ((validate_nodes-Valid nodes).0 e).apart

abbrev pub worker : String → String → ℤ → Node
worker id uid channel = record zero_node {
  id = id;
  address = "10.0.0.2:8000";
  manager_address = "10.0.0.2:8080";
  relay_uid = uid;
  channel = channel;
  status = sleeping;
}

abbrev pub leader : Node
leader = record zero_node { id = "local"; local = true; status = active }

-- One worker leaves the relay to the default, another names the same relay by its UID.
abbrev pub aliased : String → List Node
aliased default = leader ∷ worker "edge-1" "" (pos 0) ∷ worker "edge-2" default (pos 0) ∷ []

-- A worker that leaves out its relay and one that spells out the default relay's UID may share an
-- outlet: `ValidateNodes` accepts such a topology for every default UID.
pub validate_nodes-aliased :
    (default : String)
    → default ≢ ""
    → (validate_nodes (aliased default) ≡ ok tt)
      × (relay_or_default "" default ≡ relay_or_default default default)
      × ¬ AllPairs (OutletsApart default) (aliased default)
unfolding validate_nodes relay_or_default
validate_nodes-aliased default ne = (
  ground (arith, eq_iff "" default),
  ground (arith, eq_iff default ""),
  λ apart. apart.1.0.0 refl refl (ground (arith, eq_iff default "")) refl,
)
