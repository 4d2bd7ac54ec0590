-- ===== src/Node.antt =====
-- tinyFaaS-ext/pkg/cluster/types.go: the nodes of the cluster and their life cycle.
use yuliya_bachelorarbeit.Base.{ℕ, ℤ, pos, Bool, true, false, String}

-- `NodeStatus` is a string type with four constants. `unset` is the empty string, which a
-- configuration that names no status leaves; `other` is any further text a configuration may hold.
pub data NodeStatus : Type 0 where
  unset sleeping waking active dead : NodeStatus
  other : String → NodeStatus

-- The comparisons of a status with a constant.
abbrev pub is_unset : NodeStatus → Bool
is_unset unset = true
is_unset _ = false

abbrev pub is_sleeping : NodeStatus → Bool
is_sleeping sleeping = true
is_sleeping _ = false

abbrev pub is_waking : NodeStatus → Bool
is_waking waking = true
is_waking _ = false

abbrev pub is_active : NodeStatus → Bool
is_active active = true
is_active _ = false

abbrev pub is_dead : NodeStatus → Bool
is_dead dead = true
is_dead _ = false

-- Times are nanoseconds from the zero `time.Time`, which is 0.
pub record Node : Type 0 where
  pub id : String
  pub address : String
  pub manager_address : String
  pub relay_uid : String
  pub channel : ℤ
  pub status : NodeStatus
  pub load : ℤ
  pub last_used : ℕ
  pub dead_since : ℕ
  pub local : Bool
  pub dispatch_only : Bool

-- `Node{}`
abbrev pub zero_node : Node
zero_node = record {
  id = "";
  address = "";
  manager_address = "";
  relay_uid = "";
  channel = pos 0;
  status = unset;
  load = pos 0;
  last_used = 0;
  dead_since = 0;
  local = false;
  dispatch_only = false;
}
