-- ===== src/Config/Topology.antt =====
-- `ValidateNodes` and the defaults of `LoadNodes` in tinyFaaS-ext/pkg/cluster/config.go.
pub mod Valid
use yuliya_bachelorarbeit.Base.{
  ℕ, zero, suc, ◌+◌, ℤ, pos, ltb_ℤ, leb_ℤ, eqb_ℤ, ◌==◌, Bool, true, false, not, ◌&&◌, ◌||◌, String,
  str_eq, Option, none, some, List, [], ◌∷◌, if◌then◌else◌, Result, ok, err, ◌>>=◌, ◌>>◌, reject_if,
  count_if, map,
}
use yuliya_bachelorarbeit.Node.{Node, is_unset, active, sleeping}

abbrev pub channels_per_relay : ℤ
channels_per_relay = pos 2

-- The errors of `ValidateNodes`, with the values that the messages print.
pub data Invalid : Type 0 where
  no_nodes empty_id no_executor : Invalid
  duplicate_id no_address no_manager_address : String → Invalid
  bad_channel : String → ℤ → Invalid
  shared_channel : String → String → String → ℤ → Invalid
  wrong_locals : ℕ → Invalid

-- An entry of `seenChannel`: the key `relayChannel` and the node that claimed it.
pub record Claim : Type 0 where
  pub uid : String
  pub channel : ℤ
  pub owner : String

-- The variables of the loop. `seenID` only ever holds `true`, so it is the list of its keys.
pub record Seen : Type 0 where
  pub ids : List String
  pub claims : List Claim
  pub locals : ℕ

abbrev pub nothing_seen : Seen
nothing_seen = record { ids = []; claims = []; locals = 0 }

pub contains : String → List String → Bool
contains s [] = false
contains s (x ∷ xs) = str_eq x s || contains s xs

pub owner_of : String → ℤ → List Claim → Option String
owner_of uid channel [] = none
owner_of uid channel (c ∷ cs) =
    if str_eq c.uid uid && eqb_ℤ c.channel channel then some c.owner else owner_of uid channel cs

-- The checks on a node that is not local.
check_remote : Seen → Node → Result Invalid Seen
check_remote s n = do
  reject_if (str_eq n.address "") (no_address n.id)
  reject_if (str_eq n.manager_address "") (no_manager_address n.id)
  reject_if (ltb_ℤ n.channel (pos 0) || leb_ℤ channels_per_relay n.channel)
      (bad_channel n.id n.channel)
  elim (owner_of n.relay_uid n.channel s.claims) [
    | some other ↦ err (shared_channel other n.id n.relay_uid n.channel)
    | none ↦ ok (record s {
      claims = record { uid = n.relay_uid; channel = n.channel; owner = n.id } ∷ s.claims;
    })
  ]

-- One round of the first loop.
pub check_node : Seen → Node → Result Invalid Seen
unfolding check_remote
check_node s n = do
  reject_if (str_eq n.id "") empty_id
  reject_if (contains n.id s.ids) (duplicate_id n.id)
  let s' = record s { ids = n.id ∷ s.ids }
  if n.local then ok (record s' { locals = suc s'.locals }) else check_remote s' n

pub check_nodes : Seen → List Node → Result Invalid Seen
check_nodes s [] = ok s
check_nodes s (n ∷ ns) = check_node s n >>= λ s'. check_nodes s' ns

abbrev pub executors : List Node → ℕ
executors = count_if λ n. not n.dispatch_only

-- The checks after the first loop.
pub check_counts : List Node → Seen → Result Invalid (Unit {0})
check_counts nodes s = do
  reject_if (not (s.locals == 1)) (wrong_locals s.locals)
  reject_if (executors nodes == 0) no_executor
  ok tt

unfoldable pub validate_nodes : List Node → Result Invalid (Unit {0})
unfolding check_node check_nodes check_counts contains owner_of
validate_nodes [] = err no_nodes
validate_nodes (n ∷ ns) = check_nodes nothing_seen (n ∷ ns) >>= check_counts (n ∷ ns)

-- `LoadNodes` fills in a status that the file leaves empty.
unfoldable pub default_status : Node → Node
default_status n =
    if is_unset n.status then record n { status = if n.local then active else sleeping } else n

-- `LoadNodes` from the parsed file on.
unfoldable pub load_nodes : List Node → Result Invalid (List Node)
unfolding default_status validate_nodes
load_nodes parsed = do let nodes = map default_status parsed; validate_nodes nodes; ok nodes
