-- ===== src/Config.antt =====
-- tinyFaaS-ext/pkg/cluster/config.go: the policy of the controller and the cluster topology.
pub mod Topology
pub mod Env
use yuliya_bachelorarbeit.Base.{ℕ, ◌*◌, ℤ, pos, Bool, true}

-- Durations are in nanoseconds.
pub record ControllerConfig : Type 0 where
  pub enabled : Bool
  pub idle_timeout : ℤ
  pub check_interval : ℤ
  pub min_active_nodes : ℤ
  pub load_threshold : ℤ
  pub dead_retry : ℤ

abbrev pub default_controller_config : ControllerConfig
default_controller_config = record {
  enabled = true;
  idle_timeout = pos 60000000000;
  check_interval = pos 10000000000;
  min_active_nodes = pos 1;
  load_threshold = pos 10;
  dead_retry = pos 300000000000;
}
