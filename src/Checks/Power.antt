-- ===== src/Checks/Power.antt =====
-- Relays whose outlets are a function, and nodes that never answer.
use yuliya_bachelorarbeit.Base.{
  ℤ, pos, Bool, true, false, ◌&&◌, String, str_eq, eq_iff, eqb_ℤ, eq→eqb_ℤ, none, some, [], ◌∷◌,
  if◌then◌else◌, ok, ◌≡◌, refl, inl, arith,
}
use yuliya_bachelorarbeit.Base.Dict.{lookup}
use yuliya_bachelorarbeit.Node.{Node, sleeping}
use yuliya_bachelorarbeit.Outside.{Outside}
use yuliya_bachelorarbeit.Registry.{Registry, list_nodes, with_status}
use yuliya_bachelorarbeit.Registry.Snapshot.{WellFormed}
use yuliya_bachelorarbeit.Registry.Wake.{healthy, activate_node}
use yuliya_bachelorarbeit.Registry.Wake.Power.{activate_node-open}
use yuliya_bachelorarbeit.Registry.Sweep.{recover_dead}
use yuliya_bachelorarbeit.Registry.Sweep.Power.{Powers, recover_dead-powered}
use yuliya_bachelorarbeit.Checks.Samples.{edge_1, dead_2, cluster}

abbrev Grid : Type 0
Grid = String → ℤ → Bool

abbrev switch : Bool → String → ℤ → Grid → Grid
switch on u c w v d = if str_eq u v && eqb_ℤ c d then on else w v d

abbrev grid : Outside Grid
grid = record {
  power_on = λ u c w. (ok tt, switch true u c w);
  power_off = λ u c w. (ok tt, switch false u c w);
  get_health = λ addr w. (none, w);
  post_upload = λ addr name def w. (none, w);
  post_delete = λ addr name w. (none, w);
  now = λ w. 1000;
  sleep = λ d w. w;
}

abbrev closed : Grid → String → ℤ → Bool
closed w = w

grid-Powers : Powers grid closed
grid-Powers = record {
  off_done = λ u c w e. ground (arith, eq_iff u u, eq→eqb_ℤ c c refl);
  off_closes_none = λ u c w v d off. ground (arith, off);
  health_keeps = λ addr w v d. refl;
}

abbrev all_on : Grid
all_on v d = true

abbrev lone : Registry
lone = record cluster { nodes = ("edge-2", dead_2) ∷ [] }

lone-WellFormed : WellFormed lone.nodes
lone-WellFormed = record { keyed = (refl, tt); distinct = (tt, tt) }

silent : (w : Grid) → (healthy grid dead_2.manager_address w).0 ≡ false
unfolding healthy
silent w = refl

recover_dead-powered_example :
    ((n' : Node) × (lookup "edge-2" (recover_dead grid (pos 10) (lone, all_on)).0.nodes ≡ some n')
      × (n'.status ≡ sleeping))
    × (closed (recover_dead grid (pos 10) (lone, all_on)).1 "A" (pos 1) ≡ true)
unfolding list_nodes
recover_dead-powered_example =
    recover_dead-powered grid closed grid-Powers (pos 10) lone all_on dead_2 lone-WellFormed
      (inl refl) refl silent (λ w. refl) refl

-- Nodes that answer and take no function.
abbrev full : Outside Grid
full = record grid { get_health = λ addr w. (some 200, w) }

full-off_done :
    (u : String) (c : ℤ) (w : Grid)
    → (full.power_off u c w).0 ≡ ok tt
    → closed (full.power_off u c w).1 u c ≡ false
full-off_done u c w e = ground (arith, eq_iff u u, eq→eqb_ℤ c c refl)

activate_node-open_example :
    closed (activate_node full 3 "edge-1" (cluster, all_on)).1.1 "A" (pos 0) ≡ false
unfolding activate_node lookup
activate_node-open_example =
    activate_node-open full closed full-off_done 3 "edge-1" cluster all_on edge_1
      (with_status sleeping (grid.now all_on) edge_1) refl refl refl refl refl
