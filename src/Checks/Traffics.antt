-- ===== src/Checks/Traffics.antt =====
-- A request and the controller at one node.
use yuliya_bachelorarbeit.Base.{pos, true, some, [], ◌∷◌, count_if, ◌≡◌, refl, arith}
use yuliya_bachelorarbeit.Base.Dict.{lookup}
use yuliya_bachelorarbeit.Node.{Node, sleeping, active}
use yuliya_bachelorarbeit.Config.{ControllerConfig, default_controller_config}
use yuliya_bachelorarbeit.Scheduler.{pick_node}
use yuliya_bachelorarbeit.Controller.{is_excess, serves}
use yuliya_bachelorarbeit.Functions.{new_function_store}
use yuliya_bachelorarbeit.Registry.{Registry, list_nodes, raise, inc_load}
use yuliya_bachelorarbeit.Registry.Wake.{start_activation, already_active}
use yuliya_bachelorarbeit.Traffic.{
  Traffic, cut_off, served_by, arrived, waiting, here, next, arrives, in_flight, serves_request,
  picked, admitted, picks, admits_active, begins, Steps,
}
use yuliya_bachelorarbeit.Traffic.Cut.{Own, cut_under_request, at_rest, with_one}
use yuliya_bachelorarbeit.Traffic.Loads.{LoadsOf, Steps-LoadsOf}
use yuliya_bachelorarbeit.Checks.Samples.{edge_1}

abbrev worker : Node
worker = record edge_1 { status = active; load = pos 0; last_used = 0 }

abbrev one_worker : Registry
one_worker = record {
  nodes = (worker.id, worker) ∷ [];
  funcs = new_function_store;
  activations = [];
  signals = [];
}

-- No node has to stay awake.
abbrev to_zero : ControllerConfig
to_zero = record default_controller_config { min_active_nodes = pos 0 }

picked_first : pick_node (list_nodes one_worker) to_zero.load_threshold ≡ some worker
unfolding list_nodes pick_node
picked_first = refl

excess :
    is_excess to_zero (pos (count_if serves (list_nodes one_worker))) 100000000000 worker ≡ true
unfolding list_nodes is_excess
excess = refl

cut_under_request_example :
    (t : Traffic) × (u : Traffic) × Own to_zero (at_rest one_worker) t
    × Own to_zero t u
    × (t.requests ≡ served_by worker.id ∷ [])
    × (t.loop ≡ cut_off worker [] (pos 1))
    × (u.requests ≡ served_by worker.id ∷ [])
    × ((m : Node) × (lookup worker.id u.registry.nodes ≡ some m)
        × (m.status ≡ sleeping)
        × (m.load ≡ (raise worker).load))
unfolding list_nodes lookup
cut_under_request_example =
    cut_under_request to_zero one_worker worker [] 100000000000 refl refl refl picked_first excess

idle_at_first : LoadsOf one_worker []
unfolding LoadsOf lookup in_flight
idle_at_first id n found = ground (arith, found)

active_now : start_activation worker.id one_worker ≡ already_active
unfolding start_activation lookup
active_now = refl

-- The request has come, has been let through to the worker, and is in flight on it.
abbrev busy : Traffic
busy = with_one (inc_load worker.id one_worker) (served_by worker.id) waiting

comes_in : Steps to_zero (at_rest one_worker) busy
comes_in =
    next
      (next
        (next (next here arrives)
          (serves_request 0 arrived (picked worker.id) one_worker refl (picks worker picked_first)))
        (serves_request 0 (picked worker.id) (admitted worker.id) one_worker refl
          (admits_active worker.id active_now)))
      (serves_request 0 (admitted worker.id) (served_by worker.id) (inc_load worker.id one_worker)
        refl (begins worker.id))

Steps-LoadsOf_example : LoadsOf (inc_load worker.id one_worker) (served_by worker.id ∷ [])
Steps-LoadsOf_example =
    Steps-LoadsOf to_zero (at_rest one_worker) busy comes_in (omega arith) idle_at_first
