-- ===== src/Checks/Scheduling.antt =====
-- `PickNode` on small clusters.
use yuliya_bachelorarbeit.Base.{pos, none, some, List, [], ◌∷◌, ◌≡◌, refl, ◌↔◌, All, false}
use yuliya_bachelorarbeit.Node.{Node}
use yuliya_bachelorarbeit.Scheduler.{pick_node}
use yuliya_bachelorarbeit.Scheduler.Order.{eligible, best_from}
use yuliya_bachelorarbeit.Scheduler.Best.{pick_node-eq-best_from, pick_node-none}
use yuliya_bachelorarbeit.Checks.Samples.{edge_1, busy_1, idle_2, dead_2, dispatcher}

abbrev mixed : List Node
mixed = dispatcher ∷ busy_1 ∷ idle_2 ∷ edge_1 ∷ []

picks_lightest : pick_node mixed (pos 10) ≡ some idle_2
unfolding pick_node
picks_lightest = refl

-- A sleeping node is woken before a full one is loaded further.
wakes_before_overload : pick_node (busy_1 ∷ edge_1 ∷ []) (pos 3) ≡ some edge_1
unfolding pick_node
wakes_before_overload = refl

abbrev at_threshold : Node
at_threshold = record busy_1 { load = pos 10 }

-- So it is before one that is at the threshold.
wakes_at_threshold : pick_node (at_threshold ∷ edge_1 ∷ []) (pos 10) ≡ some edge_1
unfolding pick_node
wakes_at_threshold = refl

pick_node-eq-best_from_example : pick_node mixed (pos 10) ≡ best_from (pos 10) none mixed
pick_node-eq-best_from_example = pick_node-eq-best_from mixed (pos 10)

pick_node-none_example :
    (pick_node (dispatcher ∷ dead_2 ∷ []) (pos 10) ≡ none)
    ↔ All (λ n. eligible n ≡ false) (dispatcher ∷ dead_2 ∷ [])
pick_node-none_example = pick_node-none (dispatcher ∷ dead_2 ∷ []) (pos 10)
