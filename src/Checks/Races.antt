-- ===== src/Checks/Races.antt =====
-- Goroutines that wake one node of a small cluster at the same time.
use yuliya_bachelorarbeit.Base.{ℕ, ◌≢◌, none, some, [], ◌∷◌, ◌≡◌, refl, ok, err, ◌⊎◌, get_elem?}
use yuliya_bachelorarbeit.Base.Dict.{lookup}
use yuliya_bachelorarbeit.Node.{active}
use yuliya_bachelorarbeit.Registry.{
  Registry, WakeResult, no_signal, not_ready, timed_out, set_status,
}
use yuliya_bachelorarbeit.Registry.Wake.{start_activation, unregister, close_signal, follow}
use yuliya_bachelorarbeit.Registry.Wake.Settled.{registered, start_activation-lead}
use yuliya_bachelorarbeit.Registry.Threads.{
  Thread, calling, leading, settled, closing, following, returned, Move, System, Step, Steps,
}
use yuliya_bachelorarbeit.Registry.Threads.Followers.{quiet, leader_closes, follower_hears_leader}
use yuliya_bachelorarbeit.Registry.Threads.Lost.{Calls, activation_lost}
use yuliya_bachelorarbeit.Checks.Samples.{edge_1, cluster}

abbrev led : Registry
led = registered "edge-1" edge_1 cluster

abbrev woken : Registry
woken = set_status "edge-1" active 100 led

abbrev released : Registry
released = unregister "edge-1" woken

abbrev two_threads : Registry → Thread → Thread → System
two_threads r a b = record { registry = r; threads = a ∷ b ∷ [] }

-- A leader that has woken the node and a follower of it.
abbrev before_close : System
before_close = two_threads released (closing "edge-1" 0 (ok tt)) (following "edge-1" (some 0))

follows_led : start_activation "edge-1" led ≡ follow (some 0)
unfolding start_activation
follows_led = refl

found : lookup "edge-1" cluster.nodes ≡ some edge_1
unfolding lookup
found = refl

two_calls : Steps (quiet cluster) before_close
two_calls =
    Steps.next
      (Steps.next
        (Steps.next
          (Steps.next
            (Steps.next (Steps.next Steps.here (Step.arrives "edge-1")) (Step.arrives "edge-1"))
            (Step.runs 0 (calling "edge-1") (leading "edge-1" 0) led refl (
              Move.leads "edge-1" 0 edge_1 led
                (start_activation-lead "edge-1" cluster edge_1 found refl refl))))
          (Step.runs 1 (calling "edge-1") (following "edge-1" (some 0)) led refl
            (Move.follows "edge-1" (some 0) follows_led)))
        (Step.runs 0 (leading "edge-1" 0) (settled "edge-1" 0 (ok tt)) woken refl
          (Move.wakes "edge-1" 0 (ok tt) 100 refl)))
      (Step.runs 0 (settled "edge-1" 0 (ok tt)) (closing "edge-1" 0 (ok tt)) released refl
        (Move.unregisters "edge-1" 0 (ok tt)))

abbrev after_close : System
after_close = leader_closes before_close 0 "edge-1" 0 (ok tt)

signal : get_elem? after_close.registry.signals 0 ≡ some (some (ok tt))
unfolding close_signal unregister set_status
signal = refl

heard_it :
    Move after_close.registry
      (following "edge-1" (some 0))
      after_close.registry
      (returned "edge-1" (ok tt))
heard_it = Move.hears "edge-1" 0 (ok tt) signal

abbrev success : WakeResult
success = ok tt

follower_hears_leader_example : (success ≡ success) ⊎ (success ≡ err (timed_out "edge-1"))
follower_hears_leader_example =
    follower_hears_leader cluster before_close after_close 0 0 "edge-1" "edge-1" (ok tt) (ok tt)
      after_close.registry two_calls refl Steps.here heard_it

activation_lost_example :
    (u : System) × Calls (quiet cluster) u
    × ((act_1 : ℕ) × (act_2 : ℕ) × (act_1 ≢ act_2)
        × (u.threads ≡ (
            closing "edge-1" act_1 (err (not_ready "edge-1" edge_1.manager_address))
            ∷ leading "edge-1" act_2
            ∷ returned "edge-1" (err (no_signal "edge-1"))
            ∷ [])))
    × (lookup "edge-1" u.registry.activations ≡ none)
unfolding lookup
activation_lost_example = activation_lost cluster "edge-1" edge_1 refl refl refl
