-- ===== src/Registry/Threads.antt =====
-- Concurrent calls of `ActivateNode` in tinyFaaS-ext/pkg/cluster/registry.go: goroutines that
-- interleave at the critical sections. A step runs one section of one goroutine.
pub mod Signals
pub mod Followers
pub mod Lost
use yuliya_bachelorarbeit.Base.{
  ℕ, String, Option, none, some, List, [], ◌∷◌, ◌++◌, Result, ok, err, ◌≡◌, get_elem?, set, Bool,
  true, false,
}
use yuliya_bachelorarbeit.Node.{Node, NodeStatus}
use yuliya_bachelorarbeit.Registry.{
  Registry, WakeResult, unknown_node, timed_out, no_signal, power_on_failed, not_ready,
  deploy_failed, power_off_failed, set_status, update_node,
}
use yuliya_bachelorarbeit.Registry.Wake.{
  start_activation, unknown, already_active, follow, lead, unregister, close_signal,
}
use yuliya_bachelorarbeit.Registry.Wake.Outcomes.{status_after}

-- Where a call of `ActivateNode` stands.
pub data Thread : Type 0 where
  -- before the first critical section
  calling : String → Thread
  -- in `wakeNode`, as the owner of an activation
  leading : String → ℕ → Thread
  -- `wakeNode` has set the status and returned
  settled : String → ℕ → WakeResult → Thread
  -- the activation is deleted from the registry and not yet closed
  closing : String → ℕ → WakeResult → Thread
  -- in `activation.wait`
  following : String → Option ℕ → Thread
  returned : String → WakeResult → Thread

-- The results that `wakeNode` has.
abbrev pub is_wake_result : WakeResult → Bool
is_wake_result (ok _) = true
is_wake_result (err (power_on_failed _ _)) = true
is_wake_result (err (not_ready _ _)) = true
is_wake_result (err (deploy_failed _ _)) = true
is_wake_result (err (power_off_failed _ _ _)) = true
is_wake_result _ = false

-- One section of one goroutine: what it makes of the registry and of itself. What `wakeNode` does
-- to the registry is its last critical section; the world decides its result.
pub data Move (r : Registry) : Thread → Registry → Thread → Type 0 where
  rejects :
      (id : String)
      → start_activation id r ≡ unknown
      → Move r (calling id) r (returned id (err (unknown_node id)))
  finds_active :
      (id : String)
      → start_activation id r ≡ already_active
      → Move r (calling id) r (returned id (ok tt))
  follows :
      (id : String) (act : Option ℕ)
      → start_activation id r ≡ follow act
      → Move r (calling id) r (following id act)
  leads :
      (id : String) (act : ℕ) (n : Node) (r' : Registry)
      → start_activation id r ≡ lead act n r'
      → Move r (calling id) r' (leading id act)
  wakes :
      (id : String) (act : ℕ) (res : WakeResult) (now : ℕ)
      → is_wake_result res ≡ true
      → Move r (leading id act) (set_status id (status_after res) now r) (settled id act res)
  unregisters :
      (id : String) (act : ℕ) (res : WakeResult)
      → Move r (settled id act res) (unregister id r) (closing id act res)
  closes :
      (id : String) (act : ℕ) (res : WakeResult)
      → Move r (closing id act res) (close_signal act res r) (returned id res)
  hears :
      (id : String) (act : ℕ) (res : WakeResult)
      → get_elem? r.signals act ≡ some (some res)
      → Move r (following id (some act)) r (returned id res)
  gives_up :
      (id : String) (act : ℕ)
      → Move r (following id (some act)) r (returned id (err (timed_out id)))
  -- a wait on a nil activation
  panics : (id : String) → Move r (following id none) r (returned id (err (no_signal id)))

pub record System : Type 0 where
  pub registry : Registry
  pub threads : List Thread

pub data Step (s : System) : System → Type 0 where
  runs :
      (i : ℕ) (t t' : Thread) (r' : Registry)
      → get_elem? s.threads i ≡ some t
      → Move s.registry t r' t'
      → Step s (record { registry = r'; threads = set s.threads i t' })
  arrives : (id : String) → Step s (record s { threads = s.threads ++ calling id ∷ [] })
  -- any other method that changes nodes, and more than they do: what holds for all steps holds for
  -- theirs, and what can happen is shown without this step
  updates :
      (id : String) (f : Node → Node) → Step s (record s { registry = update_node id f s.registry })

pub data Steps (s : System) : System → Type 0 where
  here : Steps s s
  next : {t u : System} → Steps s t → Step t u → Steps s u
