-- ===== src/Scheduler.antt =====
-- tinyFaaS-ext/pkg/cluster/scheduler.go: which node serves a request.
pub mod Order
pub mod Best
use yuliya_bachelorarbeit.Base.{
  ℤ, pos, ltb_ℤ, Bool, true, ◌&&◌, Option, none, some, List, [], ◌∷◌, if◌then◌else◌,
}
use yuliya_bachelorarbeit.Node.{Node, is_dead, is_active, is_sleeping}

abbrev pub default_load_threshold : ℤ
default_load_threshold = pos 10

-- The four pointers that the loop of `PickNode` carries; `nil` is `none`.
pub record Candidates : Type 0 where
  pub best_active : Option Node
  pub best_idle_active : Option Node
  pub best_sleeping : Option Node
  pub fallback : Option Node

abbrev pub no_candidates : Candidates
no_candidates = record {
  best_active = none;
  best_idle_active = none;
  best_sleeping = none;
  fallback = none;
}

-- `best == nil || n.Load < best.Load`
abbrev lighter : Node → Option Node → Option Node
lighter n none = some n
lighter n (some best) = if ltb_ℤ n.load best.load then some n else some best

-- `if best == nil { best = n }`
abbrev first : Node → Option Node → Option Node
first n none = some n
first n (some best) = some best

-- One round of the loop.
pub consider : ℤ → Candidates → Node → Candidates
consider load_threshold c n =
    if is_dead n.status
    then c
    else if n.dispatch_only
    then c
    else if is_active n.status && ltb_ℤ n.load load_threshold
    then record c { best_active = lighter n c.best_active }
    else if is_active n.status
    then record c { best_idle_active = lighter n c.best_idle_active }
    else if is_sleeping n.status
    then record c { best_sleeping = first n c.best_sleeping }
    else record c { fallback = first n c.fallback }

pub scan : ℤ → Candidates → List Node → Candidates
scan load_threshold c [] = c
scan load_threshold c (n ∷ ns) = scan load_threshold (consider load_threshold c n) ns

abbrev or_else : Option Node → Option Node → Option Node
or_else none b = b
or_else (some n) b = some n

-- The priority order after the loop; `none` is the result `(Node{}, false)`.
pub choose : Candidates → Option Node
choose c = or_else c.best_active (or_else c.best_sleeping (or_else c.best_idle_active c.fallback))

unfoldable pub pick_node : List Node → ℤ → Option Node
unfolding consider scan choose
pick_node nodes load_threshold = choose (scan load_threshold no_candidates nodes)
