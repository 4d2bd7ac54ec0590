-- ===== src/Scheduler/Order.antt =====
-- What a good choice is, said without the loop: classes of nodes, and loads within a class.
use yuliya_bachelorarbeit.Base.{
  ℕ, ℤ, ltb_ℤ, ltb, ◌==◌, Bool, ◌&&◌, ◌||◌, not, Option, none, some, List, [], ◌∷◌, if◌then◌else◌,
}
use yuliya_bachelorarbeit.Node.{Node, is_dead, is_active, is_sleeping}

-- A node that may run functions at all.
abbrev pub eligible : Node → Bool
eligible n = not (is_dead n.status) && not n.dispatch_only

-- 0: active with room, 1: asleep, 2: active and full, 3: anything else that is not dead. There is room
-- below the threshold, as in the code; the documents have it up to the threshold.
abbrev pub class : ℤ → Node → ℕ
class load_threshold n =
    if is_active n.status
    then (if ltb_ℤ n.load load_threshold then 0 else 2)
    else (if is_sleeping n.status then 1 else 3)

-- `a` is strictly better than `b`: of a better class, or lighter where both are active.
abbrev pub better : ℤ → Node → Node → Bool
better t a b =
    ltb (class t a) (class t b)
    || (class t a == class t b && (is_active a.status && ltb_ℤ a.load b.load))

-- The first eligible node that no other beats, by plain comparison of nodes.
unfoldable pub best_so_far : ℤ → Option Node → Node → Option Node
best_so_far t best n =
    if eligible n
    then (elim best [ none ↦ some n | some b ↦ if better t n b then some n else some b ])
    else best

unfoldable pub best_from : ℤ → Option Node → List Node → Option Node
unfolding best_so_far
best_from t best [] = best
best_from t best (n ∷ ns) = best_from t (best_so_far t best n) ns
