-- ===== src/Registry/Threads/Followers.antt =====
-- What a goroutine that waits for another's wake attempt gets.
use yuliya_bachelorarbeit.Base.{
  ℕ, String, none, some, [], ◌≡◌, refl, arith, get_elem?, set, inl, inr, ◌⊎◌, err, get_elem?-set_at,
}
use yuliya_bachelorarbeit.Registry.{Registry, WakeResult, timed_out}
use yuliya_bachelorarbeit.Registry.Wake.{close_signal}
use yuliya_bachelorarbeit.Registry.Threads.{
  Thread, closing, following, returned, Move, System, Step, Steps,
}
use yuliya_bachelorarbeit.Registry.Threads.Signals.{Owned, Steps-Owned, Step-Owned, signal-Steps}

-- A registry with no call under way.
abbrev pub quiet : Registry → System
quiet r = record { registry = r; threads = [] }

pub quiet-Owned : (r : Registry) → Owned (quiet r)
quiet-Owned r = record {
  is_open = λ i act t e own. absurd (ground (arith, e));
  one_owner = λ i j act t u e. absurd (ground (arith, e));
}

-- The leader `i` closes its activation.
abbrev pub leader_closes : System → ℕ → String → ℕ → WakeResult → System
leader_closes s i id act res = record {
  registry = close_signal act res s.registry;
  threads = set s.threads i (returned id res);
}

signal-leader_closes :
    (s : System) (i act : ℕ) (id : String) (res : WakeResult)
    → Owned s
    → get_elem? s.threads i ≡ some (closing id act res)
    → get_elem? (leader_closes s i id act res).registry.signals act ≡ some (some res)
unfolding close_signal
signal-leader_closes s i act id res o at =
    get_elem?-set_at s.registry.signals act (some res) none
      (o.is_open i act (closing id act res) at refl)

heard :
    (u : Registry) (act : ℕ) (id : String) (res out : WakeResult) (t : Thread) (r' : Registry)
    (t' : Thread)
    → get_elem? u.signals act ≡ some (some res)
    → t ≡ following id (some act)
    → t' ≡ returned id out
    → Move u t r' t'
    → (out ≡ res) ⊎ (out ≡ err (timed_out id))
heard u act id res out t r' t' told et et' (Move.hears id' act' res' e) =
    inl (ground (arith, told, et, et', e))
heard u act id res out t r' t' told et et' (Move.gives_up id' act') = inr (ground (arith, et, et'))
heard u act id res out t r' t' told et et' (Move.rejects id' e) = absurd (cc et)
heard u act id res out t r' t' told et et' (Move.finds_active id' e) = absurd (cc et)
heard u act id res out t r' t' told et et' (Move.follows id' a e) = absurd (cc et)
heard u act id res out t r' t' told et et' (Move.leads id' a n r'' e) = absurd (cc et)
heard u act id res out t r' t' told et et' (Move.wakes id' a res' now w) = absurd (cc et)
heard u act id res out t r' t' told et et' (Move.unregisters id' a res') = absurd (cc et)
heard u act id res out t r' t' told et et' (Move.closes id' a res') = absurd (cc et)
heard u act id res out t r' t' told et et' (Move.panics id') = absurd (cc et)

-- Whatever calls ran before and however calls interleave afterwards, once the goroutine that owns an
-- activation has closed it, a goroutine that waits on it returns the owner's result, or times out.
pub follower_hears_leader :
    (r : Registry) (s u : System) (i act : ℕ) (id follower : String) (res out : WakeResult)
    (r' : Registry)
    → Steps (quiet r) s
    → get_elem? s.threads i ≡ some (closing id act res)
    → Steps (leader_closes s i id act res) u
    → Move u.registry (following follower (some act)) r' (returned follower out)
    → (out ≡ res) ⊎ (out ≡ err (timed_out follower))
follower_hears_leader r s u i act id follower res out r' before at after m =
    let o = Steps-Owned (quiet-Owned r) before in
    let closes : Step s (leader_closes s i id act res) =
      Step.runs i (closing id act res) (returned id res) (close_signal act res s.registry) at
        (Move.closes id act res) in
    heard u.registry act follower res out (following follower (some act)) r' (returned follower out)
      (signal-Steps act res (Step-Owned o closes) after (signal-leader_closes s i act id res o at))
      refl refl m
