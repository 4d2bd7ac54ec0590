-- ===== src/Config/Env/Limits.antt =====
-- What settings can and cannot come to.
use yuliya_bachelorarbeit.Base.{
  ℕ, ◌<◌, ◌==◌, eq_iff, ℤ, pos, negsuc, ◌≤ℤ◌, ◌<ℤ◌, max_int, false, String, Option, some, ok, ◌≡◌,
  ◌≢◌, refl, arith, Option-cases, Bool-cases, Result-cases, inl, inr, str_eq,
}
use Prim.Native.Char.{code}
use yuliya_bachelorarbeit.Outside.{Outside}
use yuliya_bachelorarbeit.Registry.{Registry}
use yuliya_bachelorarbeit.Registry.Wake.{wake_node, wait_for_node_ready, second}
use yuliya_bachelorarbeit.Config.Env.{
  Environment, env_int, controller_config_from_env, atoi, magnitude, non_negative, negative, getenv,
  env_value, deploy_timeout_from_env, boot_timeout_from_env, health_check_attempts,
  positive_duration,
}

abbrev pub IsInt64 : ℤ → Type 0
IsInt64 z = (negsuc max_int ≤ℤ z) × (z ≤ℤ pos max_int)

non_negative-IsInt64 : (m : Option ℕ) (z : ℤ) → non_negative m ≡ some z → IsInt64 z
non_negative-IsInt64 m z e = ground (arith, e)

negative-IsInt64 : (m : Option ℕ) (z : ℤ) → negative m ≡ some z → IsInt64 z
negative-IsInt64 m z e = ground (arith, e)

-- A text that `Atoi` reads is a 64-bit integer, whatever its length.
atoi-IsInt64 : (s : String) (z : ℤ) → atoi s ≡ some z → IsInt64 z
unfolding atoi
atoi-IsInt64 String.[] z e = absurd (ground (arith, e))
atoi-IsInt64 (String.◌∷◌ c s) z e = elim (Bool-cases (code c == b'-')) [
  | inl minus ↦ negative-IsInt64 (magnitude s) z (ground (arith, e, minus))
  | inr other ↦ elim (Bool-cases (code c == b'+')) [
    | inl plus ↦ non_negative-IsInt64 (magnitude s) z (ground (arith, e, other, plus))
    | inr digit ↦
        non_negative-IsInt64 (magnitude (String.◌∷◌ c s)) z (ground (arith, e, other, digit))
  ]
]

module _ (parse_duration : String → Option ℤ) where
  -- The time a deployment or a boot is given is positive, whatever the environment sets.
  pub timeouts-positive :
      (env : Environment)
      → (pos 0 <ℤ deploy_timeout_from_env parse_duration env)
        × (pos 0 <ℤ boot_timeout_from_env parse_duration env)
  unfolding deploy_timeout_from_env boot_timeout_from_env env_value
  timeouts-positive env = (
    positive "DEPLOY_TIMEOUT" 300000000000 (omega arith),
    positive "NODE_BOOT_TIMEOUT" 180000000000 (omega arith),
  )
    where
      positive :
          (key : String) (fallback : ℕ)
          → 0 < fallback
          → pos 0 <ℤ env_value (positive_duration parse_duration) key (pos fallback) env
      positive key fallback high = elim (Option-cases (parse_duration (getenv key env))) [
        | inl bad ↦ ground (arith, bad)
        | inr (d, parsed) ↦ ground (arith, parsed)
      ]

  boot_timeout-set :
      (env : Environment) (d : ℤ)
      → getenv "NODE_BOOT_TIMEOUT" env ≢ ""
      → parse_duration (getenv "NODE_BOOT_TIMEOUT" env) ≡ some d
      → pos 0 <ℤ d
      → boot_timeout_from_env parse_duration env ≡ d
  unfolding boot_timeout_from_env env_value
  boot_timeout-set env d ne parsed high =
      ground (arith, parsed, eq_iff (getenv "NODE_BOOT_TIMEOUT" env) "")

  no_attempts :
      (env : Environment) (k : ℕ)
      → boot_timeout_from_env parse_duration env ≡ pos k
      → k < second
      → health_check_attempts parse_duration env ≡ 0
  unfolding health_check_attempts
  no_attempts env k e low = rw e (omega (arith, low))

module _ (parse_duration : String → Option ℤ) {W : Type 0} (o : Outside W) where
  unready : (addr : String) (w : W) → wait_for_node_ready o 0 addr w ≡ (false, w)
  unfolding wait_for_node_ready
  unready addr w = refl

  never_ready :
      (id relay_uid : String) (channel : ℤ) (addr : String) (s : Registry × W)
      → (wake_node o 0 id relay_uid channel addr s).0 ≢ ok tt
  unfolding wake_node
  never_ready id relay_uid channel addr (r, w) e =
      elim (Result-cases (o.power_on relay_uid channel w).0) [
        | inl (done, on) ↦ ground (arith, e, on, unready addr (o.power_on relay_uid channel w).1)
        | inr (problem, off) ↦ ground (arith, e, off)
      ]

  -- With NODE_BOOT_TIMEOUT set to a positive duration below one second, which the code takes as
  -- valid, no wake succeeds, whatever the relay and the node do.
  pub short_boot-never_wakes :
      (env : Environment) (k : ℕ) (id relay_uid : String) (channel : ℤ) (addr : String)
      (s : Registry × W)
      → getenv "NODE_BOOT_TIMEOUT" env ≢ ""
      → parse_duration (getenv "NODE_BOOT_TIMEOUT" env) ≡ some (pos k)
      → 0 < k
      → k < second
      → (wake_node o (health_check_attempts parse_duration env) id relay_uid channel addr s).0
        ≢ ok tt
  short_boot-never_wakes env k id relay_uid channel addr s ne parsed high low =
      rw
        (no_attempts parse_duration env k
          (boot_timeout-set parse_duration env (pos k) ne parsed (omega (arith, high))) low)
        (never_ready id relay_uid channel addr s)

env_int-IsInt64 :
    (key : String) (fallback : ℤ) (env : Environment)
    → IsInt64 fallback
    → IsInt64 (env_int key fallback env)
unfolding env_int env_value
env_int-IsInt64 key fallback env safe = elim (Bool-cases (str_eq (getenv key env) "")) [
  | inl unset ↦ rw unset safe
  | inr set ↦ elim (Option-cases (atoi (getenv key env))) [
    | inl bad ↦ rw (set, bad) safe
    | inr (z, good) ↦ rw (set, good) (atoi-IsInt64 (getenv key env) z good)
  ]
]

-- Whatever the environment sets, the smallest number of active nodes and the load threshold are
-- 64-bit integers.
pub controller_config_from_env-IsInt64 :
    (parse_duration : String → Option ℤ) (env : Environment)
    → let cfg = controller_config_from_env parse_duration env in
      IsInt64 cfg.min_active_nodes × IsInt64 cfg.load_threshold
unfolding controller_config_from_env
controller_config_from_env-IsInt64 parse_duration env = (
  env_int-IsInt64 "MIN_ACTIVE_NODES" (pos 1) env (omega arith, omega arith),
  env_int-IsInt64 "LOAD_THRESHOLD" (pos 10) env (omega arith, omega arith),
)
