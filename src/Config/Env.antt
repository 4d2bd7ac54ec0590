-- ===== src/Config/Env.antt =====
-- What the environment sets: `ControllerConfigFromEnv` in tinyFaaS-ext/pkg/cluster/config.go, the
-- timeouts in tinyFaaS-ext/pkg/cluster/registry.go and the relay's address in
-- tinyFaaS-ext/cmd/rproxy/main.go. `time.ParseDuration` is a parameter.
pub mod Limits
use yuliya_bachelorarbeit.Base.{
  ℕ, zero, suc, ◌+◌, ◌-◌, ◌*◌, ◌/◌, ◌==◌, leb, ℤ, pos, negsuc, leb_ℤ, max_int, Bool, true, false,
  ◌&&◌, ◌||◌, not, String, str_eq, Option, none, some, if◌then◌else◌,
}
use yuliya_bachelorarbeit.Base.Dict.{Dict, lookup}
use yuliya_bachelorarbeit.Config.{ControllerConfig, default_controller_config}
use Prim.Native.String
use Prim.Native.Char.{code}

-- `os.Getenv`: a variable that is not set reads as the empty string.
abbrev pub Environment : Type 0
Environment = Dict String

unfoldable pub getenv : String → Environment → String
unfolding lookup
getenv key env = elim (lookup key env) [ none ↦ "" | some v ↦ v ]

-- `strconv.ParseBool`
unfoldable pub parse_bool : String → Option Bool
parse_bool s =
    if str_eq s "1"
      || str_eq s "t"
      || str_eq s "T"
      || str_eq s "true"
      || str_eq s "TRUE"
      || str_eq s "True"
    then some true
    else if str_eq s "0"
        || str_eq s "f"
        || str_eq s "F"
        || str_eq s "false"
        || str_eq s "FALSE"
        || str_eq s "False"
    then some false
    else none

abbrev pub is_digit : ℕ → Bool
is_digit n = leb b'0' n && leb n b'9'

-- The digits of a decimal number behind those that make `n`.
pub digits : ℕ → String → Option ℕ
digits n String.[] = some n
digits n (String.◌∷◌ c s) =
    let rest = digits (n * 10 + (code c - b'0')) s in if is_digit (code c) then rest else none

-- At least one digit.
pub magnitude : String → Option ℕ
unfolding digits
magnitude String.[] = none
magnitude (String.◌∷◌ c s) = digits 0 (String.◌∷◌ c s)

-- A number with a sign, if it is a 64-bit integer.
abbrev pub non_negative : Option ℕ → Option ℤ
non_negative none = none
non_negative (some n) = if leb n max_int then some (pos n) else none

abbrev pub negative : Option ℕ → Option ℤ
negative none = none
negative (some zero) = some (pos 0)
negative (some (suc n)) = if leb n max_int then some (negsuc n) else none

-- `strconv.Atoi`
unfoldable pub atoi : String → Option ℤ
unfolding magnitude
atoi String.[] = none
atoi (String.◌∷◌ c s) =
    if code c == b'-'
    then negative (magnitude s)
    else if code c == b'+'
    then non_negative (magnitude s)
    else non_negative (magnitude (String.◌∷◌ c s))

-- The value of a variable, unless it is not set or does not parse.
unfoldable pub env_value : {A : Type 0} → (String → Option A) → String → A → Environment → A
unfolding getenv
env_value parse key fallback env =
    let v = getenv key env in
    if str_eq v "" then fallback else elim (parse v) [ none ↦ fallback | some parsed ↦ parsed ]

-- `envBool` and `envInt`
unfoldable pub env_bool : String → Bool → Environment → Bool
unfolding env_value parse_bool
env_bool = env_value parse_bool

unfoldable pub env_int : String → ℤ → Environment → ℤ
unfolding env_value atoi
env_int = env_value atoi

-- A text that replaces another if it is not empty.
pub env_text : String → String → Environment → String
unfolding getenv
env_text key fallback env = let v = getenv key env in if str_eq v "" then fallback else v

-- `tinkerforgeConfigFromEnv`
abbrev pub default_tinkerforge_uid : String
default_tinkerforge_uid = "YOUR_UID"

unfoldable pub tinkerforge_config_from_env : Environment → String × ℤ × String
unfolding env_text env_int
tinkerforge_config_from_env env = (
  env_text "TINKERFORGE_HOST" "localhost" env,
  env_int "TINKERFORGE_PORT" (pos 4223) env,
  env_text "TINKERFORGE_UID" default_tinkerforge_uid env,
)

module _ (parse_duration : String → Option ℤ) where
  unfoldable pub env_duration : String → ℤ → Environment → ℤ
  unfolding env_value
  env_duration = env_value parse_duration

  unfoldable pub controller_config_from_env : Environment → ControllerConfig
  unfolding env_bool env_int env_duration
  controller_config_from_env env =
      let cfg = default_controller_config in
      record {
        enabled = env_bool "POWER_AWARE" cfg.enabled env;
        idle_timeout = env_duration "NODE_IDLE_TIMEOUT" cfg.idle_timeout env;
        check_interval = env_duration "CONTROLLER_INTERVAL" cfg.check_interval env;
        min_active_nodes = env_int "MIN_ACTIVE_NODES" cfg.min_active_nodes env;
        load_threshold = env_int "LOAD_THRESHOLD" cfg.load_threshold env;
        dead_retry = env_duration "DEAD_RETRY" cfg.dead_retry env;
      }

  -- A duration that is positive.
  abbrev positive_duration : String → Option ℤ
  positive_duration v = elim (parse_duration v) [
    | none ↦ none
    | some d ↦ if leb_ℤ d (pos 0) then none else some d
  ]

  -- `deployTimeoutFromEnv` and `bootTimeoutFromEnv`
  unfoldable pub deploy_timeout_from_env : Environment → ℤ
  unfolding env_value
  deploy_timeout_from_env = env_value positive_duration "DEPLOY_TIMEOUT" (pos 300000000000)

  unfoldable pub boot_timeout_from_env : Environment → ℤ
  unfolding env_value
  boot_timeout_from_env = env_value positive_duration "NODE_BOOT_TIMEOUT" (pos 180000000000)

  -- `int(bootTimeoutFromEnv() / time.Second)`; a loop with a negative bound runs no round.
  unfoldable pub health_check_attempts : Environment → ℕ
  unfolding boot_timeout_from_env
  health_check_attempts env = whole_seconds (boot_timeout_from_env env)
    where
      whole_seconds : ℤ → ℕ
      whole_seconds (pos n) = n / 1000000000
      whole_seconds (negsuc n) = 0
