-- ===== src/Outside.antt =====
-- What pkg/cluster calls outside itself: the `PowerController` interface of
-- tinyFaaS-ext/pkg/cluster/registry.go, the HTTP clients, and the clock.
use yuliya_bachelorarbeit.Base.{ℕ, ℤ, String, Option}
use yuliya_bachelorarbeit.Base.Io.{Io}
use yuliya_bachelorarbeit.Functions.{FunctionDef}
use yuliya_bachelorarbeit.Relay.{RelayError}

-- Calls over the world `W`. An HTTP call returns the status code, or `none` where the client
-- reports an error.
pub record Outside (W : Type 0) : Type 0 where
  pub power_on : String → ℤ → Io W RelayError (Unit {0})
  pub power_off : String → ℤ → Io W RelayError (Unit {0})
  pub get_health : String → W → Option ℕ × W
  pub post_upload : String → String → FunctionDef → W → Option ℕ × W
  pub post_delete : String → String → W → Option ℕ × W
  pub now : W → ℕ
  pub sleep : ℤ → W → W
