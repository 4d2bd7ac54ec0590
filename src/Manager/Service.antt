-- ===== src/Manager/Service.antt =====
-- tinyFaaS-ext/pkg/manager/manager.go: what the management service offers on top of `createFunction`
-- and the handlers: `Upload`, `UrlUpload`, `Logs`, `LogsFunction` and `Healthy`. Base64, the download
-- and the backend's logs and ping are parameters.
use Prim.Native.String
use yuliya_bachelorarbeit.Base.{
  ℕ, ℤ, Bool, String, Option, none, some, List, [], ◌∷◌, if◌then◌else◌, ok, err,
}
use yuliya_bachelorarbeit.Base.Dict.{Dict, lookup}
use yuliya_bachelorarbeit.Base.Io.{Io, pure, fail, ◌>>=◌}
use yuliya_bachelorarbeit.Base.Decimal.{show_int}
use yuliya_bachelorarbeit.Manager.{
  ManagerError, not_found, Handler, Host, Spec, State, Action, list, create_function,
}

pub data ServiceError : Type 0 where
  managed : ManagerError → ServiceError
  not_decoded not_downloaded logs_failed not_healthy : ServiceError

-- `download` is `http.Get` with the reading of the body. `rproxy_port` is the field of that name.
pub record Service (W : Type 0) : Type 0 where
  pub decode_base64 : String → Option (List ℕ)
  pub download : String → W → Option (List ℕ) × W
  pub handler_logs : Handler → W → Option String × W
  pub ping : W → Bool × W
  pub rproxy_port : Dict ℤ

-- `%s://%s:%d/%s\n` for each protocol, with the empty `RProxyListenAddress`.
unfoldable pub links : String → Dict ℤ → String
unfolding show_int
links name [] = ""
links name ((protocol, port) ∷ rest) = String.◌++◌ protocol (
    String.◌++◌ "://:" (
      String.◌++◌ (show_int port)
        (String.◌++◌ "/" (String.◌++◌ name (String.◌++◌ "\n" (links name rest))))))

module _ {W : Type 0} (h : Host W) (s : Service W) where
  abbrev pub ServiceAction : Type 0 → Type 0
  ServiceAction = Io (State h) ServiceError

  -- An operation of the service, with its error.
  abbrev pub managing : {A : Type 0} → Action h A → ServiceAction A
  managing act st =
      let (result, st') = act st in (elim result [ ok a ↦ ok a | err e ↦ err (managed e) ], st')

  abbrev pub create_and_link : String → Spec → List ℕ → String → ServiceAction String
  create_and_link name spec zip subfolder =
      managing (create_function h name spec zip subfolder) >>= λ n. pure (links n s.rproxy_port)

  -- `Upload`
  unfoldable pub upload : String → Spec → String → ServiceAction String
  unfolding create_function links
  upload name spec zipped = elim (s.decode_base64 zipped) [
    | none ↦ fail not_decoded
    | some zip ↦ create_and_link name spec zip ""
  ]

  -- `UrlUpload`
  unfoldable pub url_upload : String → Spec → String → String → ServiceAction String
  unfolding create_function links
  url_upload name spec funcurl subfolder (m, w) =
      let (body, w') = s.download funcurl w in
      elim body [
        | none ↦ (err not_downloaded, (m, w'))
        | some zip ↦ create_and_link name spec zip subfolder (m, w')
      ]

  -- `LogsFunction`
  unfoldable pub logs_function : String → ServiceAction String
  unfolding lookup
  logs_function name (m, w) = elim (lookup name m.function_handlers) [
    | none ↦ (err (managed (not_found name)), (m, w))
    | some fh ↦
        let (text, w') = s.handler_logs fh w in
        (elim text [ none ↦ err logs_failed | some t ↦ ok t ], (m, w'))
  ]

  unfoldable pub logs_of : List String → ServiceAction String
  unfolding logs_function
  logs_of [] = pure ""
  logs_of (name ∷ names) = logs_function name >>= λ l.
      logs_of names >>= λ rest. pure (String.◌++◌ l (String.◌++◌ "\n" rest))

  -- `Logs`
  unfoldable pub logs : ServiceAction String
  unfolding logs_of list
  logs (m, w) = logs_of (list m) (m, w)

  -- `Healthy`
  unfoldable pub healthy_backend : ServiceAction (Unit {0})
  healthy_backend (m, w) =
      let (up, w') = s.ping w in ((if up then ok tt else err not_healthy), (m, w'))
