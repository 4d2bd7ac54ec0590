-- ===== src/Api.antt =====
-- tinyFaaS-ext/cmd/manager/main.go: the endpoints of the management process. JSON is decoded
-- outside: a body that does not decode is `none`.
pub mod Deployment
pub mod Methods
pub mod Ports
use Prim.Native.String
use Prim.Native.Char.{Char, code}
use yuliya_bachelorarbeit.Base.{
  ℕ, zero, suc, ◌==◌, ◌<◌, ◌≤◌, ◌+◌, leb, ltb, ℤ, pos, negsuc, eqb_ℤ, pred_ℤ, leb_ℤ, ltb_ℤ, Bool,
  true, false, not, ◌&&◌, ◌||◌, String, str_eq, Option, none, some, List, [], ◌∷◌, ◌++◌, map,
  get_elem?, if◌then◌else◌, Result, ok, err, ok-injective, Result-cases, ◌≡◌, refl, sym, subst, ◌⊎◌,
  inl, inr, arith, Bool-cases, Option-cases, eq_iff, ap, ◌∙◌,
}
use yuliya_bachelorarbeit.Base.Dict.{Dict, lookup, insert}
use yuliya_bachelorarbeit.Base.Io.{
  Io, pure, fail, attempt, obtain, ignore, step, ◌>>=◌, ◌>>◌, attempt->>-ok, obtain->>=-ok, >>=-ok,
}
use yuliya_bachelorarbeit.Base.Decimal.{cut}
use yuliya_bachelorarbeit.Manager.{
  ManagementService, ManagerError, nil_response, Host, Spec, State, list, delete,
}
use yuliya_bachelorarbeit.Manager.Rounds.{wipe}
use yuliya_bachelorarbeit.Manager.Service.{
  Service, ServiceError, managed, upload, url_upload, logs, logs_function, healthy_backend,
  managing,
}

pub record UploadBody : Type 0 where
  pub name : String
  pub env : String
  pub threads : ℤ
  pub zip : String
  pub envs : List String

pub record UrlBody : Type 0 where
  pub name : String
  pub env : String
  pub threads : ℤ
  pub url : String
  pub envs : List String
  pub subfolder_path : String

-- The paths of the mux with what the handlers read of a request.
pub data Endpoint : Type 0 where
  upload_to : Option UploadBody → Endpoint
  delete_from : Option String → Endpoint
  list_all wipe_all : Endpoint
  logs_named : String → Endpoint
  upload_url : Option UrlBody → Endpoint
  health : Endpoint

-- `net/http` answers nothing to a request whose handler panics.
pub data ApiReply : Type 0 where
  answered : ℕ → String → ApiReply
  aborted : ApiReply

-- `key=value`; the loop leaves out an entry without `=`.
unfoldable pub read_entries : List String → Dict String → Dict String
unfolding cut insert
read_entries [] envs = envs
read_entries (entry ∷ entries) envs = elim (cut b'=' entry) [
  | none ↦ read_entries entries envs
  | some (key, value) ↦ read_entries entries (insert key value envs)
]

-- What a handler answers to a result of the service, with the status for an error.
abbrev pub respond : {A : Type 0} → ℕ → (A → String) → Result ServiceError A → ApiReply
respond failed text (ok a) = answered 200 (text a)
respond failed text (err (managed nil_response)) = aborted
respond failed text (err _) = answered failed ""

-- Each name on a line of its own.
pub lines : List String → String
lines [] = ""
lines (name ∷ names) = String.◌++◌ name (String.◌++◌ "\n" (lines names))

module _ {W : Type 0} (h : Host W) (s : Service W) where
  abbrev pub Handling : Type 0
  Handling = State h → ApiReply × State h

  abbrev pub responding : {A : Type 0} → ℕ → (A → String) → Io (State h) ServiceError A → Handling
  responding failed text act st = let (result, st') = act st in (respond failed text result, st')

  -- `uploadHandler`
  unfoldable pub upload_handler : String → Option UploadBody → Handling
  unfolding read_entries upload
  upload_handler method body st =
      if not (str_eq method "POST") then (answered 400 "", st) else elim body [
        | none ↦ (answered 400 "", st)
        | some d ↦
            let spec : Spec = record {
              env = d.env;
              threads = d.threads;
              envs = read_entries d.envs [];
            } in
            responding 500 (λ res. res) (upload h s d.name spec d.zip) st
      ]

  -- `deleteHandler`
  unfoldable pub delete_handler : String → Option String → Handling
  unfolding delete
  delete_handler method body st =
      if not (str_eq method "POST") then (answered 400 "", st) else elim body [
        | none ↦ (answered 400 "", st)
        | some name ↦ responding 500 (λ _. "") (managing h s (delete h name)) st
      ]

  -- `listHandler`
  unfoldable pub list_handler : String → Handling
  unfolding list lines
  list_handler method st =
      if not (str_eq method "GET")
      then (answered 400 "", st)
      else (answered 200 (lines (list st.0)), st)

  -- `wipeHandler`
  unfoldable pub wipe_handler : String → Handling
  unfolding wipe
  wipe_handler method st =
      if not (str_eq method "POST")
      then (answered 400 "", st)
      else responding 500 (λ _. "") (managing h s (wipe h)) st

  -- `logsHandler`
  unfoldable pub logs_handler : String → String → Handling
  unfolding logs logs_function
  logs_handler method name st =
      if not (str_eq method "GET")
      then (answered 400 "", st)
      else if str_eq name ""
      then responding 500 (λ l. l) (logs h s) st
      else responding 500 (λ l. l) (logs_function h s name) st

  -- `urlUploadHandler`
  unfoldable pub url_upload_handler : String → Option UrlBody → Handling
  unfolding read_entries url_upload
  url_upload_handler method body st =
      if not (str_eq method "POST") then (answered 400 "", st) else elim body [
        | none ↦ (answered 400 "", st)
        | some d ↦
            let spec : Spec = record {
              env = d.env;
              threads = d.threads;
              envs = read_entries d.envs [];
            } in
            responding 500 (λ res. res) (url_upload h s d.name spec d.url d.subfolder_path) st
      ]

  -- `healthHandler`
  unfoldable pub health_handler : String → Handling
  unfolding healthy_backend
  health_handler method st =
      if not (str_eq method "GET")
      then (answered 405 "", st)
      else responding 503 (λ _. "") (healthy_backend h s) st

  -- The mux of `main`.
  unfoldable pub serve_api : String → Endpoint → Handling
  unfolding upload_handler delete_handler list_handler wipe_handler logs_handler url_upload_handler
      health_handler
  serve_api method (upload_to body) = upload_handler method body
  serve_api method (delete_from body) = delete_handler method body
  serve_api method list_all = list_handler method
  serve_api method wipe_all = wipe_handler method
  serve_api method (logs_named name) = logs_handler method name
  serve_api method (upload_url body) = url_upload_handler method body
  serve_api method health = health_handler method
