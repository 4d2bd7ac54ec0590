-- ===== src/Api/Methods.antt =====
-- tinyFaaS-ext/cmd/manager/main.go: which requests the management process refuses, and which can
-- change a function.
use yuliya_bachelorarbeit.Base.{
  ℕ, ◌==◌, Bool, false, ◌&&◌, String, str_eq, none, some, List, [], ◌∷◌, if◌then◌else◌, err,
  Result-cases, ◌≡◌, refl, inl, inr, arith,
}
use yuliya_bachelorarbeit.Base.Dict.{lookup}
use yuliya_bachelorarbeit.Manager.{ManagementService, ManagerError, Host, State, delete}
use yuliya_bachelorarbeit.Manager.Deletion.{delete-lookup}
use yuliya_bachelorarbeit.Manager.Service.{
  managed, Service, logs_of, logs, logs_function, healthy_backend,
}
use yuliya_bachelorarbeit.Api.{
  Endpoint, upload_to, delete_from, list_all, wipe_all, logs_named, upload_url, health, ApiReply,
  answered, aborted, respond, serve_api, upload_handler, delete_handler, list_handler, wipe_handler,
  logs_handler, url_upload_handler, health_handler, list,
}

-- The method that an endpoint takes, and the status for any other.
unfoldable pub method_of : Endpoint → String
method_of (upload_to _) = "POST"
method_of (delete_from _) = "POST"
method_of list_all = "GET"
method_of wipe_all = "POST"
method_of (logs_named _) = "GET"
method_of (upload_url _) = "POST"
method_of health = "GET"

unfoldable pub refusal : Endpoint → ℕ
refusal health = 405
refusal _ = 400

unfoldable pub is_success : ApiReply → Bool
is_success (answered status _) = status == 200
is_success aborted = false

module _ {W : Type 0} (h : Host W) (s : Service W) where
  -- A request with another method than its endpoint's is refused and changes nothing.
  pub serve_api-refused :
      (method : String) (e : Endpoint) (st : State h)
      → str_eq method (method_of e) ≡ false
      → serve_api h s method e st ≡ (answered (refusal e) "", st)
  unfolding serve_api method_of refusal upload_handler delete_handler list_handler wipe_handler
      logs_handler url_upload_handler health_handler
  serve_api-refused method (upload_to _) st other = rw other refl
  serve_api-refused method (delete_from _) st other = rw other refl
  serve_api-refused method list_all st other = rw other refl
  serve_api-refused method wipe_all st other = rw other refl
  serve_api-refused method (logs_named _) st other = rw other refl
  serve_api-refused method (upload_url _) st other = rw other refl
  serve_api-refused method health st other = rw other refl

  logs_function-kept : (name : String) (st : State h) → (logs_function h s name st).1.0 ≡ st.0
  unfolding logs_function
  logs_function-kept name (m, w) = ground arith

  logs_of-kept : (names : List String) (st : State h) → (logs_of h s names st).1.0 ≡ st.0
  unfolding logs_of
  logs_of-kept [] st = refl
  logs_of-kept (name ∷ names) st =
      let one = logs_function-kept name st in
      let rest = logs_of-kept names (logs_function h s name st).1 in ground (arith, one, rest)

  -- A request with the method GET changes no function.
  pub serve_api-get : (e : Endpoint) (st : State h) → (serve_api h s "GET" e st).1.0 ≡ st.0
  unfolding serve_api upload_handler delete_handler list_handler wipe_handler logs_handler
      url_upload_handler health_handler healthy_backend logs
  serve_api-get (upload_to _) st = refl
  serve_api-get (delete_from _) st = refl
  serve_api-get list_all st = refl
  serve_api-get wipe_all st = refl
  serve_api-get (logs_named name) st =
      let all = logs_of-kept (list st.0) st in
      let one = logs_function-kept name st in ground (arith, all, one)
  serve_api-get (upload_url _) st = refl
  serve_api-get health st = refl

  err-not_success :
      (e : ManagerError)
      → is_success (respond {A = Unit {0}} 500 (λ _. "") (err (managed e))) ≡ false
  unfolding is_success
  err-not_success e = ground arith

  -- Whatever the answer is, a deletion with status 200 drops its function and no other, and one with
  -- another status, or with none, drops nothing.
  pub delete_handler-lookup :
      (name at : String) (m : ManagementService) (w : W)
      → let (reply, (m', w')) = serve_api h s "POST" (delete_from (some name)) (m, w) in
        lookup at m'.function_handlers
        ≡ (if is_success reply && str_eq name at then none else lookup at m.function_handlers)
  unfolding serve_api delete_handler is_success
  delete_handler-lookup name at m w =
      let dropped = delete-lookup h name at m w in
      elim (Result-cases (delete h name (m, w)).0) [
        | inl (a, e) ↦ ground (arith, dropped, e)
        | inr (problem, e) ↦
            let failed = err-not_success problem in ground (arith, dropped, e, failed)
      ]
