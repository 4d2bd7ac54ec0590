-- ===== src/Manager/Rounds.antt =====
-- tinyFaaS-ext/pkg/manager/manager.go: the operations that delete several functions: `Wipe`, `Stop`,
-- and the rounds of the idle teardown.
use yuliya_bachelorarbeit.Base.{
  ℕ, ℤ, pos, ltb_ℤ, leb_ℤ, since, Bool, true, false, String, str_eq, Option, none, some, List, [],
  ◌∷◌, if◌then◌else◌, Result, ok, err,
}
use yuliya_bachelorarbeit.Base.Dict.{Dict, lookup}
use yuliya_bachelorarbeit.Base.Io.{◌>>◌}
use yuliya_bachelorarbeit.Manager.{
  ManagerError, nil_response, stop_failed, Host, Action, attempt, delete, list,
}

abbrev pub is_panic : Result ManagerError (Unit {0}) → Bool
is_panic (err nil_response) = true
is_panic _ = false

-- `time.Since(lastUsed) > idleTimeout`
abbrev pub expired : ℤ → ℕ → ℕ → Bool
expired idle_timeout now last_used = ltb_ℤ idle_timeout (since now last_used)

unfoldable pub to_delete : ℤ → ℕ → Dict ℕ → List String
to_delete idle_timeout now [] = []
to_delete idle_timeout now ((name, last_used) ∷ rest) =
    let others = to_delete idle_timeout now rest in
    if expired idle_timeout now last_used then name ∷ others else others

-- `functionIdleTimeout`, from the variable's value; `time.ParseDuration` is a parameter.
unfoldable pub function_idle_timeout : (String → Option ℤ) → String → ℤ
function_idle_timeout parse_duration v =
    if str_eq v "" then pos 30000000000 else elim (parse_duration v) [
      | none ↦ if str_eq v "0" then pos 0 else pos 30000000000
      | some d ↦ d
    ]

module _ {W : Type 0} (h : Host W) where
  -- A loop of deletions that ignores errors. A panic ends it.
  unfoldable pub each : (String → Action h (Unit {0})) → List String → Action h (Unit {0})
  each act [] s = (ok tt, s)
  each act (name ∷ ns) s =
      let (result, s') = act name s in
      let rest = each act ns s' in if is_panic result then (result, s') else rest

  -- `Wipe`. A deletion drops no other key, so that the keys at the start are those visited.
  unfoldable pub wipe : Action h (Unit {0})
  unfolding each delete list
  wipe s = each (delete h) (list s.0) s

  -- `Stop`
  unfoldable pub stop : Action h (Unit {0})
  unfolding wipe
  stop = wipe >> attempt h h.stop stop_failed

  -- One round of the second inner loop.
  unfoldable pub delete_known : String → Action h (Unit {0})
  unfolding lookup delete
  delete_known name s = elim (lookup name s.0.function_handlers) [
    | none ↦ (ok tt, s)
    | some fh ↦ delete h name s
  ]

  -- The body of the controller's loop behind its sleep.
  unfoldable pub reap : ℤ → Action h (Unit {0})
  unfolding to_delete each delete_known
  reap idle_timeout (m, w) =
      if leb_ℤ idle_timeout (pos 0)
      then (ok tt, (m, w))
      else (let (last_used, w') = h.get_last_used w in
          elim last_used [
            | none ↦ (ok tt, (m, w'))
            | some times ↦ each delete_known (to_delete idle_timeout (h.now w') times) (m, w')
          ])
