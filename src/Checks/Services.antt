-- ===== src/Checks/Services.antt =====
-- A management service with two functions on a backend that works.
use yuliya_bachelorarbeit.Base.{
  ℕ, pos, ◌<ℤ◌, since, true, String, none, some, [], ◌∷◌, ok, err, ◌≡◌, ◌⊎◌, refl, In, arith,
  eq_iff, ◌+◌,
}
use yuliya_bachelorarbeit.Base.Dict.{Dict, lookup, insert, remove}
use yuliya_bachelorarbeit.Proxy.{Proxy, add, del}
use yuliya_bachelorarbeit.Manager.{
  ManagementService, Host, Spec, posted, create_function, delete, bad_name,
}
use yuliya_bachelorarbeit.Manager.Rounds.{wipe, reap}
use yuliya_bachelorarbeit.Manager.Deletion.{reap-kept, wipe-empty}
use yuliya_bachelorarbeit.Manager.Creation.{create_function-lookup}
use yuliya_bachelorarbeit.Manager.Stale.{reap-add-del}
use Prim.Native.String

-- The world is the number of the next handler; the proxy has seen one function, long ago.
abbrev pub host : Host ℕ
host = record {
  create = λ name spec folder w. (some w, w + 1);
  ips = λ fh w. "172.17.0.2" ∷ [];
  start = λ fh w. (true, w);
  destroy = λ fh w. (true, w);
  post = λ notice w. (posted 200 true, w);
  get_last_used = λ w. (some (("echo", 0) ∷ []), w);
  new_uuid = λ w. (some "d1", w);
  mkdir_all = λ p w. (true, w);
  write_file = λ p bytes w. (true, w);
  unzip = λ zip p w. (true, w);
  remove_all = λ p w. w;
  remove_file = λ p w. w;
  join = λ p q. String.◌++◌ p (String.◌++◌ "/" q);
  stop = λ w. (true, w);
  now = λ w. 60000000000;
}

abbrev pub service : ManagementService
service = record { function_handlers = ("echo", 1) ∷ ("sieve", 2) ∷ [] }

abbrev python : Spec
python = record { env = "python3"; threads = pos 1; envs = [] }

creates :
    create_function host "echo" python (80 ∷ []) "" (service, 3)
    ≡ (ok "echo", (record { function_handlers = ("echo", 3) ∷ ("sieve", 2) ∷ [] }, 4))
unfolding create_function insert lookup
creates = refl

refuses :
    (create_function host "no spaces" python [] "" (service, 3)).0 ≡ err (bad_name "no spaces")
unfolding create_function
refuses = refl

reaps :
    (reap host (pos 30000000000) (service, 3)).1.0
    ≡ record { function_handlers = ("sieve", 2) ∷ [] }
unfolding reap delete lookup remove
reaps = refl

create_function-lookup_example :
    lookup "sieve"
      (create_function host "echo" python (80 ∷ []) "" (service, 3)).1.0.function_handlers
    ≡ lookup "sieve" service.function_handlers
create_function-lookup_example =
    create_function-lookup host "echo" python (80 ∷ []) "" "sieve" service 3
      (λ e. ground (arith, (eq_iff "echo" "sieve").1 e))

wipe-empty_example :
    ((wipe host (service, 3)).0 ≡ ok tt)
    × ((at : String) → lookup at (wipe host (service, 3)).1.0.function_handlers ≡ none)
wipe-empty_example = wipe-empty host (λ fh w. refl) (λ notice w. refl) service 3

reap-kept_example :
    (lookup "echo" (reap host (pos 30000000000) (service, 3)).1.0.function_handlers
      ≡ lookup "echo" service.function_handlers)
    ⊎ ((pos 0 <ℤ pos 30000000000)
        × ((times : Dict ℕ) × ((host.get_last_used 3).0 ≡ some times)
            × ((t : ℕ) × In {A = String × ℕ} ("echo", t) times
                × (pos 30000000000 <ℤ since (host.now (host.get_last_used 3).1) t))))
reap-kept_example = reap-kept host (pos 30000000000) "echo" service 3

abbrev seen : Proxy
seen = record { hosts = ("echo", "172.17.0.2" ∷ []) ∷ []; function_last_used = ("echo", 5) ∷ [] }

-- The node's backend, and a proxy that has the function of `seen` again.
abbrev told_host : Host ℕ
told_host = record host { get_last_used = λ w. (some (("echo", 5) ∷ []), w); now = λ w. 100 }

reap-add-del_example :
    (lookup "echo" (add "echo" ("172.17.0.3" ∷ []) (del "echo" seen).1).1.hosts
      ≡ some ("172.17.0.3" ∷ []))
    × (lookup "echo" (reap told_host (pos 10) (service, 3)).1.0.function_handlers ≡ none)
unfolding lookup add del
reap-add-del_example =
    reap-add-del told_host (λ fh w. refl) (λ notice w. refl) "echo" "172.17.0.3" [] seen (pos 10) 5
      (("echo", 5) ∷ []) service 3 (omega arith) refl (omega arith) refl refl
