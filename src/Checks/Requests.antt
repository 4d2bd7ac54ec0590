-- ===== src/Checks/Requests.antt =====
-- Requests, definitions and settings of a small cluster.
use yuliya_bachelorarbeit.Base.{
  ℕ, ◌<◌, ℤ, pos, true, false, String, str_eq, eq_iff, Option, none, some, [], ◌∷◌, ok, ◌≡◌, ◌≢◌,
  refl, In, arith, if◌then◌else◌,
}
use yuliya_bachelorarbeit.Base.Dict.{lookup, Dict}
use yuliya_bachelorarbeit.Node.{Node, is_waking}
use yuliya_bachelorarbeit.Config.{default_controller_config}
use yuliya_bachelorarbeit.Config.Topology.{load_nodes}
use yuliya_bachelorarbeit.Config.Env.{Environment, atoi, getenv, health_check_attempts}
use yuliya_bachelorarbeit.Config.Env.Limits.{short_boot-never_wakes}
use yuliya_bachelorarbeit.Registry.{Registry}
use yuliya_bachelorarbeit.Registry.Wake.{wake_node}
use yuliya_bachelorarbeit.Proxy.{Request, Proxy, Client, answered, call, clean_header_key}
use yuliya_bachelorarbeit.Proxy.Hosts.{Routed, Stamped, Meant, Sends, call-Meant, call-Stamped}
use yuliya_bachelorarbeit.Front.{Incoming, answer, serve}
use yuliya_bachelorarbeit.Front.Loads.{LoadKept, serve-LoadKept}
use yuliya_bachelorarbeit.Front.Active.{UpAfter, serve-UpAfter}
use yuliya_bachelorarbeit.Admin.{Definition, handle, start_registry, default_nodes, replied}
use yuliya_bachelorarbeit.Admin.InStep.{InStep, InStepAfter, handle-InStep}
use yuliya_bachelorarbeit.Admin.Startup.{Registered, load_nodes-start_registry}
use yuliya_bachelorarbeit.Checks.Samples.{dispatcher, edge_1, network, cluster, Uploads}

abbrev proxy : Proxy
proxy = record { hosts = ("echo", "172.17.0.2" ∷ []) ∷ []; function_last_used = [] }

-- Containers and nodes that answer, and a choice that is always the first.
abbrev pub client : Client Uploads
client = record {
  intn = λ n w. (0, w);
  valid_url = λ url. true;
  send = λ q w. (answered 200 q.payload, w);
  send_later = λ q w. w;
}

client-range : (k : ℕ) (w : Uploads) → 0 < k → (client.intn k w).0 < k
client-range k w high = high

cleans : clean_header_key "X-tiny(FaaS): id" ≡ "X-tinyFaaSid"
unfolding clean_header_key
cleans = refl

proxy-Routed : Routed proxy
unfolding lookup
proxy-Routed name ips found e = ground (arith, found, e)

abbrev noted : Dict String
noted = ("X-tiny(FaaS): id", "7") ∷ []

call-Meant_example :
    (host : String) × In host ("172.17.0.2" ∷ [])
    × ((q : Request) × Meant network client host (104 ∷ []) noted q
        × Sends network client false q []
            (call network client "echo" (104 ∷ []) false noted (proxy, [])).1.1)
unfolding lookup
call-Meant_example =
    call-Meant network client "echo" (104 ∷ []) false noted proxy [] ("172.17.0.2" ∷ [])
      client-range proxy-Routed refl

call-Stamped_example :
    Stamped network client "echo" proxy (call network client "echo" (104 ∷ []) false [] (proxy, []))
call-Stamped_example = call-Stamped network client "echo" (104 ∷ []) false [] proxy []

abbrev hello : Incoming
hello = record { path = "/echo"; headers = []; body = some (104 ∷ []) }

abbrev asleep : Registry
asleep = record cluster { nodes = ("local", dispatcher) ∷ ("edge-1", edge_1) ∷ [] }

-- A sleeping worker is woken and serves.
forwarded :
    (serve network client default_controller_config 3 hello (proxy, (asleep, []))).0
    ≡ answer 200 (some "edge-1") (104 ∷ [])
unfolding serve lookup
forwarded = refl

serve-LoadKept_example :
    LoadKept network client default_controller_config "edge-1" edge_1
      (serve network client default_controller_config 3 hello (proxy, (asleep, [])))
unfolding lookup
serve-LoadKept_example =
    serve-LoadKept network client default_controller_config 3 hello proxy asleep [] "edge-1" edge_1
      refl (omega arith) (omega arith)

none_waking : (j : String) (m : Node) → lookup j asleep.nodes ≡ some m → is_waking m.status ≡ false
unfolding lookup
none_waking j m found = ground (arith, found)

serve-UpAfter_example :
    UpAfter network client default_controller_config "edge-1"
      (serve network client default_controller_config 3 hello (proxy, (asleep, [])))
unfolding serve lookup
serve-UpAfter_example =
    serve-UpAfter network client default_controller_config 3 hello proxy asleep [] "edge-1"
      none_waking refl

abbrev renamed : Definition
renamed = record {
  resource = "/hello";
  containers = "172.17.0.3" ∷ [];
  env = "python3";
  threads = pos 1;
  envs = [];
  zip = [];
}

added : (handle network "POST" (some renamed) (proxy, (cluster, []))).0 ≡ replied 200 "OK"
unfolding handle lookup
added = refl

cluster-InStep : InStep proxy cluster
unfolding lookup
cluster-InStep = record { routed = proxy-Routed; same = λ at. ground arith }

handle-InStep_example :
    InStepAfter network (handle network "POST" (some renamed) (proxy, (cluster, []))).1
handle-InStep_example = handle-InStep network "POST" (some renamed) proxy cluster [] cluster-InStep

load_nodes-start_registry_example : Registered default_nodes (start_registry default_nodes)
unfolding load_nodes
load_nodes-start_registry_example = load_nodes-start_registry default_nodes default_nodes refl

abbrev eager : Environment
eager = ("MIN_ACTIVE_NODES", "-2") ∷ ("LOAD_THRESHOLD", "9223372036854775808") ∷ []

reads : atoi "+4223" ≡ some (pos 4223)
unfolding atoi
reads = refl

too_long : atoi "9223372036854775808" ≡ none
unfolding atoi
too_long = refl

-- A parser that reads one text.
abbrev half_a_second : String → Option ℤ
half_a_second v = if str_eq v "500ms" then some (pos 500000000) else none

abbrev hasty : Environment
hasty = ("NODE_BOOT_TIMEOUT", "500ms") ∷ []

short_boot-never_wakes_example :
    (wake_node network
      (health_check_attempts half_a_second hasty)
      "edge-1"
      "A"
      (pos 0)
      "10.0.0.2:8080"
      (cluster, [])).0
    ≢ ok tt
unfolding getenv lookup
short_boot-never_wakes_example =
    short_boot-never_wakes half_a_second network hasty 500000000 "edge-1" "A" (pos 0)
      "10.0.0.2:8080" (cluster, []) (λ e. ground (arith, (eq_iff "500ms" "").1 e)) refl
      (omega arith) (omega arith)
