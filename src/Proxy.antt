-- ===== src/Proxy.antt =====
-- tinyFaaS-ext/pkg/rproxy/rproxy.go: which containers serve a function, and the call of one. A
-- method is one critical section, but for `Call`, which runs here with nothing else in between.

pub mod Hosts
use yuliya_bachelorarbeit.Base.{
  ℕ, ◌==◌, Bool, true, false, ◌||◌, String, str_eq, Option, none, some, List, [], ◌∷◌, map, length,
  get_elem?, if◌then◌else◌, Result, ok, err, not,
}
use yuliya_bachelorarbeit.Base.Dict.{Dict, lookup, insert, remove}
use yuliya_bachelorarbeit.Outside.{Outside}
use Prim.Native.String
use Prim.Native.Char.{Char, code}

pub data Status : Type 0 where
  status_ok status_accepted status_not_found status_error : Status

pub data ProxyError : Type 0 where
  no_ips function_not_found : ProxyError

pub record Proxy : Type 0 where
  pub hosts : Dict (List String)
  pub function_last_used : Dict ℕ

abbrev pub new_proxy : Proxy
new_proxy = record { hosts = []; function_last_used = [] }

-- What a client sends. `headers` are the calls of `Header.Set`, in their order.
pub record Request : Type 0 where
  pub url : String
  pub headers : Dict String
  pub payload : List ℕ

-- What `http.DefaultClient.Do` and the reading of the body come to: no response, a response whose
-- body cannot be read, or a status code and a body.
pub data Reply : Type 0 where
  unreachable cut_off : Reply
  answered : ℕ → List ℕ → Reply

-- The calls of pkg/rproxy and pkg/http over the world `W`. `valid_url` tells whether
-- `http.NewRequest` accepts an address; `send_later` is a goroutine that sends a request and ignores
-- its outcome.
pub record Client (W : Type 0) : Type 0 where
  pub intn : ℕ → W → ℕ × W
  pub valid_url : String → Bool
  pub send : Request → W → Reply × W
  pub send_later : Request → W → W

unfoldable pub add : String → List String → Proxy → Result ProxyError (Unit {0}) × Proxy
unfolding insert
add name [] p = (err no_ips, p)
add name (ip ∷ ips) p = (ok tt, record p { hosts = insert name (ip ∷ ips) p.hosts })

unfoldable pub del : String → Proxy → Result ProxyError (Unit {0}) × Proxy
unfolding lookup remove
del name p = elim (lookup name p.hosts) [
  | none ↦ (err function_not_found, p)
  | some ips ↦ (ok tt, record p { hosts = remove name p.hosts })
]

-- The characters of the pattern in `cleanHeaderKey`.
abbrev pub is_special : Char → Bool
is_special c =
    let n = code c in
    n == b':'
    || n == b'('
    || n == b')'
    || n == b'<'
    || n == b'>'
    || n == b'@'
    || n == b','
    || n == b';'
    || n == 34
    || n == b'/'
    || n == b'['
    || n == b']'
    || n == b'?'
    || n == b'='
    || n == b'{'
    || n == b'}'
    || n == 32
    || n == 9

unfoldable pub clean_header_key : String → String
clean_header_key String.[] = ""
clean_header_key (String.◌∷◌ c s) =
    let rest = clean_header_key s in if is_special c then rest else String.◌∷◌ c rest

-- `http://%s:8000/fn`
abbrev pub function_url : String → String
function_url host = String.◌++◌ "http://" (String.◌++◌ host ":8000/fn")

abbrev pub cleaned : Dict String → Dict String
cleaned = map λ h. (clean_header_key h.0, h.1)

abbrev pub request_to : String → List ℕ → Dict String → Request
request_to host payload headers = record {
  url = function_url host;
  headers = cleaned headers;
  payload = payload;
}

-- `r.functionLastUsed[name] = now`
abbrev pub mark_used : String → ℕ → Proxy → Proxy
mark_used name now p = record p { function_last_used = insert name now p.function_last_used }

-- `GetFunctionLastUsed`: a copy, in which every entry of the table is set once.
pub copy_into : Dict ℕ → Dict ℕ → Dict ℕ
unfolding insert
copy_into copy [] = copy
copy_into copy (entry ∷ rest) = copy_into (insert entry.0 entry.1 copy) rest

unfoldable pub get_function_last_used : Proxy → Dict ℕ
unfolding copy_into
get_function_last_used p = copy_into [] p.function_last_used

-- What a call that has waited for its function returns, and what it notes.
pub settle : String → ℕ → Reply → Proxy → Option (Status × List ℕ) × Proxy
settle name now Reply.unreachable p = (some (status_error, []), p)
settle name now Reply.cut_off p = (some (status_error, []), p)
settle name now (Reply.answered status body) p = (some (status_ok, body), mark_used name now p)

module _ {W : Type 0} (o : Outside W) (c : Client W) where
  -- A call that waits for the function.
  unfoldable pub call_sync : String → Request → Proxy × W → Option (Status × List ℕ) × (Proxy × W)
  unfolding settle
  call_sync name q (p, w) =
      let (reply, w') = c.send q w in
      let (result, p') = settle name (o.now w') reply p in (result, (p', w'))

  -- `Call` once a container is chosen.
  unfoldable pub call_host :
      String → Bool → Request → Proxy × W → Option (Status × List ℕ) × (Proxy × W)
  unfolding call_sync
  call_host name async q (p, w) =
      if not (c.valid_url q.url)
      then (some (status_error, []), (p, w))
      else if async
      then (some (status_accepted, []), (p, c.send_later q w))
      else call_sync name q (p, w)

  -- `Call`; `none` is the panic of a choice among no containers.
  unfoldable pub call :
      String → List ℕ → Bool → Dict String → Proxy × W → Option (Status × List ℕ) × (Proxy × W)
  unfolding lookup call_host
  call name payload async headers (p, w) = elim (lookup name p.hosts) [
    | none ↦ (some (status_not_found, []), (p, w))
    | some handler ↦
        let (i, w') = c.intn (length handler) w in
        elim (get_elem? handler i) [
          | none ↦ (none, (p, w'))
          | some host ↦ call_host name async (request_to host payload headers) (p, w')
        ]
  ]
