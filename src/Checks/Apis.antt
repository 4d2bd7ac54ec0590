-- ===== src/Checks/Apis.antt =====
-- Runs of the management process: its ports, and requests to a node without functions.
use yuliya_bachelorarbeit.Base.{
  ℕ, zero, suc, ◌==◌, ◌+◌, leb, ℤ, pos, true, ◌&&◌, String, str_eq, none, some, List, [], ◌∷◌,
  length, if◌then◌else◌, ok, err, ◌≡◌, refl, arith, ap, ◌∙◌,
}
use yuliya_bachelorarbeit.Base.Dict.{Dict, lookup}
use Prim.Native.Char.{char, code}
use yuliya_bachelorarbeit.Base.Entries.{Plain}
use yuliya_bachelorarbeit.Base.Decimal.{holds}
use yuliya_bachelorarbeit.Checks.Services.{host, service}
use yuliya_bachelorarbeit.Functions.{FunctionDef}
use yuliya_bachelorarbeit.Config.Env.{Environment}
use yuliya_bachelorarbeit.Admin.Arguments.{parse_args, too_few}
use yuliya_bachelorarbeit.Api.{upload_handler, responding, serve_api, delete_from}
use yuliya_bachelorarbeit.Api.Deployment.{deploy_request, upload_handler-deploy_request}
use yuliya_bachelorarbeit.Api.Methods.{delete_handler-lookup, is_success}
use yuliya_bachelorarbeit.Api.Ports.{configure_ports, default_ports, rproxy_args, listeners}
use yuliya_bachelorarbeit.Api.Ports.Handover.{parse_args-rproxy_args}
use yuliya_bachelorarbeit.Manager.Service.{Service, create_and_link}

-- gRPC is off, and HTTP listens elsewhere.
abbrev settings : Environment
settings = ("grpc_PORT", "-1") ∷ ("http_PORT", "8088") ∷ []

abbrev configured : Dict ℤ
configured = ("coap", pos 5683) ∷ ("http", pos 8088) ∷ []

configured-ok : configure_ports settings default_ports ≡ ok configured
unfolding configure_ports default_ports
configured-ok = refl

parse_args-rproxy_args_example :
    parse_args (rproxy_args configured)
    ≡ (if leb 2 (length configured) then ok (":8081", listeners configured) else err too_few)
parse_args-rproxy_args_example = parse_args-rproxy_args settings configured configured-ok

-- In place of base64, a byte is so many strokes before a point.
strokes : ℕ → String → String
strokes zero s = String.◌∷◌ (char b'.' tt) s
strokes (suc n) s = String.◌∷◌ (char b'|' tt) (strokes n s)

encode : List ℕ → String
unfolding strokes
encode [] = ""
encode (n ∷ zip) = strokes n (encode zip)

decode_from : ℕ → String → List ℕ
decode_from n String.[] = []
decode_from n (String.◌∷◌ c s) =
    let next = decode_from 0 s in
    let more = decode_from (suc n) s in if code c == b'.' then n ∷ next else more

decode_from-strokes :
    (n k : ℕ) (s : String) → decode_from n (strokes k s) ≡ (n + k) ∷ decode_from 0 s
unfolding decode_from strokes
decode_from-strokes n zero s = ap (λ m. m ∷ decode_from 0 s) (omega arith)
decode_from-strokes n (suc k) s =
    decode_from-strokes (suc n) k s ∙ ap (λ m. m ∷ decode_from 0 s) (omega arith)

decode_from-encode : (zip : List ℕ) → decode_from 0 (encode zip) ≡ zip
unfolding decode_from encode
decode_from-encode [] = refl
decode_from-encode (n ∷ zip) =
    decode_from-strokes 0 n (encode zip)
    ∙ (ap (λ m. m ∷ decode_from 0 (encode zip)) (omega arith)
        ∙ ap (λ z. n ∷ z) (decode_from-encode zip))

abbrev around : Service ℕ
around = record {
  decode_base64 = λ text. some (decode_from 0 text);
  download = λ url w. (some [], w);
  handler_logs = λ fh w. (some "log", w);
  ping = λ w. (true, w);
  rproxy_port = configured;
}

abbrev resize : FunctionDef
resize = record {
  env = "python3";
  threads = pos 2;
  envs = ("MODE", "a=b") ∷ ("SIZE", "64") ∷ [];
  zip = 80 ∷ 75 ∷ [];
}

upload_handler-deploy_request_example :
    upload_handler host around "POST" (some (deploy_request encode "resize" resize)) (service, 3)
    ≡ responding host around 500
        (λ res. res)
        (create_and_link host around "resize"
          (record {
            env = "python3";
            threads = pos 2;
            envs = ("MODE", "a=b") ∷ ("SIZE", "64") ∷ [];
          })
          (80 ∷ 75 ∷ [])
          "")
        (service, 3)
unfolding Plain lookup holds
upload_handler-deploy_request_example =
    upload_handler-deploy_request host around encode (λ zip. ap some (decode_from-encode zip))
      "resize" resize (refl, refl, (refl, refl, tt)) (service, 3)

delete_handler-lookup_example :
    lookup "echo"
      (serve_api host around "POST" (delete_from (some "sieve")) (service, 3)).1.0.function_handlers
    ≡ (if is_success (serve_api host around "POST" (delete_from (some "sieve")) (service, 3)).0
          && str_eq "sieve" "echo"
        then none
        else lookup "echo" service.function_handlers)
delete_handler-lookup_example = delete_handler-lookup host around "sieve" "echo" service 3
