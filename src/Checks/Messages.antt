-- ===== src/Checks/Messages.antt =====
-- A CoAP message and a gRPC request to a proxy with one function.
use yuliya_bachelorarbeit.Base.{some, err, [], ◌∷◌, ◌≡◌, refl}
use yuliya_bachelorarbeit.Base.Dict.{lookup}
use yuliya_bachelorarbeit.Front.{strip_slashes}
use yuliya_bachelorarbeit.Proxy.{Proxy, call}
use yuliya_bachelorarbeit.Fronts.{
  coap_answer, CoapMessage, serve_coap, request, content, grpc_answer, headers_of, first_values,
  function_unknown,
}
use yuliya_bachelorarbeit.Checks.Samples.{Uploads, network}
use yuliya_bachelorarbeit.Checks.Requests.{client}

abbrev proxy : Proxy
proxy = record { hosts = ("echo", "172.17.0.2" ∷ []) ∷ []; function_last_used = [] }

abbrev message : CoapMessage
message = record { path = "/echo"; payload = 1 ∷ 2 ∷ []; message_id = 7; token = [] }

abbrev no_uploads : Uploads
no_uploads = []

answers :
    (serve_coap network client message (proxy, no_uploads)).0
    ≡ some (record { code = content; message_id = 7; token = []; payload = 1 ∷ 2 ∷ [] })
unfolding serve_coap strip_slashes call lookup coap_answer
answers = refl

unknown :
    (request network client
      (some (("user-agent", "grpc-go" ∷ []) ∷ []))
      (record { function_identifier = "sieve"; data_bytes = 1 ∷ [] })
      (proxy, no_uploads)).0
    ≡ some (err (function_unknown "sieve"))
unfolding request headers_of first_values call lookup grpc_answer
unknown = refl
