-- ===== src/Fronts.antt =====
-- tinyFaaS-ext/pkg/coap/coap.go and tinyFaaS-ext/pkg/grpc/grpc.go: the front ends that hand a message
-- to `Call` of the reverse proxy, without the scheduler. The two protocols are third-party code: a
-- message here is what the handlers read and write of it.
use yuliya_bachelorarbeit.Base.{
  ℕ, false, String, Option, none, some, List, [], ◌∷◌, Result, ok, err,
}
use yuliya_bachelorarbeit.Base.Dict.{Dict, insert}
use yuliya_bachelorarbeit.Outside.{Outside}
use yuliya_bachelorarbeit.Proxy.{
  Proxy, Client, Status, status_ok, status_accepted, status_not_found, status_error, call,
}
use yuliya_bachelorarbeit.Front.{strip_slashes}

pub record CoapMessage : Type 0 where
  pub path : String
  pub payload : List ℕ
  pub message_id : ℕ
  pub token : List ℕ

pub data CoapCode : Type 0 where
  content created not_found internal_server_error : CoapCode

-- An acknowledgement. Its content format is set to plain text with `content` alone.
pub record CoapReply : Type 0 where
  pub code : CoapCode
  pub message_id : ℕ
  pub token : List ℕ
  pub payload : List ℕ

-- `Data` of the service's definition.
pub record GrpcData : Type 0 where
  pub function_identifier : String
  pub data_bytes : List ℕ

-- The errors, with the name that they print.
pub data GrpcError : Type 0 where
  function_unknown call_failed : String → GrpcError

-- The switch on the status.
unfoldable pub coap_answer : CoapMessage → Status → List ℕ → CoapReply
coap_answer m status_ok res = record {
  code = content;
  message_id = m.message_id;
  token = m.token;
  payload = res;
}
coap_answer m status_accepted res = record {
  code = created;
  message_id = m.message_id;
  token = m.token;
  payload = [];
}
coap_answer m status_not_found res = record {
  code = not_found;
  message_id = m.message_id;
  token = m.token;
  payload = [];
}
coap_answer m status_error res = record {
  code = internal_server_error;
  message_id = m.message_id;
  token = m.token;
  payload = [];
}

-- What the handler returns; a Go string holds any bytes, so that `string(res)` keeps them. The library
-- that sends it takes text alone.
unfoldable pub grpc_answer : String → Status → List ℕ → Result GrpcError (List ℕ)
grpc_answer name status_ok res = ok res
grpc_answer name status_accepted res = ok []
grpc_answer name status_not_found res = err (function_unknown name)
grpc_answer name status_error res = err (call_failed name)

-- The first value of each key of the metadata.
unfoldable pub first_values : Dict (List String) → Dict String → Dict String
unfolding insert
first_values [] headers = headers
first_values ((k, []) ∷ md) headers = first_values md headers
first_values ((k, v ∷ vs) ∷ md) headers = first_values md (insert k v headers)

unfoldable pub headers_of : Option (Dict (List String)) → Dict String
unfolding first_values
headers_of none = []
headers_of (some md) = first_values md []

module _ {W : Type 0} (o : Outside W) (c : Client W) where
  abbrev pub answering :
      {A : Type 0}
      → (Status → List ℕ → A)
      → Option (Status × List ℕ) × (Proxy × W)
      → Option A × (Proxy × W)
  answering answer (result, s) =
      (elim result [ none ↦ none | some (status, res) ↦ some (answer status res) ], s)

  -- The handler of the CoAP front end; `none` is a panic.
  unfoldable pub serve_coap : CoapMessage → Proxy × W → Option CoapReply × (Proxy × W)
  unfolding strip_slashes call coap_answer
  serve_coap m s = answering (coap_answer m) (call o c (strip_slashes m.path) m.payload false [] s)

  -- `Request`
  unfoldable pub request :
      Option (Dict (List String))
      → GrpcData
      → Proxy × W
      → Option (Result GrpcError (List ℕ)) × (Proxy × W)
  unfolding headers_of call grpc_answer
  request md d s =
      answering (grpc_answer d.function_identifier)
        (call o c d.function_identifier d.data_bytes false (headers_of md) s)
