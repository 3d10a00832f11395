-- ===== src/Parse/Grpc.antt =====
-- `parseGrpcRequest` of parse.go.
use Prim.Native.String.{◌++◌}
use runn.Common.{String, Bool, Option, none, some, List, [], ◌∷◌, ◌==◌, if◌then◌else◌}
use runn.Common.Int.{ℤ, pos}
use runn.Value.{Value, text, list, dict, Values, nil, cons, Fields, end, field}
use runn.Value.Maps.{get}
use runn.Errors.{wrapped, Result, ok, err}
use runn.Bind.{Attempt, fails, yields, attempt, ◌>>=◌}
use runn.Parse.{Reader, invalid, flag_of, map_of, text_of, must_text}
use runn.Parse.Delimiter.{trim_delimiter}
use runn.Parse.Service.{parse_service_and_method}
use runn.Parse.Http.{add_headers}

-- The operations `message`, `receive` and `close`; the first has parameters.
pub data GrpcMessage : Type 0 where
  send : Fields → GrpcMessage
  receive : GrpcMessage
  close : GrpcMessage

pub record GrpcRequest : Type 0 where
  pub service : String
  pub method : String
  pub headers : List (String × String)
  pub timeout : ℤ
  pub messages : List GrpcMessage
  pub trace : Option Bool

module _ (r : Reader) where
  -- Only a text is expanded.
  abbrev expand_text : Value → Attempt Value
  expand_text (text t) = attempt (r.expand (text t))
  expand_text v = yields v

  abbrev grpc_headers : String → Option Value → Attempt (List (String × String))
  grpc_headers part none = yields []
  grpc_headers part (some v) = do
    e ← attempt (r.expand v)
    m ← map_of "request" part (some e)
    add_headers part m

  abbrev in_part : String → Result ℤ → Attempt ℤ
  in_part part (ok d) = yields d
  in_part part (err e) = fails (wrapped ("invalid request: " ++ part) e)

  abbrev timeout_of : String → Option Value → Attempt ℤ
  timeout_of part none = yields (pos 0)
  timeout_of part (some v) = do
    e ← attempt (r.expand v)
    t ← text_of "request" part (some e)
    in_part part (r.parse_duration t)

  abbrev message_of : String → Value → Attempt GrpcMessage
  message_of part (text t) =
      if t == "close"
      then yields close
      else if t == "receive"
      then yields receive
      else invalid "request" part
  message_of part (dict m) = yields (send m)
  message_of part v = invalid "request" part

  -- The loop over `messages`.
  unfoldable pub messages_from : String → Values → Attempt (List GrpcMessage)
  messages_from part nil = yields []
  messages_from part (cons v l) = do
    e ← expand_text v
    this ← message_of part e
    rest ← messages_from part l
    yields (this ∷ rest)

  abbrev list_of : String → Value → Attempt Values
  list_of part (list l) = yields l
  list_of part v = invalid "request" part

  abbrev many_messages : String → Option Value → Attempt (List GrpcMessage)
  many_messages part none = yields []
  many_messages part (some v) = do e ← expand_text v; l ← list_of part e; messages_from part l

  -- With `message:` the key `messages:` is not read.
  abbrev grpc_messages : String → Option Value → Option Value → Attempt (List GrpcMessage)
  grpc_messages part (some v) many = do
    e ← expand_text v
    m ← map_of "request" part (some e)
    yields (send m ∷ [])
  grpc_messages part none many = many_messages part many

  unfoldable pub read_grpc_request : String → Fields → Attempt GrpcRequest
  unfolding messages_from flag_of add_headers
  read_grpc_request part (field k v end) = do
    name ← attempt (r.expand (text k))
    t ← must_text name
    (service, method) ← attempt (parse_service_and_method t)
    m ← map_of "request" part (some v)
    headers ← grpc_headers part (get "headers" m)
    timeout ← timeout_of part (get "timeout" m)
    messages ← grpc_messages part (get "message" m) (get "messages" m)
    trace ← flag_of "request" part (get "trace" m)
    yields (record {
      service = service;
      method = method;
      headers = headers;
      timeout = timeout;
      messages = messages;
      trace = trace;
    })
  read_grpc_request part v = invalid "request" part

  unfoldable pub parse_grpc_request : Fields → Attempt GrpcRequest
  unfolding read_grpc_request
  parse_grpc_request v = do
    part ← attempt (r.marshal (trim_delimiter v))
    read_grpc_request part (trim_delimiter v)
