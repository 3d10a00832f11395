-- ===== src/Parse/Http.antt =====
-- `parseHTTPRequest` of parse.go and `validate` of http.go.
use Prim.Native.String.{◌++◌}
use package.text.Mathlib.Text.{starts_with}
use runn.Common.{
  String, Bool, true, false, ◌&&◌, ◌||◌, Option, none, some, List, [], ◌∷◌, ◌==◌, if◌then◌else◌,
}
use mathlib.Core.List
use runn.Common.Strings.{to_upper}
use runn.Value.{Value, null, text, list, dict, Values, nil, cons, Fields, end, field}
use runn.Value.Maps.{get}
use runn.Errors.{Error, message}
use runn.Bind.{Attempt, fails, yields, attempt, ◌>>=◌}
use runn.Parse.{Reader, invalid, flag_of, must_text, one_of, map_of}
use runn.Parse.Delimiter.{trim_delimiter}

-- The headers are the calls of `Add`, in order. No body is `null`.
pub record HttpRequest : Type 0 where
  pub path : String
  pub method : String
  pub headers : List (String × String)
  pub media_type : String
  pub body : Value
  pub use_cookie : Option Bool
  pub trace : Option Bool

-- `for _, vv := range v { req.headers.Add(k, vv.(string)) }`
unfoldable pub add_all : String → Values → Attempt (List (String × String))
add_all k nil = yields []
add_all k (cons v l) = do t ← must_text v; rest ← add_all k l; yields ((k, t) ∷ rest)

abbrev header_of : String → String → Value → Attempt (List (String × String))
header_of part k (text t) = yields ((k, t) ∷ [])
header_of part k (list l) = add_all k l
header_of part k v = invalid "request" part

-- The loop over the map of headers.
unfoldable pub add_headers : String → Fields → Attempt (List (String × String))
unfolding add_all
add_headers part end = yields []
add_headers part (field k v m) = do
  these ← header_of part k v
  rest ← add_headers part m
  yields (List.◌++◌ these rest)

abbrev pub headers_of : String → Option Value → Attempt (List (String × String))
headers_of part none = yields []
headers_of part (some (dict m)) = add_headers part m
headers_of part (some v) = invalid "request" part

-- The media type and the body.
abbrev pub body_of : String → Option Value → Attempt (String × Value)
body_of part none = yields ("", null)
body_of part (some null) = yields ("", null)
body_of part (some (dict (field k v end))) = yields (k, v)
body_of part (some v) = invalid "request" part

unfoldable pub is_multipart : String → Bool
is_multipart t = t == "multipart/form-data" || starts_with t "multipart/form-data; boundary="

unfoldable pub is_supported : String → Bool
is_supported t =
    t == "application/json"
    || t == "text/plain"
    || t == "application/x-www-form-urlencoded"
    || t == "application/octet-stream"
    || t == ""

abbrev pub is_null : Value → Bool
is_null null = true
is_null v = false

abbrev pub needs_body : String → Bool
needs_body method = method == "POST" || method == "PATCH"

unfoldable pub validate : HttpRequest → Option Error
unfolding is_multipart is_supported
validate q =
    if needs_body q.method && q.media_type == ""
    then some (message (q.method ++ " method requires mediaType"))
    else if needs_body q.method && is_null q.body
    then some (message (q.method ++ " method requires body"))
    else if is_multipart q.media_type
    then none
    else if is_supported q.media_type
    then none
    else some (message ("unsupported mediaType: " ++ q.media_type))

abbrev pub validated : HttpRequest → Attempt HttpRequest
validated q = elim (validate q) [ none ↦ yields q | some e ↦ fails e ]

module _ (r : Reader) where
  -- After `trimDelimiter`: the path, the method and its map.
  unfoldable pub read_http_request : String → Fields → Attempt HttpRequest
  unfolding add_headers flag_of validate
  read_http_request part v = do
    (path, vv) ← one_of "request" part v
    methods ← map_of "request" part (some vv)
    (method, w) ← one_of "request" part methods
    m ← map_of "request" part (some w)
    headers ← headers_of part (get "headers" m)
    (media_type, body) ← body_of part (get "body" m)
    use_cookie ← flag_of "request" part (get "useCookie" m)
    trace ← flag_of "request" part (get "trace" m)
    validated (record {
      path = path;
      method = to_upper method;
      headers = headers;
      media_type = media_type;
      body = body;
      use_cookie = use_cookie;
      trace = trace;
    })

  unfoldable pub parse_http_request : Fields → Attempt HttpRequest
  unfolding read_http_request
  parse_http_request v = do
    part ← attempt (r.marshal (trim_delimiter v))
    read_http_request part (trim_delimiter v)
