-- ===== src/Parse/Requests.antt =====
-- What the requests that parse.go reads have in common with the map that they are read from.
use runn.Common.{
  Bool, if◌then◌else◌, String, ◌≡◌, refl, sym, subst, ap, ◌∙◌, true, false, ◌&&◌, ◌||◌, Option,
  none, some, ◌==◌,
}
use runn.Common.Strings.{to_upper}
use runn.Value.{
  Value, null, bool, int, uint, float, text, func, cookie, list, dict, any_dict, Fields, end, field,
}
use runn.Value.Maps.{get}
use runn.Errors.{Error}
use runn.Bind.{Attempt, panics, fails, yields, attempt, ◌>>=◌}
use runn.Parse.{Reader, flag_of, one_of, map_of}
use runn.Parse.Delimiter.{trim_delimiter}
use runn.Parse.Http.{
  HttpRequest, headers_of, body_of, validate, needs_body, is_null, validated, read_http_request,
  parse_http_request, is_multipart, is_supported,
}

-- What a block has yielded, its first call has, and the rest of it on that.
pub yields-bind :
    {A B : Type 0} (m : Attempt A) (f : A → Attempt B) (b : B)
    → (m >>= f) ≡ yields b
    → (a : A) × (m ≡ yields a) × (f a ≡ yields b)
yields-bind panics f b h = absurd (cc)
yields-bind (fails e) f b h = absurd (cc)
yields-bind (yields a) f b h = (a, refl, h)

pub yields_injective : {A : Type 0} {a b : A} → yields a ≡ yields b → a ≡ b
yields_injective h = cc

one_of-yields :
    (what part : String) (v : Fields) (k : String) (w : Value)
    → one_of what part v ≡ yields (k, w)
    → v ≡ field k w end
one_of-yields what part end k w h = absurd (cc)
one_of-yields what part (field j u (field i t m)) k w h = absurd (cc)
one_of-yields what part (field j u end) k w h =
    let pair = yields_injective h in ap (λ (p : String × Value). field p.0 p.1 end) pair

map_of-yields :
    (what part : String) (v : Value) (m : Fields)
    → map_of what part (some v) ≡ yields m
    → v ≡ dict m
map_of-yields what part (dict n) m h = ap (λ m. dict m) (yields_injective h)
map_of-yields what part null m h = absurd (cc)
map_of-yields what part (bool b) m h = absurd (cc)
map_of-yields what part (int n) m h = absurd (cc)
map_of-yields what part (uint n) m h = absurd (cc)
map_of-yields what part (float n) m h = absurd (cc)
map_of-yields what part (text t) m h = absurd (cc)
map_of-yields what part (func n) m h = absurd (cc)
map_of-yields what part (cookie c) m h = absurd (cc)
map_of-yields what part (list l) m h = absurd (cc)
map_of-yields what part (any_dict e) m h = absurd (cc)

-- What `validate` lets through: a POST or PATCH request has a media type and a body, and the media
-- type is one that can be encoded.
pub record IsValid (q : HttpRequest) : Type 0 where
  pub typed : (needs_body q.method && q.media_type == "") ≡ false
  pub filled : (needs_body q.method && is_null q.body) ≡ false
  pub supported : (is_multipart q.media_type || is_supported q.media_type) ≡ true

-- The tests of `validate`, in order.
abbrev first_failing : Bool → Bool → Bool → Bool → Error → Error → Error → Option Error
first_failing untyped empty multipart supported e₁ e₂ e₃ =
    if untyped
    then some e₁
    else if empty
    then some e₂
    else if multipart
    then none
    else if supported
    then none
    else some e₃

none_failing :
    (untyped empty multipart supported : Bool) (e₁ e₂ e₃ : Error)
    → first_failing untyped empty multipart supported e₁ e₂ e₃ ≡ none
    → (untyped ≡ false) × (empty ≡ false) × ((multipart || supported) ≡ true)
none_failing true empty multipart supported e₁ e₂ e₃ h = absurd (cc)
none_failing false true multipart supported e₁ e₂ e₃ h = absurd (cc)
none_failing false false true supported e₁ e₂ e₃ h = (refl, refl, refl)
none_failing false false false true e₁ e₂ e₃ h = (refl, refl, refl)
none_failing false false false false e₁ e₂ e₃ h = absurd (cc)

validate-IsValid : (q : HttpRequest) → validate q ≡ none → IsValid q
unfolding validate
validate-IsValid q h =
    let (typed, filled, supported) =
      none_failing (needs_body q.method && q.media_type == "")
        (needs_body q.method && is_null q.body) (is_multipart q.media_type)
        (is_supported q.media_type) _ _ _ h in
    record { typed = typed; filled = filled; supported = supported }

abbrev after_validate : HttpRequest → Option Error → Attempt HttpRequest
after_validate q o = elim o [ none ↦ yields q | some e ↦ fails e ]

validated-yields : (q q' : HttpRequest) → validated q ≡ yields q' → (q ≡ q') × IsValid q'
validated-yields q q' h = by_error (validate q) refl h
  where
    by_error :
        (o : Option Error) → validate q ≡ o → after_validate q o ≡ yields q' → (q ≡ q') × IsValid q'
    by_error none e k =
        let same : q ≡ q' = yields_injective k in (same, subst IsValid same (validate-IsValid q e))
    by_error (some x) e k = absurd (cc)

-- A map from which `parseHTTPRequest` reads a request has, after `trimDelimiter`, one path with one
-- method, which the request has in upper case. The request is valid.
pub parse_http_request-IsValid :
    (r : Reader) (v : Fields) (q : HttpRequest)
    → parse_http_request r v ≡ yields q
    → (method : String) × (m : Fields) × (trim_delimiter v
        ≡ field q.path (dict (field method (dict m) end)) end)
      × (q.method ≡ to_upper method)
      × IsValid q
unfolding parse_http_request read_http_request
parse_http_request-IsValid r v q h =
    let tv = trim_delimiter v in
    let (part, _, h₁) = yields-bind (attempt (r.marshal tv)) _ q h in
    let (p, one, h₂) = yields-bind (one_of "request" part tv) _ q h₁ in
    let (methods, is_map, h₃) = yields-bind (map_of "request" part (some p.1)) _ q h₂ in
    let (p', one', h₄) = yields-bind (one_of "request" part methods) _ q h₃ in
    let (m, is_map', h₅) = yields-bind (map_of "request" part (some p'.1)) _ q h₄ in
    let (headers, _, h₆) = yields-bind (headers_of part (get "headers" m)) _ q h₅ in
    let (body, _, h₇) = yields-bind (body_of part (get "body" m)) _ q h₆ in
    let (use_cookie, _, h₈) = yields-bind (flag_of "request" part (get "useCookie" m)) _ q h₇ in
    let (trace, _, h₉) = yields-bind (flag_of "request" part (get "trace" m)) _ q h₈ in
    let (same, valid) = validated-yields _ q h₉ in
    (
      p'.0,
      m,
      one_of-yields "request" part tv p.0 p.1 one
          ∙ (ap (λ w. field p.0 w end)
                (map_of-yields "request" part p.1 methods is_map
                  ∙ ap (λ f. dict f)
                      (one_of-yields "request" part methods p'.0 p'.1 one'
                        ∙ ap (λ w. field p'.0 w end) (map_of-yields "request" part p'.1 m is_map')))
              ∙ ap (λ (q : HttpRequest). field q.path (dict (field p'.0 (dict m) end)) end) same),
      sym (ap (λ (q : HttpRequest). q.method) same),
      valid,
    )
