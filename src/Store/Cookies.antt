-- ===== src/Store/Cookies.antt =====
-- `recordToCookie` of store.go. A time is a number of seconds; `now` is the clock.
use runn.Common.{
  ℕ, String, ◌≡◌, refl, Bool, false, Option, none, some, List, [], ◌∷◌, arith, eq_iff, ◌==◌, ltb,
  if◌then◌else◌, Dict, lookup, insert, erase, lookup-insert, lookup-erase,
}
use runn.Value.{Cookie}
use runn.Store.{Store}

-- `!cookie.Expires.IsZero() && cookie.Expires.Before(time.Now())`
unfoldable pub is_expired : ℕ → Cookie → Bool
is_expired now c = elim c.expires [ none ↦ false | some t ↦ ltb t now ]

unfoldable pub cookie_domain : Cookie → String
cookie_domain c = if c.domain == "" then "localhost" else c.domain

abbrev pub or_no_cookies : Option (Dict Cookie) → Dict Cookie
or_no_cookies none = []
or_no_cookies (some m) = m

-- One round of the loop.
unfoldable pub keep_cookie : ℕ → Dict (Dict Cookie) → Cookie → Dict (Dict Cookie)
keep_cookie now m c =
    let domain = cookie_domain c in
    let keys = or_no_cookies (lookup domain m) in
    insert domain (if is_expired now c then erase c.name keys else insert c.name c keys) m

unfoldable pub keep_cookies : ℕ → Dict (Dict Cookie) → List Cookie → Dict (Dict Cookie)
keep_cookies now m [] = m
keep_cookies now m (c ∷ cs) = keep_cookies now (keep_cookie now m c) cs

-- The cookies of the store are replaced by those of one response.
unfoldable pub record_to_cookie : ℕ → Store → List Cookie → Store
record_to_cookie now s cookies = record s { cookies = some (keep_cookies now [] cookies) }

-- The cookie under a domain and a name.
abbrev pub cookie_at : String → String → Dict (Dict Cookie) → Option Cookie
cookie_at domain name m = lookup name (or_no_cookies (lookup domain m))

-- What is kept has not expired, and stands under its own domain and name.
abbrev pub AllLive : ℕ → Dict (Dict Cookie) → Type 0
AllLive now m =
    (domain name : String) (c : Cookie)
    → cookie_at domain name m ≡ some c
    → (is_expired now c ≡ false) × (cookie_domain c ≡ domain) × (c.name ≡ name)

cookie_at-keep_cookie :
    (now : ℕ) (m : Dict (Dict Cookie)) (c : Cookie) (domain name : String)
    → cookie_at domain name (keep_cookie now m c) ≡ (
        if cookie_domain c == domain
        then if c.name == name
          then if is_expired now c then none else some c
          else cookie_at domain name m
        else cookie_at domain name m)
unfolding keep_cookie
cookie_at-keep_cookie now m c domain name =
    let keys = or_no_cookies (lookup (cookie_domain c) m) in
    ground (
      arith,
      lookup-insert (cookie_domain c) domain
          (if is_expired now c then erase c.name keys else insert c.name c keys) m,
      eq_iff (cookie_domain c) domain,
      lookup-insert c.name name c keys,
      lookup-erase c.name name keys,
    )

keep_cookie-AllLive :
    (now : ℕ) (m : Dict (Dict Cookie)) (c : Cookie)
    → AllLive now m
    → AllLive now (keep_cookie now m c)
keep_cookie-AllLive now m c live domain name d e = ground (
  arith,
  cookie_at-keep_cookie now m c domain name,
  live domain name d,
  eq_iff (cookie_domain c) domain,
  eq_iff c.name name,
)

keep_cookies-AllLive :
    (now : ℕ) (m : Dict (Dict Cookie)) (cs : List Cookie)
    → AllLive now m
    → AllLive now (keep_cookies now m cs)
unfolding keep_cookies
keep_cookies-AllLive now m [] live = live
keep_cookies-AllLive now m (c ∷ cs) live =
    keep_cookies-AllLive now (keep_cookie now m c) cs (keep_cookie-AllLive now m c live)

-- Whatever the response sets and whatever the store held, no cookie that the store then holds has
-- expired, and each stands under its own name and its own domain, which is `localhost` if the cookie
-- names none.
pub record_to_cookie-AllLive :
    (now : ℕ) (s : Store) (cookies : List Cookie)
    → (kept : Dict (Dict Cookie)) × ((record_to_cookie now s cookies).cookies ≡ some kept)
      × AllLive now kept
unfolding record_to_cookie lookup
record_to_cookie-AllLive now s cookies =
    (keep_cookies now [] cookies, refl, keep_cookies-AllLive now [] cookies (λ domain name c e. cc))
