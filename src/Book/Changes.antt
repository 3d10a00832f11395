-- ===== src/Book/Changes.antt =====
-- A Go function that changes a book, or a runner, through a pointer and returns an error: what it has
-- changed before the error stays. Also the loops that copy one map into another.
use runn.Common.{
  String, ◌≡◌, refl, Option, none, some, [], ◌∷◌, arith, ap, ◌∙◌, ◌==◌, eq_iff, if◌then◌else◌, Dict,
  lookup, insert, lookup-insert, is_some,
}
use runn.Value.{Value, Fields, end, field}
use runn.Value.Maps.{get, put, or_else, get-put}
use runn.Errors.{Error, Result, ok, err}

pub data Changed (S : Type 0) : Type 0 where
  panics : Changed S
  fails : Error → S → Changed S
  done : S → Changed S

infixl 5 ◌>>=◌
abbrev pub ◌>>=◌ : {S : Type 0} → Changed S → (S → Changed S) → Changed S
panics >>= f = panics
fails e s >>= f = fails e s
done s >>= f = f s

-- A change of one part of a larger state.
abbrev pub within : {S T : Type 0} → (S → T) → Changed S → Changed T
within up panics = panics
within up (fails e s) = fails e (up s)
within up (done s) = done (up s)

-- A call without an effect on the state: its value is used, or its error returned.
abbrev pub with_ok : {A S : Type 0} → S → Result A → (A → Changed S) → Changed S
with_ok s (err e) f = fails e s
with_ok s (ok a) f = f a

-- `for k, r := range src { dst[k] = r }`
unfoldable pub insert_all : {V : Type 0} → Dict V → Dict V → Dict V
insert_all [] dst = dst
insert_all ((k, v) ∷ src) dst = insert k v (insert_all src dst)

-- `for k, r := range src { if _, ok := dst[k]; !ok { dst[k] = r } }`
abbrev insert_new : {V : Type 0} → String → V → Dict V → Dict V
insert_new k v d = if is_some (lookup k d) then d else insert k v d

unfoldable pub insert_missing : {V : Type 0} → Dict V → Dict V → Dict V
insert_missing [] dst = dst
insert_missing ((k, v) ∷ src) dst = insert_missing src (insert_new k v dst)

unfoldable pub put_missing : Fields → Fields → Fields
put_missing end dst = dst
put_missing (field k v src) dst = put_missing src (if is_some (get k dst) then dst else put k v dst)

pub lookup-insert_all :
    {V : Type 0} (k : String) (src dst : Dict V)
    → lookup k (insert_all src dst) ≡ or_else (lookup k src) (lookup k dst)
unfolding insert_all lookup
lookup-insert_all k [] dst = refl
lookup-insert_all k ((j, v) ∷ src) dst =
    ground (arith, lookup-insert j k v (insert_all src dst), lookup-insert_all k src dst)

or_else-none : {A : Type 0} (o : Option A) → o ≡ or_else o none
or_else-none none = refl
or_else-none (some a) = refl

-- The first of three options that is there, from either side.
or_else_assoc : {A : Type 0} (o p q : Option A) → or_else (or_else o p) q ≡ or_else o (or_else p q)
or_else_assoc none p q = refl
or_else_assoc (some a) p q = refl

abbrev if_same : {V : Type 0} → String → String → V → Option V → Option V
if_same j k v o = if j == k then some v else o

if_same-else :
    {V : Type 0} (j k : String) (v : V) (o : Option V)
    → or_else (if_same j k v none) o ≡ if_same j k v o
if_same-else j k v o = ground arith

-- What a write of a missing key leaves at a key, by what was at the key of the write.
if_same-found :
    {V : Type 0} (j k : String) (v : V) (f : String → Option V)
    → (if is_some (f j) then f k else if_same j k v (f k)) ≡ or_else (f k) (if_same j k v none)
if_same-found j k v f = ground (arith, eq_iff j k)

lookup-insert_new :
    {V : Type 0} (j k : String) (v : V) (d : Dict V)
    → lookup k (insert_new j v d) ≡ or_else (lookup k d) (if_same j k v none)
lookup-insert_new j k v d =
    ground (arith, lookup-insert j k v d, if_same-found j k v (λ i. lookup i d))

pub lookup-insert_missing :
    {V : Type 0} (k : String) (src dst : Dict V)
    → lookup k (insert_missing src dst) ≡ or_else (lookup k dst) (lookup k src)
unfolding insert_missing lookup
lookup-insert_missing k [] dst = or_else-none (lookup k dst)
lookup-insert_missing k ((j, v) ∷ src) dst =
    let first = ap (λ o. or_else o (lookup k src)) (lookup-insert_new j k v dst) in
    let split = or_else_assoc (lookup k dst) (if_same j k v none) (lookup k src) in
    lookup-insert_missing k src (insert_new j v dst)
    ∙ (first ∙ (split ∙ ap (λ o. or_else (lookup k dst) o) (if_same-else j k v (lookup k src))))

abbrev put_new : String → Value → Fields → Fields
put_new k v d = if is_some (get k d) then d else put k v d

get-put_new :
    (j k : String) (v : Value) (d : Fields)
    → get k (put_new j v d) ≡ or_else (get k d) (if_same j k v none)
get-put_new j k v d = ground (arith, get-put j k v d, if_same-found j k v (λ i. get i d))

pub get-put_missing :
    (k : String) (src dst : Fields) → get k (put_missing src dst) ≡ or_else (get k dst) (get k src)
unfolding put_missing get
get-put_missing k end dst = or_else-none (get k dst)
get-put_missing k (field j v src) dst =
    let first = ap (λ o. or_else o (get k src)) (get-put_new j k v dst) in
    let split = or_else_assoc (get k dst) (if_same j k v none) (get k src) in
    get-put_missing k src (put_new j v dst)
    ∙ (first ∙ (split ∙ ap (λ o. or_else (get k dst) o) (if_same-else j k v (get k src))))
