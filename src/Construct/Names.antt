-- ===== src/Construct/Names.antt =====
-- The names of the clients that `New` of operator.go checks.
use runn.Common.{
  ℕ, ◌+◌, ◌≤◌, String, ◌≡◌, refl, ap, Bool, true, false, List, [], ◌∷◌, ◌||◌, eq_iff, arith,
  if◌then◌else◌,
}
use Prim.Native.String.{◌++◌}
use runn.Errors.{message}
use runn.Bind.{fails, yields}
use runn.CdpFunctions.{contains}
use runn.Parse.Requests.{yields-bind, yields_injective}
use runn.AppendStep.{Clients}
use runn.AppendStep.Served.{one_if}
use runn.Construct.{add_names, check_names}

-- The names that are there after one kind, and that none of its names was there before.
record Added (keys more out : List String) (k : String) : Type 0 where
  known : contains out k ≡ (contains keys k || contains more k)
  fresh : one_if (contains keys k) + one_if (contains more k) ≤ 1

Added-cons :
    (keys more out : List String) (m k : String)
    → contains keys m ≡ false
    → Added (m ∷ keys) more out k
    → Added keys (m ∷ more) out k
Added-cons keys more out m k new a = record {
  known = ground (arith, a.known);
  fresh = ground (arith, a.fresh, new, eq_iff m k);
}

add_names-Added :
    (keys more out : List String) (k : String)
    → add_names keys more ≡ yields out
    → Added keys more out k
unfolding add_names
add_names-Added keys [] out k h = record {
  known = ground (arith, ap (λ l. contains l k) (yields_injective h));
  fresh = ground arith;
}
add_names-Added keys (m ∷ more) out k h =
    by_seen (contains keys m) refl (add_names-Added (m ∷ keys) more out k) h
  where
    by_seen :
        (b : Bool)
        → contains keys m ≡ b
        → (add_names (m ∷ keys) more ≡ yields out → Added (m ∷ keys) more out k)
        → (if b
            then fails (message ("duplicate runner names: " ++ m))
            else add_names (m ∷ keys) more)
          ≡ yields out
        → Added keys (m ∷ more) out k
    by_seen true e rest h = absurd (cc)
    by_seen false e rest h = Added-cons keys more out m k e (rest h)

-- Of how many kinds a name is a client.
abbrev pub kinds : Clients → String → ℕ
kinds c k =
    one_if (contains c.http k)
    + one_if (contains c.db k)
    + one_if (contains c.grpc k)
    + one_if (contains c.cdp k)
    + one_if (contains c.ssh k)

pub check_names-single :
    (c : Clients) (out : List String) (k : String) → check_names c ≡ yields out → kinds c k ≤ 1
unfolding check_names
check_names-single c out k h =
    let (db, h₁, r₁) = yields-bind (add_names c.http c.db) _ out h in
    let (grpc, h₂, r₂) = yields-bind (add_names db c.grpc) _ out r₁ in
    let (cdp, h₃, h₄) = yields-bind (add_names grpc c.cdp) _ out r₂ in
    let a = add_names-Added c.http c.db db k h₁ in
    let b = add_names-Added db c.grpc grpc k h₂ in
    let d = add_names-Added grpc c.cdp cdp k h₃ in
    let e = add_names-Added cdp c.ssh out k h₄ in
    ground (arith, a.known, a.fresh, b.known, b.fresh, d.known, d.fresh, e.known, e.fresh)
