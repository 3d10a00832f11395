-- ===== src/Book/Layers.antt =====
-- What `Overlay` and `Underlay` of option.go have in common.
use runn.Common.{
  ◌++◌, String, Bool, true, false, length, lookup, ◌≡◌, refl, sym, ap, ◌∙◌, arith, eqb, ◌++◌, ◌||◌,
  if◌then◌else◌,
}
use runn.Value.Maps.{or_else, get, get-put_all}
use runn.Errors.{message}
use runn.Book.{Book}
use runn.Book.Changes.{
  done, fails, ◌>>=◌, lookup-insert_all, lookup-insert_missing, get-put_missing,
}
use runn.Book.Merging.{
  overlay_book, underlay_book, laid_over, laid_under, same_kind, checked_kind, described,
  described_if_not,
}

-- One book in two layers: a name has the variable, the client and the runner of the top, or else
-- those of the base, and the steps of the top come last, with their keys.
pub record Layered (base top b : Book) : Type 0 where
  pub runners : (k : String) → get k b.runners ≡ or_else (get k top.runners) (get k base.runners)
  pub vars : (k : String) → get k b.vars ≡ or_else (get k top.vars) (get k base.vars)
  pub http :
      (k : String)
      → lookup k b.http_runners ≡ or_else (lookup k top.http_runners) (lookup k base.http_runners)
  pub db :
      (k : String)
      → lookup k b.db_runners ≡ or_else (lookup k top.db_runners) (lookup k base.db_runners)
  pub grpc :
      (k : String)
      → lookup k b.grpc_runners ≡ or_else (lookup k top.grpc_runners) (lookup k base.grpc_runners)
  pub cdp :
      (k : String)
      → lookup k b.cdp_runners ≡ or_else (lookup k top.cdp_runners) (lookup k base.cdp_runners)
  pub ssh :
      (k : String)
      → lookup k b.ssh_runners ≡ or_else (lookup k top.ssh_runners) (lookup k base.ssh_runners)
  pub steps : b.raw_steps ≡ base.raw_steps ++ top.raw_steps
  pub keys : b.step_keys ≡ base.step_keys ++ top.step_keys

laid_over-Layered : (base top : Book) → Layered base top (laid_over base top)
laid_over-Layered base top = record {
  runners = λ k. get-put_all k top.runners base.runners;
  vars = λ k. get-put_all k top.vars base.vars;
  http = λ k. lookup-insert_all k top.http_runners base.http_runners;
  db = λ k. lookup-insert_all k top.db_runners base.db_runners;
  grpc = λ k. lookup-insert_all k top.grpc_runners base.grpc_runners;
  cdp = λ k. lookup-insert_all k top.cdp_runners base.cdp_runners;
  ssh = λ k. lookup-insert_all k top.ssh_runners base.ssh_runners;
  steps = refl;
  keys = refl;
}

laid_under-Layered : (base top : Book) → Layered base top (laid_under top base)
laid_under-Layered base top = record {
  runners = λ k. get-put_missing k base.runners top.runners;
  vars = λ k. get-put_missing k base.vars top.vars;
  http = λ k. lookup-insert_missing k base.http_runners top.http_runners;
  db = λ k. lookup-insert_missing k base.db_runners top.db_runners;
  grpc = λ k. lookup-insert_missing k base.grpc_runners top.grpc_runners;
  cdp = λ k. lookup-insert_missing k base.cdp_runners top.cdp_runners;
  ssh = λ k. lookup-insert_missing k base.ssh_runners top.ssh_runners;
  steps = refl;
  keys = refl;
}

||-true : (b : Bool) → (b || true) ≡ true
||-true true = refl
||-true false = refl

same_kind-same : (a b : Bool) → a ≡ b → same_kind a b ≡ true
same_kind-same a b h = ground (arith, h)

checked_kind-same :
    (bk loaded : Book) → bk.use_map ≡ loaded.use_map → checked_kind bk loaded ≡ done bk
unfolding checked_kind
checked_kind-same bk loaded h =
    let any = eqb (length loaded.raw_steps) 0 in
    let same = same_kind-same bk.use_map loaded.use_map h in
    let passes = ap (λ k. any || k) same ∙ ||-true any in
    ap
      (λ b.
        if b then done bk else fails (message "only runbooks of the same type can be layered") bk)
      passes

-- If two runbooks are of the same type, laying the second over the first and laying the first under
-- the second both succeed. In both results each name has the variable and the clients of the second
-- runbook, or else those of the first, and the steps of the second come last, with their keys.
pub overlay-underlay :
    (base top : Book)
    → base.use_map ≡ top.use_map
    → (o u : Book) × (overlay_book base top ≡ done o)
      × (underlay_book top base ≡ done u)
      × Layered base top o
      × Layered base top u
unfolding overlay_book underlay_book
overlay-underlay base top h =
    let base_book = described base top in
    let top_book = described_if_not top base in
    let over = laid_over-Layered base_book top in
    let under = laid_under-Layered base top_book in
    (
      laid_over base_book top,
      laid_under top_book base,
      ap (λ c. c >>= λ b. done (laid_over b top)) (checked_kind-same base_book top h),
      ap (λ c. c >>= λ b. done (laid_under b base)) (checked_kind-same top_book base (sym h)),
      record {
        runners = over.runners;
        vars = over.vars;
        http = over.http;
        db = over.db;
        grpc = over.grpc;
        cdp = over.cdp;
        ssh = over.ssh;
        steps = refl;
        keys = refl;
      },
      record {
        runners = under.runners;
        vars = under.vars;
        http = under.http;
        db = under.db;
        grpc = under.grpc;
        cdp = under.cdp;
        ssh = under.ssh;
        steps = refl;
        keys = refl;
      },
    )
