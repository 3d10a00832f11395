-- ===== src/Book/Known.antt =====
-- The names of clients and of errors, before and after `parseRunner` of book.go.
use runn.Common.{
  String, ◌≡◌, ◌≢◌, refl, Bool, true, false, ◌||◌, eq_iff, eq_refl, arith, if◌then◌else◌, lookup,
  lookup-insert, is_some,
}
use runn.Common.Replacing.{trim_prefix}
use package.text.Mathlib.Text.{starts_with}
use runn.Value.{text}
use runn.Errors.{Result, ok, err}
use runn.Book.{Book, HttpRunner, DbRunner, GrpcRunner, CdpRunner, SshRunner}
use runn.Book.Clients.{
  new_http_runner, new_grpc_runner, new_cdp_runner, new_ssh_runner, new_db_runner, place_http,
  place_db, place_grpc, place_cdp, place_ssh,
}
use runn.Book.Changes.{Changed, panics, fails, done, with_ok}
use runn.Book.Loader.{Loader}
use runn.Book.Parsing.{parse_text_runner}

-- Whether a name has a client of some kind.
abbrev pub has_client : Book → String → Bool
has_client bk k =
    is_some (lookup k bk.http_runners)
    || is_some (lookup k bk.db_runners)
    || is_some (lookup k bk.grpc_runners)
    || is_some (lookup k bk.cdp_runners)
    || is_some (lookup k bk.ssh_runners)

-- A client, or an error.
abbrev pub is_known : Book → String → Bool
is_known bk k = has_client bk k || is_some (lookup k bk.runner_errs)

-- The other names are as they were.
abbrev pub Others : String → Book → Book → Type 0
Others k bk b = (j : String) → k ≢ j → is_known b j ≡ is_known bk j

abbrev pub Placed : String → Book → Book → Type 0
Placed k bk b = (has_client b k ≡ true) × Others k bk b

pub place_http-Placed : (k : String) (bk : Book) (r : HttpRunner) → Placed k bk (place_http bk k r)
place_http-Placed k bk r = (
  ground (arith, lookup-insert k k r bk.http_runners, eq_refl k),
  λ j h. ground (arith, lookup-insert k j r bk.http_runners, eq_iff k j, h),
)

pub place_db-Placed : (k : String) (bk : Book) (r : DbRunner) → Placed k bk (place_db bk k r)
place_db-Placed k bk r = (
  ground (arith, lookup-insert k k r bk.db_runners, eq_refl k),
  λ j h. ground (arith, lookup-insert k j r bk.db_runners, eq_iff k j, h),
)

pub place_grpc-Placed : (k : String) (bk : Book) (r : GrpcRunner) → Placed k bk (place_grpc bk k r)
place_grpc-Placed k bk r = (
  ground (arith, lookup-insert k k r bk.grpc_runners, eq_refl k),
  λ j h. ground (arith, lookup-insert k j r bk.grpc_runners, eq_iff k j, h),
)

pub place_cdp-Placed : (k : String) (bk : Book) (r : CdpRunner) → Placed k bk (place_cdp bk k r)
place_cdp-Placed k bk r = (
  ground (arith, lookup-insert k k r bk.cdp_runners, eq_refl k),
  λ j h. ground (arith, lookup-insert k j r bk.cdp_runners, eq_iff k j, h),
)

pub place_ssh-Placed : (k : String) (bk : Book) (r : SshRunner) → Placed k bk (place_ssh bk k r)
place_ssh-Placed k bk r = (
  ground (arith, lookup-insert k k r bk.ssh_runners, eq_refl k),
  λ j h. ground (arith, lookup-insert k j r bk.ssh_runners, eq_iff k j, h),
)

-- A parser of runner `k`: it does not panic, and on success the name has a client.
abbrev pub Parses : String → Book → Changed Book → Type 0
Parses k bk panics = ⊥
Parses k bk (fails e b) = Others k bk b
Parses k bk (done b) = Placed k bk b

Parses-with_ok :
    {A : Type 0} (k : String) (bk : Book) (a : Result A) (f : A → Book)
    → ((x : A) → Placed k bk (f x))
    → Parses k bk (with_ok bk a λ x. done (f x))
Parses-with_ok k bk (err e) f h = λ j d. refl
Parses-with_ok k bk (ok a) f h = h a

Parses-if :
    (k : String) (bk : Book) (b : Bool) (m n : Changed Book)
    → Parses k bk m
    → Parses k bk n
    → Parses k bk (if b then m else n)
Parses-if k bk true m n h i = h
Parses-if k bk false m n h i = i

pub parse_text_runner-Parses :
    (w : Loader) (k vv : String) (bk : Book) → Parses k bk (parse_text_runner w k vv bk)
unfolding parse_text_runner
parse_text_runner-Parses w k vv bk =
    Parses-if k bk (starts_with vv "https://" || starts_with vv "http://") _ _
      (Parses-with_ok k bk (new_http_runner w k vv) (place_http bk k) (place_http-Placed k bk))
      (Parses-if k bk (starts_with vv "grpc://") _ _
        (Parses-with_ok k bk (new_grpc_runner k (trim_prefix "grpc://" vv)) (place_grpc bk k)
          (place_grpc-Placed k bk))
        (Parses-if k bk (starts_with vv "cdp://" || starts_with vv "chrome://") _ _
          (Parses-with_ok k bk
            (new_cdp_runner w k (trim_prefix "chrome://" (trim_prefix "cdp://" vv)))
            (place_cdp bk k) (place_cdp-Placed k bk))
          (Parses-if k bk (starts_with vv "ssh://") _ _
            (Parses-with_ok k bk (new_ssh_runner k (trim_prefix "ssh://" vv)) (place_ssh bk k)
              (place_ssh-Placed k bk))
            (Parses-with_ok k bk (new_db_runner w k vv) (place_db bk k) (place_db-Placed k bk)))))
