-- ===== src/Parse/Service.antt =====
-- `parseServiceAndMethod` of parse.go, and that it reads back what joins a service and a method.
use Prim.Native.String.{◌++◌}
use runn.Common.{
  String, ◌≡◌, refl, sym, ap, ◌∙◌, false, Option, none, some, List, [], ◌∷◌, if◌then◌else◌, ltb,
  length, last?, drop_last, arith, last?-snoc, drop_last-snoc, length-snoc,
}
use mathlib.Core.List
use runn.Common.Text.{join}
use runn.Common.Strings.{has_first, trim_first, split}
use runn.Common.Splits.{has_char, join-split, join-snoc, split-filled, split-append}
use runn.Errors.{message, Result, ok, err}

abbrev service_of : String → List String → Option String → Result (String × String)
service_of s parts none = err (message ("invalid method: " ++ s))
service_of s parts (some method) = ok (join "/" (drop_last parts), method)

-- The parts of the text that was split at its slashes.
abbrev read_parts : String → List String → Result (String × String)
read_parts s parts =
    if ltb (length parts) 2
    then err (message ("invalid method: " ++ s))
    else service_of s parts (last? parts)

unfoldable pub parse_service_and_method : String → Result (String × String)
parse_service_and_method s = read_parts s (split "/" (trim_first "/" s))

read_parts-snoc :
    (s x : String) (l : List String) (y : String)
    → read_parts s (List.◌++◌ (x ∷ l) (y ∷ [])) ≡ ok (join "/" (x ∷ l), y)
read_parts-snoc s x l y =
    let more : ltb (length (List.◌++◌ (x ∷ l) (y ∷ []))) 2 ≡ false =
      ground (arith, length-snoc (x ∷ l) y) in
    rw (more, last?-snoc (x ∷ l) y, drop_last-snoc (x ∷ l) y) refl

ok_injective : {p q : String × String} → ok p ≡ ok q → p ≡ q
ok_injective h = cc

as_snoc :
    (x z : String) (l : List String)
    → (m : List String) × (y : String) × (x ∷ z ∷ l ≡ List.◌++◌ (x ∷ m) (y ∷ []))
as_snoc x z [] = ([], z, refl)
as_snoc x z (w ∷ l) = let (m, y, e) = as_snoc z w l in (z ∷ m, y, ap (λ l. x ∷ l) e)

join-read_parts :
    (s : String) (parts : List String) (service method : String)
    → read_parts s parts ≡ ok (service, method)
    → service ++ ("/" ++ method) ≡ join "/" parts
join-read_parts s [] service method h = absurd (cc)
join-read_parts s (x ∷ []) service method h = absurd (cc)
join-read_parts s (x ∷ z ∷ l) service method h =
    let (m, y, e) = as_snoc x z l in
    let same = sym (read_parts-snoc s x m y) ∙ (ap (read_parts s) (sym e) ∙ h) in
    let pair = ok_injective same in
    let first : join "/" (x ∷ m) ≡ service = ap (λ (p : String × String). p.0) pair in
    let second : y ≡ method = ap (λ (p : String × String). p.1) pair in
    ap (λ t. t ++ ("/" ++ method)) (sym first)
    ∙ (ap (λ t. join "/" (x ∷ m) ++ ("/" ++ t)) (sym second)
        ∙ (sym (join-snoc "/" x m y) ∙ ap (join "/") (sym e)))

trim_first-other : (s : String) → has_first "/" s ≡ false → trim_first "/" s ≡ s
unfolding has_first trim_first
trim_first-other String.[] h = refl
trim_first-other (String.◌∷◌ c s) h = rw h refl

-- A service that does not begin with a slash and a method without a slash are read back from the text
-- that joins them with a slash.
pub parse_service_and_method-join :
    (service method : String)
    → has_first "/" (service ++ ("/" ++ method)) ≡ false
    → has_char "/" method ≡ false
    → parse_service_and_method (service ++ ("/" ++ method)) ≡ ok (service, method)
unfolding parse_service_and_method
parse_service_and_method-join service method first plain =
    let (p, ps, filled) = split-filled "/" service in
    let parts : split "/" (trim_first "/" (service ++ ("/" ++ method)))
        ≡ List.◌++◌ (split "/" service) (method ∷ []) =
      ap (split "/") (trim_first-other (service ++ ("/" ++ method)) first)
      ∙ split-append "/" _ refl service method plain in
    ap (read_parts _) (parts ∙ ap (λ l. List.◌++◌ l (method ∷ [])) filled)
    ∙ (read_parts-snoc _ p ps method
        ∙ ap (λ t. ok (t, method)) (ap (join "/") (sym filled) ∙ join-split "/" service))

-- The service and the method that are read, joined with a slash, are the text without its first slash.
pub join-parse_service_and_method :
    (s service method : String)
    → parse_service_and_method s ≡ ok (service, method)
    → service ++ ("/" ++ method) ≡ trim_first "/" s
unfolding parse_service_and_method
join-parse_service_and_method s service method h =
    join-read_parts s (split "/" (trim_first "/" s)) service method h
    ∙ join-split "/" (trim_first "/" s)
