-- ===== src/Statements.antt =====
-- `separateStmt` of db.go: the statements of a query.
pub mod Quotes
pub mod Pieces
use Prim.Native.Char.{Char}
use mathlib.Core.List
use runn.Common.{String, Bool, true, false, not, ◌&&◌, List, [], ◌∷◌, ◌==◌, if◌then◌else◌, map}
use runn.Common.Strings.{is_char, trim, trim_right}
use runn.Common.Splits.{has_char}

abbrev pub flip_if : Bool → Bool → Bool
flip_if b x = if b then not x else x

-- A semicolon outside of quotes.
abbrev pub closes : Bool → Bool → Char → Bool
closes ins ind c = is_char ";" c && not ins && not ind

-- The character belongs to the first statement, or to the rest if none is complete.
abbrev pub add_char : Char → List String × String → List String × String
add_char c ([], rest) = ([], String.◌∷◌ c rest)
add_char c (p ∷ ps, rest) = (String.◌∷◌ c p ∷ ps, rest)

abbrev pub close_with : Char → List String × String → List String × String
close_with c (ps, rest) = (String.◌∷◌ c String.[] ∷ ps, rest)

-- The loop, inside of single or double quotes or not: the statements with their semicolons, and the rest.
unfoldable pub scan : Bool → Bool → String → List String × String
scan ins ind String.[] = ([], "")
scan ins ind (String.◌∷◌ c s) =
    let later = scan (flip_if (is_char "'" c) ins) (flip_if (is_char "\"" c) ind) s in
    if closes ins ind c then close_with c later else add_char c later

-- What is left behind the last semicolon. The set of characters that are cut holds a backslash, an `n`
-- and a double quote.
abbrev pub last_stmt : String → List String
last_stmt rest = let l = trim_right " \n\\n\"" rest in if l == "" then [] else l ∷ []

abbrev pub trim_stmt : String → String
trim_stmt t = trim " \n\r" t

abbrev pub stmts_of : List String × String → List String
stmts_of (ps, rest) = List.◌++◌ (map trim_stmt ps) (last_stmt rest)

unfoldable pub separate_stmt : String → List String
unfolding scan
separate_stmt stmt =
    let s = trim_stmt stmt in if has_char ";" s then stmts_of (scan false false s) else s ∷ []
