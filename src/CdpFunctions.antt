-- ===== src/CdpFunctions.antt =====
-- cdpfn.go: the functions of a browser that a step can call, with their arguments and aliases. What
-- they do is another package's.
pub mod Aliases
use runn.Common.{
  String, Bool, true, false, ◌||◌, Option, none, some, List, [], ◌∷◌, ◌==◌, if◌then◌else◌, Dict,
  lookup,
}
use runn.Errors.{Error, message, Result, ok, err}
use Prim.Native.String.{◌++◌}

pub data CdpArgType : Type 0 where
  argument response : CdpArgType

pub record CdpFn : Type 0 where
  pub args : List (CdpArgType × String)
  pub aliases : List String

unfoldable pub cdp_fn_map : Dict CdpFn
cdp_fn_map =
    ("navigate", record { args = (argument, "url") ∷ []; aliases = [] })
    ∷ ("latestTab", record { args = []; aliases = "latestTarget" ∷ [] })
    ∷ ("click", record { args = (argument, "sel") ∷ []; aliases = [] })
    ∷ ("doubleClick", record { args = (argument, "sel") ∷ []; aliases = [] })
    ∷ ("sendKeys", record { args = (argument, "sel") ∷ (argument, "value") ∷ []; aliases = [] })
    ∷ ("submit", record { args = (argument, "sel") ∷ []; aliases = [] })
    ∷ ("scroll", record { args = (argument, "sel") ∷ []; aliases = "scrollIntoView" ∷ [] })
    ∷ ("wait", record { args = (argument, "time") ∷ []; aliases = "sleep" ∷ [] })
    ∷ ("waitReady", record { args = (argument, "sel") ∷ []; aliases = [] })
    ∷ ("waitVisible", record { args = (argument, "sel") ∷ []; aliases = [] })
    ∷ (
      "setUserAgent",
      record { args = (argument, "userAgent") ∷ []; aliases = "setUA" ∷ "ua" ∷ "userAgent" ∷ [] },
    )
    ∷ (
      "text",
      record { args = (argument, "sel") ∷ (response, "text") ∷ []; aliases = "getText" ∷ [] },
    )
    ∷ (
      "textContent",
      record {
        args = (argument, "sel") ∷ (response, "text") ∷ [];
        aliases = "getTextContent" ∷ [];
      },
    )
    ∷ (
      "innerHTML",
      record { args = (argument, "sel") ∷ (response, "html") ∷ []; aliases = "getInnerHTML" ∷ [] },
    )
    ∷ (
      "outerHTML",
      record { args = (argument, "sel") ∷ (response, "html") ∷ []; aliases = "getOuterHTML" ∷ [] },
    )
    ∷ (
      "fullHTML",
      record { args = (response, "html") ∷ []; aliases = "getFullHTML" ∷ "getHTML" ∷ "html" ∷ [] },
    )
    ∷ (
      "value",
      record { args = (argument, "sel") ∷ (response, "value") ∷ []; aliases = "getValue" ∷ [] },
    )
    ∷ (
      "setUploadFile",
      record { args = (argument, "sel") ∷ (argument, "path") ∷ []; aliases = "setUpload" ∷ [] },
    )
    ∷ ("title", record { args = (response, "title") ∷ []; aliases = "getTitle" ∷ [] })
    ∷ ("location", record { args = (response, "url") ∷ []; aliases = "getLocation" ∷ [] })
    ∷ (
      "attributes",
      record {
        args = (argument, "sel") ∷ (response, "attrs") ∷ [];
        aliases = "getAttributes" ∷ "attrs" ∷ "getAttrs" ∷ [];
      },
    )
    ∷ ("screenshot", record { args = (response, "png") ∷ []; aliases = "getScreenshot" ∷ [] })
    ∷ ("evaluate", record { args = (argument, "expr") ∷ []; aliases = "eval" ∷ [] })
    ∷ (
      "localStorage",
      record {
        args = (argument, "origin") ∷ (response, "items") ∷ [];
        aliases = "getLocalStorage" ∷ [];
      },
    )
    ∷ (
      "sessionStorage",
      record {
        args = (argument, "origin") ∷ (response, "items") ∷ [];
        aliases = "getSessionStorage" ∷ [];
      },
    )
    ∷ []

abbrev pub contains : List String → String → Bool
contains [] k = false
contains (a ∷ l) k = a == k || contains l k

-- The loop over the aliases. No alias is given twice, so Go's order of the map is no matter.
unfoldable pub find_alias : Dict CdpFn → String → Result (String × CdpFn)
find_alias [] k = err (message ("not found function: " ++ k))
find_alias ((name, fn) ∷ m) k =
    let rest = find_alias m k in if contains fn.aliases k then ok (name, fn) else rest

unfoldable pub find_cdp_fn : String → Result (String × CdpFn)
unfolding cdp_fn_map find_alias
find_cdp_fn k = elim (lookup k cdp_fn_map) [ some fn ↦ ok (k, fn) | none ↦ find_alias cdp_fn_map k ]

abbrev is_argument : CdpArgType → Bool
is_argument argument = true
is_argument response = false

-- `ArgArgs` and `ResArgs`
unfoldable pub arg_args : List (CdpArgType × String) → List (CdpArgType × String)
arg_args [] = []
arg_args ((t, k) ∷ l) = let rest = arg_args l in if is_argument t then (t, k) ∷ rest else rest

unfoldable pub res_args : List (CdpArgType × String) → List (CdpArgType × String)
res_args [] = []
res_args ((t, k) ∷ l) = let rest = res_args l in if is_argument t then rest else (t, k) ∷ rest
