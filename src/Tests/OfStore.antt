-- ===== src/Tests/OfStore.antt =====
-- The theorems on the store, applied to small stores.
use mathlib.Core.Option
use runn.Common.{
  ◌≡◌, ◌⊎◌, refl, false, none, some, [], ◌∷◌, ◌++◌, last?, drop_last, map_last, Dict, lookup,
}
use runn.Value.{text, end, field, Cookie}
use runn.Value.Maps.{put}
use runn.Store
use runn.Store.{
  Store, record_as_mapped, record_as_listed, remove_latest_as_mapped, previous, latest, clear_steps,
}
use runn.Store.View.{view, IsStore}
use runn.Store.Record.{
  view-record_as_mapped, view-remove_latest_as_mapped, view-record_to_latest, latest-view,
  previous-view, view-clear_steps,
}
use runn.Store.Cookies.{record_to_cookie, AllLive, record_to_cookie-AllLive}
use runn.Tests.{blank_store, differ}

abbrev listed : Store
listed = record blank_store { use_map = false; steps = field "a" (text "1") end ∷ end ∷ [] }

abbrev mapped : Store
mapped = record blank_store {
  step_map_keys = "one" ∷ [];
  step_map = ("one", field "a" (text "1") end) ∷ [];
}

listed_stored : IsStore listed
listed_stored = record { distinct = tt; present = tt }

mapped_stored : IsStore mapped
unfolding lookup
mapped_stored = record { distinct = (tt, tt); present = (refl, tt) }

view-record_as_mapped_example :
    (s : Store) × (record_as_mapped mapped "two" end ≡ some s)
    × IsStore s
    × (view s ≡ view mapped ++ end ∷ [])
view-record_as_mapped_example =
    view-record_as_mapped mapped "two" end refl mapped_stored (differ "one" "two" refl, tt)

view-remove_latest_as_mapped_example :
    ((view mapped ≡ []) × (remove_latest_as_mapped mapped ≡ none))
    ⊎ ((s : Store) × (remove_latest_as_mapped mapped ≡ some s)
        × IsStore s
        × (view s ≡ drop_last (view mapped)))
view-remove_latest_as_mapped_example = view-remove_latest_as_mapped mapped refl mapped_stored

view-record_to_latest_example :
    ((view listed ≡ []) × (Store.record_to_latest listed "outcome" (text "success") ≡ none))
    ⊎ ((s : Store) × (Store.record_to_latest listed "outcome" (text "success") ≡ some s)
        × IsStore s
        × (view s ≡ map_last (put "outcome" (text "success")) (view listed)))
view-record_to_latest_example =
    view-record_to_latest listed "outcome" (text "success") listed_stored

latest-view_example : latest mapped ≡ last? (view mapped)
latest-view_example = latest-view mapped mapped_stored

previous-view_example : previous listed ≡ last? (drop_last (view listed))
previous-view_example = previous-view listed listed_stored

view-clear_steps_example :
    IsStore (clear_steps mapped)
    × (view (clear_steps mapped) ≡ [])
    × ((clear_steps mapped).loop_index ≡ none)
    × ((clear_steps mapped).bind_vars ≡ mapped.bind_vars)
    × ((clear_steps mapped).vars ≡ mapped.vars)
view-clear_steps_example = view-clear_steps mapped

abbrev bound : Store
bound = record mapped { bind_vars = field "token" (text "t") end; loop_index = some 2 }

abbrev session : Cookie
session = record { name = "session"; domain = ""; expires = some 5 }

record_to_cookie-AllLive_example :
    (kept : Dict (Dict Cookie)) × ((record_to_cookie 9 listed (session ∷ [])).cookies ≡ some kept)
    × AllLive 9 kept
record_to_cookie-AllLive_example = record_to_cookie-AllLive 9 listed (session ∷ [])
