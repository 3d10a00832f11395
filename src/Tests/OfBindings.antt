-- ===== src/Tests/OfBindings.antt =====
-- A key that ends in "[]".
use runn.Common.{refl, [], ◌∷◌}
use runn.Value.{text, end, field}
use runn.Bind.{bind_keys}
use runn.Bind.Reserved.{bind_keys-BindsNoReserved}
use runn.Store.Root.{BindsNoReserved}
use runn.Value.Maps.{get}
use runn.Tests.{small_lang, small_parser}

nothing_bound : BindsNoReserved end
unfolding get
nothing_bound k r = refl

bind_keys-BindsNoReserved_example :
    BindsNoReserved
      (bind_keys small_lang small_parser
        (field "xs[]" (text "yes") (field "steps" (text "yes") end))
        end
        ("xs[]" ∷ "steps" ∷ [])
        end).1
bind_keys-BindsNoReserved_example =
    bind_keys-BindsNoReserved small_lang small_parser
      (field "xs[]" (text "yes") (field "steps" (text "yes") end)) end ("xs[]" ∷ "steps" ∷ []) end
      nothing_bound
