-- ===== src/RunbookFile/Normal.antt =====
-- `normalize` of runbook.go: maps get texts as keys, and integers a width of 64 bits.
use runn.Common.{String, Bool, true, false, ◌==◌, if◌then◌else◌}
use runn.Common.Int.{ℤ, pos, negsuc}
use runn.Value
use runn.Value.{Value, Values, Fields}
use runn.Value.Maps.{put}
use runn.RunbookFile
use runn.RunbookFile.{Yaml, Yamls, Items, NamedItems, Maps}

-- `fmt.Sprintf("%v", k)`; other keys than texts and bools are formatted by the parameter.
abbrev show_key : (Yaml → String) → Yaml → String
show_key show (RunbookFile.Yaml.text t) = t
show_key show (RunbookFile.Yaml.bool true) = "true"
show_key show (RunbookFile.Yaml.bool false) = "false"
show_key show k = show k

abbrev normal_int : ℤ → Value
normal_int (negsuc n) = Value.int (negsuc n)
normal_int (pos n) = Value.uint n

module _ (show : Yaml → String) where
  unfoldable mutual
    pub normalize : Yaml → Value
    normalize RunbookFile.Yaml.null = Value.null
    normalize (RunbookFile.Yaml.bool b) = Value.bool b
    normalize (RunbookFile.Yaml.int n) = normal_int n
    normalize (RunbookFile.Yaml.uint n) = Value.uint n
    normalize (RunbookFile.Yaml.float n) = Value.float n
    normalize (RunbookFile.Yaml.text t) = Value.text t
    normalize (RunbookFile.Yaml.list l) = Value.list (normalize_list l)
    normalize (RunbookFile.Yaml.any_map m) = Value.dict (normalize_items m Value.Fields.end)
    normalize (RunbookFile.Yaml.string_map m) = Value.dict (normalize_named m Value.Fields.end)
    normalize (RunbookFile.Yaml.yaml_slice m) = Value.dict (normalize_items m Value.Fields.end)
    normalize (RunbookFile.Yaml.maps l) = Value.list (normalize_maps l)

    pub normalize_list : Yamls → Values
    normalize_list RunbookFile.Yamls.nil = Value.Values.nil
    normalize_list (RunbookFile.Yamls.cons v l) = Value.Values.cons (normalize v) (normalize_list l)

    -- The map that the loop has filled so far comes last.
    pub normalize_items : Items → Fields → Fields
    normalize_items RunbookFile.Items.end res = res
    normalize_items (RunbookFile.Items.item k v m) res =
        normalize_items m (put (show_key show k) (normalize v) res)

    pub normalize_named : NamedItems → Fields → Fields
    normalize_named RunbookFile.NamedItems.stop res = res
    normalize_named (RunbookFile.NamedItems.named k v m) res =
        normalize_named m (put k (normalize v) res)

    pub normalize_maps : Maps → Values
    normalize_maps RunbookFile.Maps.no_maps = Value.Values.nil
    normalize_maps (RunbookFile.Maps.one_map m l) =
        Value.Values.cons (Value.dict (normalize_named m Value.Fields.end)) (normalize_maps l)

-- No map with keys of any type is left in a value, and each signed integer is negative.
mutual
  pub IsNormal : Value → Type 0
  IsNormal (Value.any_dict m) = ⊥
  IsNormal (Value.int (pos n)) = ⊥
  IsNormal (Value.int (negsuc n)) = Unit
  IsNormal (Value.list l) = AllNormal l
  IsNormal (Value.dict m) = FieldsNormal m
  IsNormal (Value.func n) = ⊥
  IsNormal (Value.cookie c) = ⊥
  IsNormal v = Unit

  AllNormal : Values → Type 0
  AllNormal Value.Values.nil = Unit
  AllNormal (Value.Values.cons v l) = IsNormal v × AllNormal l

  FieldsNormal : Fields → Type 0
  FieldsNormal Value.Fields.end = Unit
  FieldsNormal (Value.Fields.field k v m) = IsNormal v × FieldsNormal m

put-FieldsNormal :
    (k : String) (v : Value) (m : Fields) → IsNormal v → FieldsNormal m → FieldsNormal (put k v m)
unfolding put IsNormal
put-FieldsNormal k v Value.Fields.end hv hm = (hv, tt)
put-FieldsNormal k v (Value.Fields.field j w m) hv (hw, hm) =
    by_key (put-FieldsNormal k v m hv hm) (j == k)
  where
    by_key :
        FieldsNormal (put k v m)
        → (b : Bool)
        → FieldsNormal (if b then Value.Fields.field k v m else Value.Fields.field j w (put k v m))
    by_key h true = (hv, hm)
    by_key h false = (hw, h)

module _ (show : Yaml → String) where
  mutual
    unfolding normalize IsNormal

    value-IsNormal : (v : Yaml) → IsNormal (normalize show v)
    value-IsNormal RunbookFile.Yaml.null = tt
    value-IsNormal (RunbookFile.Yaml.bool b) = tt
    value-IsNormal (RunbookFile.Yaml.int (pos n)) = tt
    value-IsNormal (RunbookFile.Yaml.int (negsuc n)) = tt
    value-IsNormal (RunbookFile.Yaml.uint n) = tt
    value-IsNormal (RunbookFile.Yaml.float n) = tt
    value-IsNormal (RunbookFile.Yaml.text t) = tt
    value-IsNormal (RunbookFile.Yaml.list l) = list-AllNormal l
    value-IsNormal (RunbookFile.Yaml.any_map m) = items-FieldsNormal m Value.Fields.end tt
    value-IsNormal (RunbookFile.Yaml.string_map m) = named-FieldsNormal m Value.Fields.end tt
    value-IsNormal (RunbookFile.Yaml.yaml_slice m) = items-FieldsNormal m Value.Fields.end tt
    value-IsNormal (RunbookFile.Yaml.maps l) = maps-AllNormal l

    list-AllNormal : (l : Yamls) → AllNormal (normalize_list show l)
    list-AllNormal RunbookFile.Yamls.nil = tt
    list-AllNormal (RunbookFile.Yamls.cons v l) = (value-IsNormal v, list-AllNormal l)

    items-FieldsNormal :
        (m : Items) (res : Fields) → FieldsNormal res → FieldsNormal (normalize_items show m res)
    items-FieldsNormal RunbookFile.Items.end res h = h
    items-FieldsNormal (RunbookFile.Items.item k v m) res h =
        items-FieldsNormal m _
          (put-FieldsNormal (show_key show k) (normalize show v) res (value-IsNormal v) h)

    named-FieldsNormal :
        (m : NamedItems) (res : Fields)
        → FieldsNormal res
        → FieldsNormal (normalize_named show m res)
    named-FieldsNormal RunbookFile.NamedItems.stop res h = h
    named-FieldsNormal (RunbookFile.NamedItems.named k v m) res h =
        named-FieldsNormal m _ (put-FieldsNormal k (normalize show v) res (value-IsNormal v) h)

    maps-AllNormal : (l : Maps) → AllNormal (normalize_maps show l)
    maps-AllNormal RunbookFile.Maps.no_maps = tt
    maps-AllNormal (RunbookFile.Maps.one_map m l) =
        (named-FieldsNormal m Value.Fields.end tt, maps-AllNormal l)

  -- Whatever YAML has read, `normalize` leaves no map with keys of any type in it, at any depth, and
  -- no signed integer that is not negative.
  pub normalize-IsNormal : (v : Yaml) → IsNormal (normalize show v)
  normalize-IsNormal v = value-IsNormal v
