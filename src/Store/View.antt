-- ===== src/Store/View.antt =====
-- The abstract view of a store: the sequence of the maps that its steps have recorded, whether the
-- steps are listed or mapped.
use runn.Common.{
  ℕ, String, ◌≡◌, refl, ap, ◌≢◌, true, Option, none, some, List, [], ◌∷◌, ◌++◌, arith, eq_iff,
  length, All, if◌then◌else◌, Dict, lookup, insert, erase, lookup-insert, lookup-erase, is_some,
}
use runn.Value.{Fields, end}
use runn.Store.{Store}

abbrev pub or_empty : Option Fields → Fields
or_empty none = end
or_empty (some m) = m

-- What the step map holds at each key.
abbrev pub entries : List String → Dict Fields → List Fields
entries [] m = []
entries (k ∷ keys) m = or_empty (lookup k m) ∷ entries keys m

unfoldable pub view : Store → List Fields
view s = if s.use_map then entries s.step_map_keys s.step_map else s.steps

abbrev pub Fresh : String → List String → Type 0
Fresh k keys = All (λ j. j ≢ k) keys

abbrev pub Distinct : List String → Type 0
Distinct [] = Unit
Distinct (k ∷ keys) = Fresh k keys × Distinct keys

abbrev pub Present : Dict Fields → List String → Type 0
Present m keys = All (λ k. is_some (lookup k m) ≡ true) keys

-- Every key that the store lists is in its step map, once.
pub record IsStore (s : Store) : Type 0 where
  pub distinct : Distinct s.step_map_keys
  pub present : Present s.step_map s.step_map_keys

pub entries-insert :
    (k : String) (v : Fields) (m : Dict Fields) (keys : List String)
    → Fresh k keys
    → entries keys (insert k v m) ≡ entries keys m
entries-insert k v m [] h = refl
entries-insert k v m (j ∷ keys) h =
    ground (arith, lookup-insert k j v m, eq_iff k j, entries-insert k v m keys h.1)

pub entries-erase :
    (k : String) (m : Dict Fields) (keys : List String)
    → Fresh k keys
    → entries keys (erase k m) ≡ entries keys m
entries-erase k m [] h = refl
entries-erase k m (j ∷ keys) h =
    ground (arith, lookup-erase k j m, eq_iff k j, entries-erase k m keys h.1)

pub entries-snoc :
    (keys : List String) (k : String) (m : Dict Fields)
    → entries (keys ++ k ∷ []) m ≡ entries keys m ++ or_empty (lookup k m) ∷ []
entries-snoc [] k m = refl
entries-snoc (j ∷ keys) k m = ap (λ l. or_empty (lookup j m) ∷ l) (entries-snoc keys k m)

pub length-entries : (keys : List String) (m : Dict Fields) → length (entries keys m) ≡ length keys
length-entries [] m = refl
length-entries (k ∷ keys) m = ap (λ n. ℕ.suc n) (length-entries keys m)
