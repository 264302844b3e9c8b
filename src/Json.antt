-- ===== src/Json.antt =====
-- JSON values as encoding/json decodes them into `interface{}`. A number is kept as an integer.
use astron_claw.Prelude.{
  String, Bool, true, false, Option, none, some, str_eq, if◌then◌else◌, ◌≡◌, arith, eq_iff,
}
use astron_claw.Prelude.Int.{ℤ}

mutual
  pub data Value : Type 0 where
    null : Value
    bool : Bool → Value
    num : ℤ → Value
    str : String → Value
    arr : Items → Value
    obj : Fields → Value

  pub data Items : Type 0 where
    no_items : Items
    item : Value → Items → Items

  -- a map[string]interface{}
  pub data Fields : Type 0 where
    end : Fields
    field : String → Value → Fields → Fields

-- m[key] with its `ok`
unfoldable pub get : String → Fields → Option Value
get k end = none
get k (field j v m) = if str_eq j k then some v else get k m

-- delete(m, key)
unfoldable pub delete : String → Fields → Fields
delete k end = end
delete k (field j v m) = let rest = delete k m in if str_eq j k then rest else field j v rest

-- A read from a map that may be nil.
abbrev pub get_in : Option Fields → String → Option Value
get_in none k = none
get_in (some m) k = get k m

-- `s, _ := v.(string)`
abbrev pub as_string : Option Value → String
as_string (some (str s)) = s
as_string _ = ""

-- `m, _ := v.(map[string]interface{})`, none for the nil map
abbrev pub as_map : Option Value → Option Fields
as_map (some (obj m)) = some m
as_map _ = none

-- whether a key is there
abbrev pub has : Option Fields → String → Bool
has m k = elim (get_in m k) [ none ↦ false | some _ ↦ true ]

pub get-delete :
    (k j : String) (m : Fields) → get j (delete k m) ≡ (if str_eq k j then none else get j m)
unfolding get delete
get-delete k j end = ground arith
get-delete k j (field i v m) = ground (arith, get-delete k j m, eq_iff i k, eq_iff i j, eq_iff k j)
