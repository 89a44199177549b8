-- ===== src/Kube/Value.antt =====
-- `unstructured.Unstructured.Object`: a tree of `map[string]interface{}`, and Go's operations on it.
use projection.Prelude.{
  ℕ, ◌≡◌, refl, Bool, Option, none, some, List, [], ◌∷◌, String, arith, ◌==◌, eq_iff, if◌then◌else◌,
}

-- What an `interface{}` of a decoded object holds. An integer has its sign and its size, a float is
-- its bit pattern (a decoded object holds no NaN).
mutual
  pub data Value : Type 0 where
    null : Value
    bool : Bool → Value
    int : Bool → ℕ → Value
    float : ℕ → Value
    str : String → Value
    arr : Items → Value
    obj : Fields → Value

  pub data Items : Type 0 where
    nil : Items
    item : Value → Items → Items

  pub data Fields : Type 0 where
    end : Fields
    field : String → Value → Fields → Fields

-- `v, ok := m[k]`
unfoldable pub get_field : String → Fields → Option Value
get_field k end = none
get_field k (field j v m) = if j == k then some v else get_field k m

-- `delete(m, k)`
unfoldable pub delete_field : String → Fields → Fields
delete_field k end = end
delete_field k (field j v m) =
    let rest = delete_field k m in if j == k then rest else field j v rest

-- `m[k] = v`
unfoldable pub set_field : String → Value → Fields → Fields
set_field k v end = field k v end
set_field k v (field j w m) = if j == k then field k v m else field j w (set_field k v m)

-- `for _, k := range ks { delete(m, k) }`
unfoldable pub delete_fields : List String → Fields → Fields
delete_fields [] m = m
delete_fields (k ∷ ks) m = delete_fields ks (delete_field k m)

pub get_field-delete_field :
    (j k : String) (m : Fields)
    → get_field j (delete_field k m) ≡ (if k == j then none else get_field j m)
unfolding get_field delete_field
get_field-delete_field j k end = ground arith
get_field-delete_field j k (field i v m) =
    ground (arith, eq_iff k j, eq_iff i k, eq_iff i j, get_field-delete_field j k m)

pub get_field-set_field :
    (j k : String) (v : Value) (m : Fields)
    → get_field j (set_field k v m) ≡ (if k == j then some v else get_field j m)
unfolding get_field set_field
get_field-set_field j k v end = refl
get_field-set_field j k v (field i w m) =
    ground (arith, eq_iff k j, eq_iff i k, eq_iff i j, get_field-set_field j k v m)
