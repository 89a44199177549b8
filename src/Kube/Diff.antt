-- ===== src/Kube/Diff.antt =====
-- `reflect.DeepEqual` on decoded values and on the string maps of an object's metadata.
use projection.Prelude.{
  ℕ, ◌+◌, ◌^◌, ◌≡◌, Bool, true, false, ◌&&◌, ◌||◌, Option, none, some, [], ◌∷◌, String, ◌==◌, ◌=ℕ=◌,
  length,
}
use projection.Prelude.Dict.{Dict, lookup}
use projection.Kube.Value.{
  Value, null, bool, int, float, str, arr, obj, Items, nil, item, Fields, end, field, get_field,
}

abbrev is_zero : ℕ → Bool
is_zero bits = (bits =ℕ= 0) || (bits =ℕ= 2 ^ 63)

-- `==` on floats: the two zeros are equal, and a decoded object holds no NaN.
abbrev float_equal : ℕ → ℕ → Bool
float_equal a b = (a =ℕ= b) || (is_zero a && is_zero b)

abbrev same_bool : Bool → Bool → Bool
same_bool true b = b
same_bool false true = false
same_bool false false = true

abbrev size : Fields → ℕ
size end = 0
size (field k v m) = size m + 1

unfoldable mutual
  pub deep_equal : Value → Value → Bool
  deep_equal null b = elim b [ null ↦ true | _ ↦ false ]
  deep_equal (bool x) b = elim b [ bool y ↦ same_bool x y | _ ↦ false ]
  deep_equal (int s x) b = elim b [ int t y ↦ same_bool s t && (x =ℕ= y) | _ ↦ false ]
  deep_equal (float x) b = elim b [ float y ↦ float_equal x y | _ ↦ false ]
  deep_equal (str x) b = elim b [ str y ↦ x == y | _ ↦ false ]
  deep_equal (arr xs) b = elim b [ arr ys ↦ items_equal xs ys | _ ↦ false ]
  deep_equal (obj m) b = elim b [ obj n ↦ (size m =ℕ= size n) && fields_within m n | _ ↦ false ]

  items_equal : Items → Items → Bool
  items_equal nil ys = elim ys [ nil ↦ true | _ ↦ false ]
  items_equal (item x xs) ys = elim ys [
    | item y rest ↦ deep_equal x y && items_equal xs rest
    | _ ↦ false
  ]

  -- Every key of the first map is in the second, with an equal value.
  fields_within : Fields → Fields → Bool
  fields_within end n = true
  fields_within (field k v m) n = elim (get_field k n) [
    | none ↦ false
    | some w ↦ deep_equal v w && fields_within m n
  ]

-- Every key of the first map is in the second, with the same text.
unfoldable pub dict_within : Dict String → Dict String → Bool
dict_within [] n = true
dict_within ((k, v) ∷ m) n = elim (lookup k n) [
  | none ↦ false
  | some w ↦ (v == w) && dict_within m n
]

-- `reflect.DeepEqual` on two `map[string]string`, each of which may be nil.
unfoldable pub maps_equal : Option (Dict String) → Option (Dict String) → Bool
unfolding dict_within
maps_equal none none = true
maps_equal none (some n) = false
maps_equal (some m) none = false
maps_equal (some m) (some n) = (length m =ℕ= length n) && dict_within m n

-- A Go map holds each key once.
abbrev pub HasNodupKeys : Fields → Type 0
HasNodupKeys end = Unit
HasNodupKeys (field k v m) = (get_field k m ≡ none) × HasNodupKeys m
