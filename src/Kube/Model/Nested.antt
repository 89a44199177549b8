-- ===== src/Kube/Model/Nested.antt =====
-- Nested reads, writes and removals over the fields of an object, for paths of two keys.
use projection.Prelude.{
  sym, eq_refl, ap, ◌∙◌, inr, refl, inl, ◌∷◌, none, Option-cases, false, ◌≡◌, ◌==◌, some, [],
  String, Option, List,
}
use projection.Kube.Value.{
  delete_field, get_field-set_field, set_field, obj, get_field, Value, Fields,
}
use projection.Kube.Object.{field_of, as_object}

-- A path of two keys, which is the depth of most paths of the table.
abbrev pub nested : Fields → List String → Option Value
nested o (h ∷ k ∷ []) = field_of (as_object (get_field h o)) k
nested o _ = none

-- `f` on the map at a field, where there is one.
unfoldable pub at_object : String → (Fields → Fields) → Fields → Fields
at_object h f o = elim (as_object (get_field h o)) [ none ↦ o | some m ↦ set_field h (obj (f m)) o ]

abbrev pub put_nested : Value → List String → Fields → Fields
put_nested v (h ∷ k ∷ []) o = at_object h (set_field k v) o
put_nested v _ o = o

abbrev pub drop_nested : List String → Fields → Fields
drop_nested (h ∷ k ∷ []) o = at_object h (delete_field k) o
drop_nested _ o = o

get_field-at_object :
    (k h : String) (f : Fields → Fields) (o : Fields)
    → (h == k) ≡ false
    → get_field k (at_object h f o) ≡ get_field k o
unfolding at_object
get_field-at_object k h f o e = elim (Option-cases (as_object (get_field h o))) [
  | inl missing ↦ rw (missing, at_object)
  | inr (m, found) ↦ rw (found, at_object) (get_field-set_field k h (obj (f m)) o ∙ rw e)
]

pub get_field-put_nested :
    (k h : String) (v : Value) (path : List String) (o : Fields)
    → (h == k) ≡ false
    → get_field k (put_nested v (h ∷ path) o) ≡ get_field k o
get_field-put_nested k h v [] o e = refl
get_field-put_nested k h v (j ∷ []) o e = get_field-at_object k h (set_field j v) o e
get_field-put_nested k h v (j ∷ i ∷ path) o e = refl

pub get_field-drop_nested :
    (k h : String) (path : List String) (o : Fields)
    → (h == k) ≡ false
    → get_field k (drop_nested (h ∷ path) o) ≡ get_field k o
get_field-drop_nested k h [] o e = refl
get_field-drop_nested k h (j ∷ []) o e = get_field-at_object k h (delete_field j) o e
get_field-drop_nested k h (j ∷ i ∷ path) o e = refl

-- The value at a field after `at_object`.
changed : (Fields → Fields) → Option Value → Option Value
changed f v = elim (as_object v) [ none ↦ v | some m ↦ some (obj (f m)) ]

get_field-at_object_same :
    (h : String) (f : Fields → Fields) (o : Fields)
    → get_field h (at_object h f o) ≡ changed f (get_field h o)
unfolding at_object changed
get_field-at_object_same h f o = elim (Option-cases (as_object (get_field h o))) [
  | inl missing ↦ rw (at_object, changed, missing) refl
  | inr (m, found) ↦
      rw (at_object, changed, found) (get_field-set_field h h (obj (f m)) o ∙ rw (eq_refl h) refl)
]

pub drop_nested_local :
    (h : String) (path : List String) (o p : Fields)
    → get_field h o ≡ get_field h p
    → get_field h (drop_nested (h ∷ path) o) ≡ get_field h (drop_nested (h ∷ path) p)
drop_nested_local h [] o p same = same
drop_nested_local h (k ∷ []) o p same =
    get_field-at_object_same h (delete_field k) o
    ∙ ap (changed (delete_field k)) same
    ∙ sym (get_field-at_object_same h (delete_field k) p)
drop_nested_local h (k ∷ j ∷ path) o p same = same
