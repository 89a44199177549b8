-- ===== src/Destination/Drift.antt =====
-- What `needsUpdate` of internal/controller/destination.go compares.
use projection.Kube.Diff.{deep_equal, maps_equal}
use projection.Prelude.{
  eq_iff, subst, inr, ◌↔◌, inl, Bool-cases, refl, [], ◌∷◌, ◌||◌, arith, ◌==◌, true, false, ◌≡◌,
  contains, Bool, String, List,
}
use projection.Destination.{needs_update, index_field, keys_of, differs}
use projection.Kube.Value.{end, field, null, get_field, Fields}
use projection.Kube.Object.{annotations_field, labels_field, Accessors}

-- Labels and annotations are equal, and so is every field of either object but metadata and status.
abbrev pub HasNoDrift : Accessors → Fields → Fields → Type 0
HasNoDrift a existing desired =
    (maps_equal (a.get_map labels_field existing) (a.get_map labels_field desired) ≡ true)
    × (maps_equal (a.get_map annotations_field existing) (a.get_map annotations_field desired)
        ≡ true)
    × ((k : String)
        → (k == "metadata"
            || (k == "status" || deep_equal (index_field k existing) (index_field k desired)))
          ≡ true)

abbrev agree_at : Fields → Fields → String → Bool
agree_at o p k =
    k == "metadata" || (k == "status" || deep_equal (index_field k o) (index_field k p))

differs-false :
    (ks : List String) (o p : Fields)
    → differs ks o p ≡ false
    → (k : String) → contains ks k ≡ true
    → agree_at o p k ≡ true
unfolding differs
differs-false [] o p h k c = absurd (ground (arith, c))
differs-false (x ∷ ks) o p h k c = elim (Bool-cases (x == k)) [
  | inl same ↦
      subst (λ (j : String). agree_at o p j ≡ true) {x = x} {y = k}
        (ground (arith, same, eq_iff x k)) (ground (arith, h))
  | inr other ↦ differs-false ks o p (ground (arith, h)) k (ground (arith, c, other))
]

differs-agree :
    (ks : List String) (o p : Fields)
    → ((k : String) → agree_at o p k ≡ true)
    → differs ks o p ≡ false
unfolding differs
differs-agree [] o p h = refl
differs-agree (x ∷ ks) o p h = ground (arith, h x, differs-agree ks o p h)

the_other : (j k : String) (ks : List String) → contains (j ∷ ks) k ≡ false → (j == k) ≡ false
the_other j k ks h = ground (arith, h)

get_field-keys_of :
    (k : String) (o : Fields) → contains (keys_of o) k ≡ false → index_field k o ≡ null
unfolding get_field
get_field-keys_of k end h = refl
get_field-keys_of k (field j v o) h =
    rw (index_field, the_other j k (keys_of o) h) (get_field-keys_of k o (ground (arith, h)))

deep_equal-null : deep_equal null null ≡ true
unfolding deep_equal
deep_equal-null = refl

module _ (a : Accessors) (existing desired : Fields) where
  no_field_differs :
      differs (keys_of existing) existing desired ≡ false
      → differs (keys_of desired) existing desired ≡ false
      → (k : String) → agree_at existing desired k ≡ true
  no_field_differs e f k = elim (Bool-cases (contains (keys_of existing) k)) [
    | inl there ↦ differs-false _ existing desired e k there
    | inr not_there ↦ elim (Bool-cases (contains (keys_of desired) k)) [
      | inl wanted ↦ differs-false _ existing desired f k wanted
      | inr unwanted ↦
          rw (get_field-keys_of k existing not_there, get_field-keys_of k desired unwanted)
            (ground (arith, deep_equal-null))
    ]
  ]

  -- `needsUpdate` is false just where the two objects' labels are equal, their annotations are equal,
  -- and so are their values at every key at the top but `metadata` and `status`, a missing key
  -- counting as null.
  pub needs_update-HasNoDrift :
      (needs_update a existing desired ≡ false) ↔ HasNoDrift a existing desired
  unfolding needs_update
  needs_update-HasNoDrift = (
    λ none_needed. (
      ground (arith, none_needed),
      ground (arith, none_needed),
      no_field_differs (ground (arith, none_needed)) (ground (arith, none_needed)),
    ),
    λ (labels, annotations, fields). ground (
      arith,
      labels,
      annotations,
      differs-agree (keys_of existing) existing desired fields,
      differs-agree (keys_of desired) existing desired fields,
    ),
  )
