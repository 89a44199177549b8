-- ===== src/Kube/Model.antt =====
-- The accessors of `unstructured` written out over the fields of an object, to show that what the
-- operator relies on can hold, and to run the model.
mod Nested
use projection.Kube.Model.Nested.{
  at_object, nested, put_nested, drop_nested, get_field-put_nested, get_field-drop_nested,
  drop_nested_local,
}
use projection.Prelude.{
  sym, eq_refl, ap, ◌∙◌, inr, ◌<>◌, refl, inl, ◌∷◌, none, Option-cases, if◌then◌else◌, false, ◌≡◌,
  ◌==◌, some, [], String, Option, List,
}
use projection.Kube.Value.{
  null, arr, float, int, delete_field, bool, get_field-set_field, str, set_field, obj, get_field,
  field, end, Value, Fields,
}
use projection.Prelude.Dict.{Dict}
use projection.Kube.Object.{
  annotations_field, labels_field, resource_version_field, namespace_field, same_text, same_map,
  name_field, TextField, MapField, IsLawful, field_of, as_object, map_key, text_key, HasMetadata,
  GroupVersionKind, metadata_field, metadata, Accessors,
}

-- `metadata[k] = v`, where there is a metadata map.
put_metadata : String → Value → Fields → Fields
put_metadata k v o = elim (metadata o) [
  | none ↦ o
  | some m ↦ set_field "metadata" (obj (set_field k v m)) o
]

abbrev text_of : Option Value → String
text_of (some (str s)) = s
text_of _ = ""

to_fields : Dict String → Fields
to_fields [] = end
to_fields ((k, v) ∷ m) = field k (str v) (to_fields m)

of_fields : Fields → Dict String
of_fields end = []
of_fields (field k (str v) m) = (k, v) ∷ of_fields m
of_fields (field k null m) = of_fields m
of_fields (field k (bool _) m) = of_fields m
of_fields (field k (int _ _) m) = of_fields m
of_fields (field k (float _) m) = of_fields m
of_fields (field k (arr _) m) = of_fields m
of_fields (field k (obj _) m) = of_fields m

abbrev map_of : Option Value → Option (Dict String)
map_of (some (obj m)) = some (of_fields m)
map_of _ = none

-- `apiVersion` up to its slash would be the group; the model keeps objects of the core group.
gvk_of : Fields → GroupVersionKind
gvk_of o = record {
  group = "";
  version = text_of (get_field "apiVersion" o);
  kind = text_of (get_field "kind" o);
}

unfoldable pub accessors : Accessors
unfolding put_metadata to_fields of_fields gvk_of at_object
accessors = record {
  get_text = λ i o. text_of (metadata_field (text_key i) o);
  set_text = λ i v o. put_metadata (text_key i) (str v) o;
  get_map = λ i o. map_of (metadata_field (map_key i) o);
  set_map = λ i m o. put_metadata (map_key i) (obj (to_fields m)) o;
  group_version_kind = gvk_of;
  describe = λ gvk. gvk.group <> ("/" <> (gvk.version <> (", Kind=" <> gvk.kind)));
  nested_field_copy = nested;
  set_nested_field = put_nested;
  remove_nested_field = drop_nested;
}

of_fields-to_fields : (m : Dict String) → of_fields (to_fields m) ≡ m
unfolding of_fields to_fields
of_fields-to_fields [] = refl
of_fields-to_fields ((k, v) ∷ m) = rw (of_fields-to_fields m)

metadata-put_metadata :
    (k : String) (v : Value) (o m : Fields)
    → metadata o ≡ some m
    → metadata (put_metadata k v o) ≡ some (set_field k v m)
unfolding put_metadata metadata
metadata-put_metadata k v o m found = rw (found, put_metadata) (rw get_field-set_field)

metadata_field-put_metadata :
    (j k : String) (v : Value) (o : Fields)
    → HasMetadata o
    → metadata_field j (put_metadata k v o) ≡ (if k == j then some v else metadata_field j o)
unfolding metadata_field
metadata_field-put_metadata j k v o (m, found) =
    rw (metadata-put_metadata k v o m found, found) (get_field-set_field j k v m)

get_field-put_metadata :
    (j k : String) (v : Value) (o : Fields)
    → ("metadata" == j) ≡ false
    → get_field j (put_metadata k v o) ≡ get_field j o
unfolding put_metadata
get_field-put_metadata j k v o h = elim (Option-cases (metadata o)) [
  | inl missing ↦ rw (missing, put_metadata)
  | inr (m, found) ↦ rw (found, put_metadata) (get_field-set_field j "metadata" _ o ∙ rw h)
]

-- Reading one of the two maps, or one of the texts, after a write of the metadata.
text-put_metadata :
    (i j : TextField) (v : String) (o : Fields)
    → HasMetadata o
    → text_of (metadata_field (text_key i) (put_metadata (text_key j) (str v) o))
      ≡ (if same_text i j then v else text_of (metadata_field (text_key i) o))
text-put_metadata i j v o has =
    rw (metadata_field-put_metadata (text_key i) (text_key j) (str v) o has) (texts i j)
  where
    texts :
        (i j : TextField)
        → text_of (if text_key j == text_key i then some (str v) else metadata_field (text_key i) o)
          ≡ (if same_text i j then v else text_of (metadata_field (text_key i) o))
    texts name_field name_field = refl
    texts name_field namespace_field = refl
    texts name_field resource_version_field = refl
    texts namespace_field name_field = refl
    texts namespace_field namespace_field = refl
    texts namespace_field resource_version_field = refl
    texts resource_version_field name_field = refl
    texts resource_version_field namespace_field = refl
    texts resource_version_field resource_version_field = refl

map-put_metadata :
    (i j : MapField) (m : Dict String) (o : Fields)
    → HasMetadata o
    → map_of (metadata_field (map_key i) (put_metadata (map_key j) (obj (to_fields m)) o))
      ≡ (if same_map i j then some m else map_of (metadata_field (map_key i) o))
map-put_metadata i j m o has =
    rw (metadata_field-put_metadata (map_key i) (map_key j) (obj (to_fields m)) o has) (maps i j)
  where
    maps :
        (i j : MapField)
        → map_of (
            if map_key j == map_key i
            then some (obj (to_fields m))
            else metadata_field (map_key i) o)
          ≡ (if same_map i j then some m else map_of (metadata_field (map_key i) o))
    maps labels_field labels_field = ap some (of_fields-to_fields m)
    maps labels_field annotations_field = refl
    maps annotations_field labels_field = refl
    maps annotations_field annotations_field = ap some (of_fields-to_fields m)

text_key-eq_map_key : (i : TextField) (j : MapField) → (text_key i == map_key j) ≡ false
text_key-eq_map_key name_field labels_field = refl
text_key-eq_map_key name_field annotations_field = refl
text_key-eq_map_key namespace_field labels_field = refl
text_key-eq_map_key namespace_field annotations_field = refl
text_key-eq_map_key resource_version_field labels_field = refl
text_key-eq_map_key resource_version_field annotations_field = refl

map_key-eq_text_key : (i : TextField) (j : MapField) → (map_key j == text_key i) ≡ false
map_key-eq_text_key name_field labels_field = refl
map_key-eq_text_key name_field annotations_field = refl
map_key-eq_text_key namespace_field labels_field = refl
map_key-eq_text_key namespace_field annotations_field = refl
map_key-eq_text_key resource_version_field labels_field = refl
map_key-eq_text_key resource_version_field annotations_field = refl

-- A write of the metadata leaves the keys that it does not name.
metadata_field_kept :
    (j k : String) (v : Value) (o : Fields)
    → HasMetadata o
    → (k == j) ≡ false
    → metadata_field j (put_metadata k v o) ≡ metadata_field j o
metadata_field_kept j k v o has e = metadata_field-put_metadata j k v o has ∙ rw e

gvk_of_local :
    (o p : Fields)
    → get_field "apiVersion" o ≡ get_field "apiVersion" p
    → get_field "kind" o ≡ get_field "kind" p
    → gvk_of o ≡ gvk_of p
unfolding gvk_of
gvk_of_local o p v k = rw (v, k)

-- The accessors of the model do what the operator relies on.
pub accessors-IsLawful : IsLawful accessors
unfolding accessors
accessors-IsLawful = record {
  get_text-set_text = text-put_metadata;
  get_text-set_map =
      λ i j m o has. ap text_of (metadata_field_kept _ _ _ o has (map_key-eq_text_key i j));
  get_map-set_text =
      λ i j v o has. ap map_of (metadata_field_kept _ _ _ o has (text_key-eq_map_key j i));
  get_map-set_map = map-put_metadata;
  metadata_field-set_text = λ k i v o has e. metadata_field_kept k _ _ o has e;
  metadata_field-set_map = λ k i m o has e. metadata_field_kept k _ _ o has e;
  set_text-HasMetadata = λ i v o (m, found). (_, metadata-put_metadata _ _ o m found);
  set_map-HasMetadata = λ i d o (m, found). (_, metadata-put_metadata _ _ o m found);
  get_field-set_text = λ k i v o e. get_field-put_metadata k _ _ o e;
  get_field-set_map = λ k i m o e. get_field-put_metadata k _ _ o e;
  get_text_local = λ i o p e. ap text_of e;
  get_map_local = λ i o p e. ap map_of e;
  group_version_kind_local = gvk_of_local;
  get_field-set_nested_field = λ k h v path o e. get_field-put_nested k h v path o e;
  get_field-remove_nested_field = λ k h path o e. get_field-drop_nested k h path o e;
  remove_nested_field_local = λ h path o p same. drop_nested_local h path o p same;
}
