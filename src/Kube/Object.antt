-- ===== src/Kube/Object.antt =====
-- The accessors of `unstructured.Unstructured` (k8s.io/apimachinery), which the operator calls: an
-- interface over an object's fields, with what the operator relies on.
use projection.Prelude.{
  ◌≡◌, Bool, true, false, Option, none, some, List, ◌∷◌, String, ◌==◌, if◌then◌else◌,
}
use projection.Prelude.Dict.{Dict}
use projection.Kube.Value.{Value, null, bool, int, float, str, arr, obj, Fields, get_field}

-- `schema.GroupVersionKind`
pub record GroupVersionKind : Type 0 where
  pub group : String
  pub version : String
  pub kind : String

-- `GetName`, `GetNamespace` and `GetResourceVersion` read these, and the setters write them.
pub data TextField : Type 0 where
  name_field namespace_field resource_version_field : TextField

-- `GetLabels` and `GetAnnotations` read these, and the setters write them.
pub data MapField : Type 0 where
  labels_field annotations_field : MapField

abbrev pub same_text : TextField → TextField → Bool
same_text name_field name_field = true
same_text namespace_field namespace_field = true
same_text resource_version_field resource_version_field = true
same_text _ _ = false

abbrev pub same_map : MapField → MapField → Bool
same_map labels_field labels_field = true
same_map annotations_field annotations_field = true
same_map _ _ = false

-- The key under `metadata`.
abbrev pub text_key : TextField → String
text_key name_field = "name"
text_key namespace_field = "namespace"
text_key resource_version_field = "resourceVersion"

abbrev pub map_key : MapField → String
map_key labels_field = "labels"
map_key annotations_field = "annotations"

-- `metadata, ok := o["metadata"].(map[string]interface{})`
abbrev pub as_object : Option Value → Option Fields
as_object none = none
as_object (some (obj m)) = some m
as_object (some null) = none
as_object (some (bool b)) = none
as_object (some (int s n)) = none
as_object (some (float n)) = none
as_object (some (str s)) = none
as_object (some (arr xs)) = none

unfoldable pub metadata : Fields → Option Fields
metadata o = as_object (get_field "metadata" o)

abbrev pub field_of : Option Fields → String → Option Value
field_of none k = none
field_of (some m) k = get_field k m

unfoldable pub metadata_field : String → Fields → Option Value
metadata_field k o = field_of (metadata o) k

abbrev pub HasMetadata : Fields → Type 0
HasMetadata o = (m : Fields) × (metadata o ≡ some m)

pub record Accessors : Type 0 where
  pub get_text : TextField → Fields → String
  pub set_text : TextField → String → Fields → Fields
  pub get_map : MapField → Fields → Option (Dict String)
  pub set_map : MapField → Dict String → Fields → Fields
  pub group_version_kind : Fields → GroupVersionKind
  -- `GroupVersionKind.String`
  pub describe : GroupVersionKind → String
  -- `none` stands for an error and for a path that is not there alike.
  pub nested_field_copy : Fields → List String → Option Value
  -- The object afterwards, whether or not an error came back.
  pub set_nested_field : Value → List String → Fields → Fields
  pub remove_nested_field : List String → Fields → Fields

-- What the library documents of the accessors, on objects that have a `metadata` map.
pub record IsLawful (a : Accessors) : Type 0 where
  pub get_text-set_text :
      (i j : TextField) (v : String) (o : Fields)
      → HasMetadata o
      → a.get_text i (a.set_text j v o) ≡ (if same_text i j then v else a.get_text i o)
  pub get_text-set_map :
      (i : TextField) (j : MapField) (m : Dict String) (o : Fields)
      → HasMetadata o
      → a.get_text i (a.set_map j m o) ≡ a.get_text i o
  pub get_map-set_text :
      (i : MapField) (j : TextField) (v : String) (o : Fields)
      → HasMetadata o
      → a.get_map i (a.set_text j v o) ≡ a.get_map i o
  pub get_map-set_map :
      (i j : MapField) (m : Dict String) (o : Fields)
      → HasMetadata o
      → a.get_map i (a.set_map j m o) ≡ (if same_map i j then some m else a.get_map i o)
  pub metadata_field-set_text :
      (k : String) (i : TextField) (v : String) (o : Fields)
      → HasMetadata o
      → (text_key i == k) ≡ false
      → metadata_field k (a.set_text i v o) ≡ metadata_field k o
  pub metadata_field-set_map :
      (k : String) (i : MapField) (m : Dict String) (o : Fields)
      → HasMetadata o
      → (map_key i == k) ≡ false
      → metadata_field k (a.set_map i m o) ≡ metadata_field k o
  pub set_text-HasMetadata :
      (i : TextField) (v : String) (o : Fields) → HasMetadata o → HasMetadata (a.set_text i v o)
  pub set_map-HasMetadata :
      (i : MapField) (m : Dict String) (o : Fields) → HasMetadata o → HasMetadata (a.set_map i m o)
  pub get_field-set_text :
      (k : String) (i : TextField) (v : String) (o : Fields)
      → ("metadata" == k) ≡ false
      → get_field k (a.set_text i v o) ≡ get_field k o
  pub get_field-set_map :
      (k : String) (i : MapField) (m : Dict String) (o : Fields)
      → ("metadata" == k) ≡ false
      → get_field k (a.set_map i m o) ≡ get_field k o
  -- The getters read nothing but their own key of the metadata.
  pub get_text_local :
      (i : TextField) (o p : Fields)
      → metadata_field (text_key i) o ≡ metadata_field (text_key i) p
      → a.get_text i o ≡ a.get_text i p
  pub get_map_local :
      (i : MapField) (o p : Fields)
      → metadata_field (map_key i) o ≡ metadata_field (map_key i) p
      → a.get_map i o ≡ a.get_map i p
  -- The kind is read from two fields at the top.
  pub group_version_kind_local :
      (o p : Fields)
      → get_field "apiVersion" o ≡ get_field "apiVersion" p
      → get_field "kind" o ≡ get_field "kind" p
      → a.group_version_kind o ≡ a.group_version_kind p
  -- A nested write touches the field at the head of its path and no other.
  pub get_field-set_nested_field :
      (k h : String) (v : Value) (path : List String) (o : Fields)
      → (h == k) ≡ false
      → get_field k (a.set_nested_field v (h ∷ path) o) ≡ get_field k o
  pub get_field-remove_nested_field :
      (k h : String) (path : List String) (o : Fields)
      → (h == k) ≡ false
      → get_field k (a.remove_nested_field (h ∷ path) o) ≡ get_field k o
  -- A nested removal reads nothing but that field.
  pub remove_nested_field_local :
      (h : String) (path : List String) (o p : Fields)
      → get_field h o ≡ get_field h p
      → get_field h (a.remove_nested_field (h ∷ path) o)
        ≡ get_field h (a.remove_nested_field (h ∷ path) p)
