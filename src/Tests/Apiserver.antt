-- ===== src/Tests/Apiserver.antt =====
-- An apiserver that keeps its objects in a list, and its helpers, with what is documented of them.
use projection.Destination.Write.Isolation.{IsIsolated}
use projection.Reconcile.Calls.{ServesObjects}
use projection.Kube.Model.{accessors}
use projection.Kube.Object.{GroupVersionKind, name_field, namespace_field, metadata, HasMetadata}
use projection.Kube.Value.{Fields}
use projection.Kube.Api.{LabelSelector, Condition}
use projection.Prelude.{
  ap, subst, Bool-cases, inr, inl, Option-cases, ◌&&◌, refl, none, eq_iff, ◌==◌, some, not, [], ◌≡◌,
  ◌∷◌, select, if◌then◌else◌, eq_refl, Bool, true, false, contains, arith, String, Option, List,
}
use projection.Conditions.Agreement.{condition_at, IsDocumented}
use projection.Kube.Server.{err, ok, Reply, Server, Selectors, Helpers, Error}

-- The objects, and whether reads and deletes of them fail.
pub record Store : Type 0 where
  pub objects : List Fields
  pub is_down : Bool

abbrev pub unavailable : Error
unavailable = record { is_not_found = false; message = "unavailable" }

abbrev pub missing : Error
missing = record { is_not_found = true; message = "not found" }

abbrev pub keep_going : Option Fields → Bool → Fields → Reply Fields → Reply Fields
keep_going none here o rest = rest
keep_going (some m) here o rest = if here then ok o else rest

-- The first object with metadata at the coordinates.
abbrev pub find_object : String → String → List Fields → Reply Fields
find_object namespace name [] = err missing
find_object namespace name (o ∷ os) =
    keep_going (metadata o)
      (accessors.get_text namespace_field o == namespace && accessors.get_text name_field o == name)
      o (find_object namespace name os)

abbrev pub fetch_object : String → String → Store → Reply Fields × Store
fetch_object namespace name s =
    (if s.is_down then err unavailable else find_object namespace name s.objects, s)

-- A selector that matches everything.
abbrev pub any_labels : Selectors
any_labels = record {
  Selector = LabelSelector;
  as_selector = ok;
  is_empty = λ _. true;
  matches = λ _ _. true;
}

abbrev pub server : Server
server = record {
  State = Store;
  selectors = any_labels;
  get = λ _ namespace name s. fetch_object namespace name s;
  create = λ o s. (ok o, record s { objects = o ∷ s.objects });
  update = λ o s. (ok o, record s { objects = o ∷ s.objects });
  get_resource = λ _ namespace name s. fetch_object namespace name s;
  list_resource = λ _ _ s. (ok s.objects, s);
  delete_resource = λ _ _ _ s. (ok tt, s);
  get_projection = λ _ _ s. (err missing, s);
  update_projection = λ p s. (ok p, s);
  update_projection_status = λ p s. (ok p, s);
  list_projections = λ _ _ s. (ok [], s);
  get_cluster_projection = λ _ s. (err missing, s);
  update_cluster_projection = λ p s. (ok p, s);
  update_cluster_projection_status = λ p s. (ok p, s);
  list_cluster_projections = λ _ s. (ok [], s);
  list_namespaces = λ _ s. (ok [], s);
  watch = λ _ s. (ok tt, s);
}

abbrev value_or : Fields → Reply Fields → Fields
value_or o (ok p) = p
value_or o (err e) = o

-- What the store returns has metadata.
find_object-HasMetadata :
    (namespace name : String) (os : List Fields) (o : Fields)
    → find_object namespace name os ≡ ok o
    → HasMetadata o
find_object-HasMetadata namespace name [] o found =
    absurd {A = HasMetadata o} (ground (arith, found))
find_object-HasMetadata namespace name (x ∷ xs) o found = elim (Option-cases (metadata x)) [
  | inl bare ↦ find_object-HasMetadata namespace name xs o (rw bare at found)
  | inr (m, has) ↦
      elim (Bool-cases (
        accessors.get_text namespace_field x == namespace
        && accessors.get_text name_field x == name)) [
          | inl here ↦ subst HasMetadata (ap (value_or x) (rw (has, here) at found)) (m, has)
          | inr elsewhere ↦
              find_object-HasMetadata namespace name xs o (rw (has, elsewhere) at found)
        ]
]

-- An object in another namespace is passed over.
find_object-other :
    (ns name : String) (o : Fields) (os : List Fields)
    → (accessors.get_text namespace_field o == ns) ≡ false
    → find_object ns name (o ∷ os) ≡ find_object ns name os
find_object-other ns name o os other = elim (Option-cases (metadata o)) [
  | inl bare ↦ rw bare
  | inr (m, has) ↦ rw (has, other)
]

fetch_object-other :
    (ns name : String) (o : Fields) (s : Store)
    → (accessors.get_text namespace_field o == ns) ≡ false
    → (fetch_object ns name (record s { objects = o ∷ s.objects })).0 ≡ (fetch_object ns name s).0
fetch_object-other ns name o s other =
    ap (λ (found : Reply Fields). if s.is_down then err unavailable else found)
      (find_object-other ns name o s.objects other)

pub server-IsIsolated :
    (gvk : GroupVersionKind) (name : String) → IsIsolated server accessors gvk name
server-IsIsolated gvk name = record {
  get_keeps = λ ns s. refl;
  get-create = λ ns o s other. fetch_object-other ns name o s other;
  get-update = λ ns o s other. fetch_object-other ns name o s other;
}

-- `SetStatusCondition`: replaces the condition of the type, or appends it.
abbrev pub set_condition_in : List Condition → Condition → List Condition
set_condition_in [] c = c ∷ []
set_condition_in (x ∷ xs) c =
    let rest = set_condition_in xs c in
    if x.condition_type == c.condition_type then c ∷ xs else x ∷ rest

abbrev pub helpers : Helpers
helpers = record {
  contains_finalizer = contains;
  add_finalizer = λ fs f. if contains fs f then fs else f ∷ fs;
  remove_finalizer = λ fs f. select (λ x. not (x == f)) fs;
  set_status_condition = set_condition_in;
}

condition_at-set_condition_in :
    (t : String) (cs : List Condition) (c : Condition)
    → condition_at t (set_condition_in cs c)
      ≡ (if c.condition_type == t then some c else condition_at t cs)
condition_at-set_condition_in t [] c = refl
condition_at-set_condition_in t (x ∷ xs) c = ground (
  arith,
  eq_iff x.condition_type t,
  eq_iff c.condition_type t,
  eq_iff x.condition_type c.condition_type,
  condition_at-set_condition_in t xs c,
)

contains-select :
    (fs : List String) (f : String) → contains (select (λ x. not (x == f)) fs) f ≡ false
contains-select [] f = refl
contains-select (x ∷ fs) f = ground (arith, contains-select fs f)

pub helpers-IsDocumented : IsDocumented helpers
helpers-IsDocumented = record {
  condition_at-set = condition_at-set_condition_in;
  contains-add = λ fs f. ground (arith, eq_refl f);
  contains-remove = contains-select;
}

pub server-ServesObjects : ServesObjects server
server-ServesObjects gvr namespace name s o found = elim (Bool-cases s.is_down) [
  | inl down ↦ absurd {A = HasMetadata o} (ground (arith, found, down))
  | inr up ↦ find_object-HasMetadata namespace name s.objects o (rw up at found)
]
