-- ===== src/Cluster/NamespaceEvents.antt =====
-- The handler of namespace events of internal/controller/cluster_projection_controller.go, against the
-- targets that a reconcile resolves.
use projection.Kube.Calls.{Reply-cases}
use projection.Watches.{cluster_projection_request}
use projection.Prelude.Text.{sort_strings-perm}
use projection.Kube.Api.{ClusterProjection}
use projection.Cluster.{
  is_empty_list, selector_matches, concerns, selected_namespaces, resolve_selector,
  matching_cluster_projection_requests, resolve_target_namespaces, map_namespace, live_names,
}
use projection.Kube.World.{World}
use projection.Prelude.{
  or_left_comm, Option-cases, inl, inr, eq_refl, Bool-cases, ap, ◌∙◌, none, contains-perm, refl,
  false, ◌||◌, arith, [], ◌∷◌, ◌==◌, map, ◌&&◌, select, contains, ◌≡◌, not, String, List, Bool,
}
use projection.Kube.Server.{err, ok, Server, Reply, Namespace}
use mathlib.Core.Bool.{Bool-set}
use mathlib.Core.List.Perm
use mathlib.Core.List.{Perm}

-- The namespaces that the apiserver holds, and what it lists: those whose labels the selector matches,
-- in some order. No list of namespaces fails.
pub record ListsNamespaces (S : Server) : Type 0 where
  pub stored : S.State → List Namespace
  pub listed :
      (sel : S.selectors.Selector) (state : S.State)
      → (items : List Namespace) × ((S.list_namespaces sel state).0 ≡ ok items)
        × Perm items (select (λ n. S.selectors.matches sel n.labels) (stored state))

abbrev pub targets_of : Reply (List String) → List String
targets_of (ok targets) = targets
targets_of (err e) = []

-- One of the list passes the test and has the name.
abbrev has_named : (Namespace → Bool) → String → List Namespace → Bool
has_named p k xs =
    mathlib.Core.List.foldr (λ (m : Namespace) (b : Bool). (p m && m.name == k) || b) false xs

contains-has_named :
    (p : Namespace → Bool) (k : String) (xs : List Namespace)
    → contains (map (λ n. n.name) (select p xs)) k ≡ has_named p k xs
contains-has_named p k [] = refl
contains-has_named p k (x ∷ xs) = ground (arith, contains-has_named p k xs)

has_named-perm :
    (p : Namespace → Bool) (k : String) {xs ys : List Namespace}
    → Perm xs ys
    → has_named p k xs ≡ has_named p k ys
has_named-perm p k perm =
    Perm.foldr-eq Bool-set (λ (m : Namespace) (b : Bool). (p m && m.name == k) || b)
      (λ x y b. or_left_comm (p x && x.name == k) (p y && y.name == k) b) perm false

abbrev live : Namespace → Bool
live n = not n.is_terminating

-- Where one namespace has the name, the selected and live ones include the name just where that one is
-- selected and live.
has_named-select :
    (q : Namespace → Bool) (k : String) (xs : List Namespace)
    → has_named live k (select q xs) ≡ has_named (λ m. q m && live m) k xs
has_named-select q k [] = refl
has_named-select q k (x ∷ xs) = ground (arith, has_named-select q k xs)

has_named-only :
    (q : Namespace → Bool) (k : String) (xs : List Namespace)
    → has_named q k xs ≡ has_named q k (select (λ m. m.name == k) xs)
has_named-only q k [] = refl
has_named-only q k (x ∷ xs) = ground (arith, has_named-only q k xs)

module _ {S : Server} (lists : ListsNamespaces S) (n : Namespace) (w : World S)
    (alive : n.is_terminating ≡ false)
    (only : select (λ m. m.name == n.name) (lists.stored w.server) ≡ n ∷ []) where
  -- Among the live namespaces that a list returned is this one just where the selector matches it.
  contains-live_names :
      (sel : S.selectors.Selector) (items : List Namespace)
      → Perm items (select (λ m. S.selectors.matches sel m.labels) (lists.stored w.server))
      → contains (live_names items) n.name ≡ S.selectors.matches sel n.labels
  unfolding live_names
  contains-live_names sel items perm =
      let q : Namespace → Bool = λ m. S.selectors.matches sel m.labels in
      let held = lists.stored w.server in
      contains-perm n.name (sort_strings-perm (map (λ m. m.name) (select live items)))
      ∙ contains-has_named live n.name items
      ∙ has_named-perm live n.name perm
      ∙ has_named-select q n.name held
      ∙ has_named-only (λ m. q m && live m) n.name held
      ∙ ap (has_named (λ m. q m && live m) n.name) only
      ∙ ground (arith, alive, eq_refl n.name)

  -- The event concerns a cluster projection just where the namespace is among its targets.
  contains-targets :
      (cp : ClusterProjection)
      → contains (targets_of (resolve_target_namespaces cp w).0) n.name
        ≡ concerns S.selectors n.name n.labels cp
  unfolding resolve_target_namespaces resolve_selector selected_namespaces concerns selector_matches
  contains-targets cp = elim (Bool-cases (is_empty_list cp.spec.destination.namespaces)) [
    | inr listed ↦
        rw listed (contains-perm n.name (sort_strings-perm cp.spec.destination.namespaces))
    | inl unlisted ↦ elim (Option-cases cp.spec.destination.namespace_selector) [
      | inl unset ↦ rw (unlisted, unset) refl
      | inr (selector, set) ↦ elim (Reply-cases (S.selectors.as_selector selector)) [
        | inl (e, bad) ↦ rw (unlisted, set, resolve_selector, selector_matches, bad) refl
        | inr (sel, good) ↦ elim (Bool-cases (S.selectors.is_empty sel)) [
          | inl all ↦ rw (unlisted, set, resolve_selector, selector_matches, good, all) refl
          | inr some_only ↦
              let (items, here, perm) = lists.listed sel w.server in
              rw
                (
                  unlisted, set, resolve_selector, selector_matches, good, some_only,
                  selected_namespaces, here,
                )
                (contains-live_names sel items perm)
        ]
      ]
    ]
  ]

  matching-targets :
      (cps : List ClusterProjection)
      → matching_cluster_projection_requests S.selectors n.name n.labels cps
        ≡ map cluster_projection_request
            (select (λ cp. contains (targets_of (resolve_target_namespaces cp w).0) n.name) cps)
  unfolding matching_cluster_projection_requests
  matching-targets [] = refl
  matching-targets (cp ∷ cps) = elim (Bool-cases (concerns S.selectors n.name n.labels cp)) [
    | inl yes_it ↦ rw (contains-targets cp, yes_it, matching-targets cps) refl
    | inr not_it ↦ rw (contains-targets cp, not_it, matching-targets cps) refl
  ]

  -- An event on a namespace that the apiserver holds, once and not being deleted, enqueues the listed
  -- cluster projections among whose targets it is, each once, in the order of the list, and no other: the
  -- targets are those that a reconcile would resolve then, where no list of namespaces fails.
  pub map_namespace-targets :
      (items : List ClusterProjection)
      → (S.list_cluster_projections none w.server).0 ≡ ok items
      → (map_namespace n.name n.labels w).0
        ≡ map cluster_projection_request
            (select (λ cp. contains (targets_of (resolve_target_namespaces cp w).0) n.name) items)
  unfolding map_namespace matching_cluster_projection_requests
  map_namespace-targets items found = rw (map_namespace, found) (matching-targets items)
