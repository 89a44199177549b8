-- ===== src/Cluster/Namespaces.antt =====
-- The order of the targets that internal/controller/cluster_projection_controller.go resolves.
use projection.Kube.Calls.{Reply-cases}
use mathlib.Core.List.{Perm}
use projection.Prelude.Order.{sort_strings-IsSorted, sort_strings-perm_invariant, IsSorted}
use projection.Cluster.{
  live_names, selected_namespaces, resolve_selector, is_empty_list, resolve_target_namespaces,
}
use projection.Kube.World.{World}
use projection.Kube.Server.{err, Reply, ok, Server}
use projection.Prelude.{
  Option-cases, inl, sym, [], length-perm, inr, arith, ◌∷◌, ℕ, Bool-cases, ◌=ℕ=◌, refl, ap, ◌∙◌,
  length, subst, ◌≡◌, String, List,
}
use projection.Kube.Api.{ClusterProjection}

-- The cluster projection with other namespaces listed.
abbrev pub with_namespaces : ClusterProjection → List String → ClusterProjection
with_namespaces cp namespaces = record cp {
  spec = record cp.spec { destination = record cp.spec.destination { namespaces = namespaces } };
}

abbrev SortedReply : Reply (List String) → Type 0
SortedReply (ok targets) = IsSorted targets
SortedReply (err e) = Unit

is_empty_list-length : (l : List String) → is_empty_list l ≡ (length l =ℕ= 0)
is_empty_list-length [] = refl
is_empty_list-length (x ∷ l) = ground arith

is_empty_list-perm : {l m : List String} → Perm l m → is_empty_list l ≡ is_empty_list m
is_empty_list-perm {l} {m} p =
    is_empty_list-length l ∙ ap (λ (n : ℕ). n =ℕ= 0) (length-perm p) ∙ sym (is_empty_list-length m)

module _ {S : Server} (cp : ClusterProjection) (w : World S) where
  -- Two specs that list the same namespaces in different orders have the same targets, in the same
  -- order.
  resolve_target_namespaces-perm :
      (l m : List String)
      → Perm l m
      → resolve_target_namespaces (with_namespaces cp l) w
        ≡ resolve_target_namespaces (with_namespaces cp m) w
  unfolding resolve_target_namespaces
  resolve_target_namespaces-perm l m p =
      rw (is_empty_list-perm p, sort_strings-perm_invariant p) refl

  SortedReply-resolve : SortedReply (resolve_target_namespaces cp w).0
  unfolding resolve_target_namespaces resolve_selector selected_namespaces live_names
  SortedReply-resolve = elim (Bool-cases (is_empty_list cp.spec.destination.namespaces)) [
    | inr listed ↦
        rw (listed, resolve_target_namespaces)
          (sort_strings-IsSorted cp.spec.destination.namespaces)
    | inl unlisted ↦ elim (Option-cases cp.spec.destination.namespace_selector) [
      | inl none_set ↦ rw (unlisted, none_set, resolve_target_namespaces) tt
      | inr (selector, set) ↦ elim (Reply-cases (S.selectors.as_selector selector)) [
        | inl (e, bad) ↦ rw (unlisted, set, resolve_target_namespaces, resolve_selector, bad) tt
        | inr (sel, good) ↦ elim (Bool-cases (S.selectors.is_empty sel)) [
          | inl all ↦ rw (unlisted, set, resolve_target_namespaces, resolve_selector, good, all) tt
          | inr some_only ↦ elim (Reply-cases (S.list_namespaces sel w.server).0) [
            | inl (e, failed) ↦
                rw
                  (
                    unlisted, set, resolve_target_namespaces, resolve_selector, good, some_only,
                    selected_namespaces, failed,
                  )
                  tt
            | inr (namespaces, here) ↦
                rw
                  (
                    unlisted, set, resolve_target_namespaces, resolve_selector, good, some_only,
                    selected_namespaces, here,
                  )
                  (sort_strings-IsSorted _)
          ]
        ]
      ]
    ]
  ]

  -- The targets come sorted, whatever the spec lists or the apiserver returns.
  resolve_target_namespaces-IsSorted :
      (targets : List String) → (resolve_target_namespaces cp w).0 ≡ ok targets → IsSorted targets
  resolve_target_namespaces-IsSorted targets found = subst SortedReply found SortedReply-resolve
