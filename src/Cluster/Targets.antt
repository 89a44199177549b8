-- ===== src/Cluster/Targets.antt =====
-- The target namespaces of internal/controller/cluster_projection_controller.go.
use projection.Kube.Calls.{Reply-cases}
use projection.Prelude.Text.{sort_strings-perm}
use mathlib.Core.List.{Perm}
use projection.Cluster.{
  live_names, selected_namespaces, resolve_selector, resolve_target_namespaces, is_empty_list,
}
use projection.Kube.World.{World}
use projection.Kube.Api.{LabelSelector, ClusterProjection}
use projection.Kube.Server.{Namespace, err, ok, Server, Reply}
use projection.Prelude.{
  not, some, select, map, Option-cases, ◌⊎◌, subst, inl, inr, Bool-cases, refl, ap, ◌∷◌, arith,
  true, false, [], ◌≢◌, ◌≡◌, String, List,
}

-- `targets` are the listed namespaces, or those that a selector selects and that are not being
-- deleted, for a selector that does not match everything.
abbrev pub IsTargets : (S : Server) → ClusterProjection → World S → List String → Type 0
IsTargets S cp w targets =
    ((cp.spec.destination.namespaces ≢ []) × Perm targets cp.spec.destination.namespaces)
    ⊎ ((cp.spec.destination.namespaces ≡ [])
        × ((selector : LabelSelector) × (sel : S.selectors.Selector) × (namespaces : List Namespace)
            × (cp.spec.destination.namespace_selector ≡ some selector)
            × (S.selectors.as_selector selector ≡ ok sel)
            × (S.selectors.is_empty sel ≡ false)
            × ((S.list_namespaces sel w.server).0 ≡ ok namespaces)
            × Perm targets (map (λ n. n.name) (select (λ n. not n.is_terminating) namespaces))))

value_of : Reply (List String) → List String
value_of (ok xs) = xs
value_of (err e) = []

is_empty_list-true : (xs : List String) → is_empty_list xs ≡ true → xs ≡ []
is_empty_list-true [] h = refl
is_empty_list-true (x ∷ xs) h = ground (arith, h)

is_empty_list-false : (xs : List String) → is_empty_list xs ≡ false → xs ≢ []
is_empty_list-false xs h = λ (e : xs ≡ []). ground (arith, h, ap is_empty_list e)

module _ {S : Server} (cp : ClusterProjection) (w : World S) (targets : List String) where
  abbrev names_of : List Namespace → List String
  names_of namespaces = map (λ n. n.name) (select (λ n. not n.is_terminating) namespaces)

  -- The targets that `resolveTargetNamespaces` returns are, in some order, the namespaces that the spec
  -- lists, or, where it lists none, the names of the namespaces that are not being deleted among
  -- those that the apiserver returns for the spec's selector, which does not match everything.
  pub resolve_target_namespaces-IsTargets :
      (resolve_target_namespaces cp w).0 ≡ ok targets → IsTargets S cp w targets
  unfolding resolve_target_namespaces resolve_selector selected_namespaces live_names value_of
  resolve_target_namespaces-IsTargets found =
      elim (Bool-cases (is_empty_list cp.spec.destination.namespaces)) [
        | inr listed ↦ inl (
          is_empty_list-false _ listed,
          subst (λ (xs : List String). Perm xs cp.spec.destination.namespaces)
              (ap value_of (rw listed at found)) (sort_strings-perm cp.spec.destination.namespaces),
        )
        | inl unlisted ↦ elim (Option-cases cp.spec.destination.namespace_selector) [
          | inl none_set ↦ absurd (ground (arith, found, unlisted, none_set))
          | inr (selector, set) ↦ elim (Reply-cases (S.selectors.as_selector selector)) [
            | inl (e, bad) ↦ absurd (ground (arith, found, unlisted, set, bad))
            | inr (sel, good) ↦ elim (Bool-cases (S.selectors.is_empty sel)) [
              | inl all ↦ absurd (ground (arith, found, unlisted, set, good, all))
              | inr some_only ↦ elim (Reply-cases (S.list_namespaces sel w.server).0) [
                | inl (e, failed) ↦
                    absurd (ground (arith, found, unlisted, set, good, some_only, failed))
                | inr (namespaces, here) ↦ inr (
                  is_empty_list-true _ unlisted,
                  (
                    selector,
                    sel,
                    namespaces,
                    set,
                    good,
                    some_only,
                    here,
                    subst (λ (xs : List String). Perm xs (names_of namespaces))
                        (ap value_of (
                          rw
                            (
                              unlisted, set, resolve_selector, good, some_only, selected_namespaces,
                              here,
                            )
                            at found))
                        (sort_strings-perm (names_of namespaces)),
                  ),
                )
              ]
            ]
          ]
        ]
      ]
