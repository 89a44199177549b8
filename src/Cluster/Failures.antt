-- ===== src/Cluster/Failures.antt =====
-- `summarizeFailures` of internal/controller/cluster_projection_controller.go ranges over a map, whose
-- order Go leaves open.
use projection.Prelude.Order.{sort_strings-perm_invariant}
use projection.Prelude.Dict.{Dict}
use projection.Prelude.{◌≡◌, String, ℕ}
use projection.Cluster.{shown_namespaces, summarize_failures}
use mathlib.Core.List.Perm
use mathlib.Core.List.{Perm}

-- The failures, in whatever order they stand in the map, have one message.
summarize_failures-perm :
    (total : ℕ) {failures others : Dict String}
    → Perm failures others
    → summarize_failures total failures ≡ summarize_failures total others
unfolding summarize_failures shown_namespaces
summarize_failures-perm total p =
    rw (sort_strings-perm_invariant (Perm.map (λ ((ns, _) : String × String). ns) p))
