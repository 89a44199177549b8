-- ===== src/Cluster.antt =====
-- internal/controller/cluster_projection_controller.go: `resolveTargetNamespaces`,
-- `matchingClusterProjectionRequests` with `mapNamespace`, and `summarizeFailures`.
pub mod FanOut
pub mod Policy
pub mod Safety
pub mod Targets
pub mod Namespaces
pub mod NamespaceEvents
pub mod Retries
pub mod Reaches
pub mod Reconcile
pub mod Whole
pub mod Failures
use projection.Prelude.{
  ℕ, ◌-◌, Bool, true, false, not, none, some, List, [], ◌∷◌, map, length, select, contains, String,
  ◌<>◌, ltb, if◌then◌else◌,
}
use projection.Prelude.Dict.{Dict}
use projection.Prelude.Text.{sort_strings, decimal, bracketed}
use projection.Kube.Api.{LabelSelector, ClusterProjection}
use projection.Kube.Server.{Server, Error, Reply, ok, err, Namespace, Selectors}
use projection.Kube.World.{World, read}
use projection.Watches.{Request, cluster_projection_request}

abbrev plain_error : String → Error
plain_error message = record { is_not_found = false; message = message }

-- `fmt.Errorf("…: %w", err)`
abbrev pub wrapped : String → Error → Error
wrapped prefix e = record { is_not_found = e.is_not_found; message = prefix <> (": " <> e.message) }

abbrev pub no_targets : Error
no_targets =
    plain_error
      "ClusterProjection has neither destination.namespaces nor destination.namespaceSelector"

abbrev pub matches_all : Error
matches_all =
    plain_error
      "namespaceSelector matches all namespaces; refusing fan-out across the entire cluster"

-- The names of the namespaces that are not being deleted, sorted.
unfoldable pub live_names : List Namespace → List String
live_names namespaces =
    sort_strings (map (λ n. n.name) (select (λ n. not n.is_terminating) namespaces))

abbrev is_empty_list : List String → Bool
is_empty_list [] = true
is_empty_list (x ∷ xs) = false

module _ {S : Server} where
  open S.selectors use {Selector, as_selector, is_empty}

  selected_namespaces : Selector → World S → Reply (List String) × World S
  selected_namespaces sel w =
      let (reply, w') = read (S.list_namespaces sel) w in
      elim reply [
        | err e ↦ (err (wrapped "listing namespaces" e), w')
        | ok namespaces ↦ (ok (live_names namespaces), w')
      ]

  resolve_selector : LabelSelector → World S → Reply (List String) × World S
  unfolding selected_namespaces
  resolve_selector selector w = elim (as_selector selector) [
    | err e ↦ (err (wrapped "invalid namespaceSelector" e), w)
    | ok sel ↦ if is_empty sel then (err matches_all, w) else selected_namespaces sel w
  ]

  unfoldable pub resolve_target_namespaces :
      ClusterProjection → World S → Reply (List String) × World S
  unfolding resolve_selector
  resolve_target_namespaces cp w =
      if not (is_empty_list cp.spec.destination.namespaces)
      then (ok (sort_strings cp.spec.destination.namespaces), w)
      else elim cp.spec.destination.namespace_selector [
        | none ↦ (err no_targets, w)
        | some selector ↦ resolve_selector selector w
      ]

module _ (s : Selectors) (event_ns : String) (ns_labels : Dict String) where
  selector_matches : Reply s.Selector → Bool
  selector_matches (err e) = false
  selector_matches (ok sel) = if s.is_empty sel then false else s.matches sel ns_labels

  -- One round of the loop: whether the event concerns the projection.
  unfoldable pub concerns : ClusterProjection → Bool
  unfolding selector_matches
  concerns cp =
      if not (is_empty_list cp.spec.destination.namespaces)
      then contains cp.spec.destination.namespaces event_ns
      else elim cp.spec.destination.namespace_selector [
        | none ↦ false
        | some selector ↦ selector_matches (s.as_selector selector)
      ]

  unfoldable pub matching_cluster_projection_requests : List ClusterProjection → List Request
  matching_cluster_projection_requests [] = []
  matching_cluster_projection_requests (cp ∷ items) =
      let reqs = matching_cluster_projection_requests items in
      if concerns cp then cluster_projection_request cp ∷ reqs else reqs

module _ {S : Server} where
  -- The event's name and labels; the object's Go type makes no difference to the requests.
  unfoldable pub map_namespace : String → Dict String → World S → List Request × World S
  map_namespace event_ns ns_labels w =
      let (reply, w') = read (S.list_cluster_projections none) w in
      elim reply [
        | err e ↦ ([], w')
        | ok items ↦ (matching_cluster_projection_requests S.selectors event_ns ns_labels items, w')
      ]

abbrev take_5 : List String → List String
take_5 (a ∷ b ∷ c ∷ d ∷ e ∷ rest) = a ∷ b ∷ c ∷ d ∷ e ∷ []
take_5 short = short

-- The keys of the map, sorted, and at most five of them.
unfoldable pub shown_namespaces : Dict String → List String
shown_namespaces failure_msgs = take_5 (sort_strings (map (λ (ns, _). ns) failure_msgs))

unfoldable pub summarize_failures : ℕ → Dict String → String
unfolding decimal bracketed
summarize_failures total failure_msgs =
    let shown = shown_namespaces failure_msgs in
    if ltb (length shown) total
    then "write failed in "
      <> (decimal total
          <> (" namespaces (first: "
              <> (bracketed shown <> (", +" <> (decimal (total - length shown) <> " more)")))))
    else "write failed in " <> (decimal total <> (" namespaces: " <> bracketed shown))
