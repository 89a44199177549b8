-- ===== src/Destination/Owner.antt =====
-- The owner's key of internal/controller/destination.go names one owner.
use projection.Prelude.Dict.{index}
use projection.Prelude.{◌∙◌, eq_iff, sym, true, ◌≡◌}
use projection.Prelude.Slash.{slash-injective, HasNoSlash}
use projection.Kube.Api.{Projection}
use projection.Kube.Value.{Fields}
use projection.Kube.Object.{annotations_field, Accessors}
use projection.Destination.{owned_by_annotation, owner_key, is_owned_by}

-- Where the namespaces of two projections hold no slash, an object that both own, by the test of
-- `isOwnedBy`, has one owner: the projections have the same namespace and the same name.
pub is_owned_by_unique :
    (a : Accessors) (o : Fields) (p q : Projection)
    → HasNoSlash p.meta.namespace
    → HasNoSlash q.meta.namespace
    → is_owned_by a o p ≡ true
    → is_owned_by a o q ≡ true
    → (p.meta.namespace ≡ q.meta.namespace) × (p.meta.name ≡ q.meta.name)
unfolding is_owned_by owner_key
is_owned_by_unique a o p q plain plain' mine yours =
    let written = index (a.get_map annotations_field o) owned_by_annotation in
    slash-injective p.meta.namespace p.meta.name q.meta.namespace q.meta.name plain plain'
      (sym ((eq_iff written (owner_key p)).0 mine) ∙ (eq_iff written (owner_key q)).0 yours)
