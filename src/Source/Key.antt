-- ===== src/Source/Key.antt =====
-- The key of internal/controller/source.go under which a source is indexed.
use projection.Prelude.{◌↔◌, ◌≡◌}
use projection.Prelude.Slash.{slash-injective, HasNoSlash}
use projection.Source.{source_key}
use projection.Kube.Api.{SourceRef}

-- The parts of a reference that stand before a slash hold none.
abbrev pub IsPlain : SourceRef → Type 0
IsPlain s = HasNoSlash s.group × HasNoSlash s.kind × HasNoSlash s.namespace

-- The same object, whatever the version.
abbrev pub SameSource : SourceRef → SourceRef → Type 0
SameSource s t =
    (s.group ≡ t.group) × (s.kind ≡ t.kind) × (s.namespace ≡ t.namespace) × (s.name ≡ t.name)

source_key_parts :
    (s t : SourceRef) → IsPlain s → IsPlain t → source_key s ≡ source_key t → SameSource s t
unfolding source_key
source_key_parts s t (g, k, n) (g', k', n') e =
    let (groups, rest) = slash-injective s.group _ t.group _ g g' e in
    let (kinds, rest') = slash-injective s.kind _ t.kind _ k k' rest in
    let (namespaces, names) = slash-injective s.namespace _ t.namespace _ n n' rest' in
    (groups, kinds, namespaces, names)

-- Two references whose groups, kinds and namespaces hold no slash have the same key just where they
-- name the same object, in whatever versions.
pub source_key-eq_iff :
    (s t : SourceRef) → IsPlain s → IsPlain t → (source_key s ≡ source_key t) ↔ SameSource s t
unfolding source_key
source_key-eq_iff s t p q = (
  λ e. source_key_parts s t p q e,
  λ (groups, kinds, namespaces, names). rw (groups, kinds, namespaces, names),
)
