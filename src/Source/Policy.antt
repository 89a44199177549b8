-- ===== src/Source/Policy.antt =====
-- The policy of internal/controller/source.go: which sources may be projected.
use projection.Source.{
  is_text, source_mode_allowlist, opted_out_message, annotation, check_projectable,
}
use projection.Prelude.{
  ◌==◌, none, if◌then◌else◌, eq_iff, Option-cases, ◌⊎◌, arith, ◌≢◌, false, ◌↔◌, true, some, ◌≡◌,
  Option, String,
}
use projection.Kube.Value.{Fields}
use projection.Kube.Object.{annotations_field, Accessors}

is_text_iff : (s : String) (v : Option String) → (is_text s v ≡ true) ↔ (v ≡ some s)
is_text_iff s none = ground arith
is_text_iff s (some v) = ground (arith, eq_iff v s)

module _ (a : Accessors) (source : Fields) (mode : String) where
  abbrev val : Option String
  val = annotation (a.get_map annotations_field source)

  -- The veto holds in every mode.
  pub check_projectable-opted_out :
      val ≡ some "false"
      → check_projectable a source mode ≡ ("SourceOptedOut", opted_out_message a source, false)
  unfolding check_projectable
  check_projectable-opted_out vetoed = ground (arith, vetoed)

  -- `checkProjectable` lets a source through just where its annotation is not "false", and the mode is
  -- set to something else than the allowlist or the annotation is "true".
  pub check_projectable-policy : ((check_projectable a source mode).2 ≡ true) ↔ (
      (val ≢ some "false") × (((mode ≢ "") × (mode ≢ source_mode_allowlist)) ⊎ (val ≡ some "true")))
  unfolding check_projectable
  check_projectable-policy = ground (
    arith,
    Option-cases val,
    eq_iff (if mode == "" then source_mode_allowlist else mode) source_mode_allowlist,
    eq_iff mode "",
    eq_iff mode source_mode_allowlist,
    is_text_iff "false" val,
    is_text_iff "true" val,
  )
