-- ===== src/Prelude/Slash.antt =====
-- Two texts with a slash between them are told apart, where the first holds no slash.
use mathlib.Core.Path.{ap₂}
use projection.Prelude.{refl, ℕ, sym, arith, ◌∙◌, false, ap, ◌≡◌, ◌=ℕ=◌, ◌<>◌, String}
use Prim.Native.Char.{Char, code}
use text.Mathlib.TextLemmas.{
  append_cancel_left, nil-append, cons-append, head-eq_of_cons-eq, tail-eq_of_cons-eq,
}

-- No character is a slash, as in the names of Kubernetes objects, kinds and API groups.
abbrev pub HasNoSlash : String → Type 0
HasNoSlash String.[] = Unit
HasNoSlash (String.◌∷◌ c s) = ((code c =ℕ= b'/') ≡ false) × HasNoSlash s

slash_text : (b : String) → "/" <> b ≡ String.◌∷◌ "/" b
slash_text b = cons-append "/" String.[] b ∙ ap (String.◌∷◌ "/") (nil-append b)

not_slash :
    (c : Char) (b t : String)
    → (code c =ℕ= b'/') ≡ false
    → ¬ (Path String (String.◌∷◌ "/" b) (String.◌∷◌ c t))
not_slash c b t h e =
    let is_slash : ◌≡◌ {A = ℕ} b'/' (code c) = ap code (head-eq_of_cons-eq e) in
    ground (arith, h, is_slash)

pub slash-injective :
    (a b c d : String)
    → HasNoSlash a
    → HasNoSlash c
    → a <> ("/" <> b) ≡ c <> ("/" <> d)
    → (a ≡ c) × (b ≡ d)
slash-injective String.[] b String.[] d p q e =
    (refl, append_cancel_left "/" b d (sym (nil-append _) ∙ e ∙ nil-append _))
slash-injective String.[] b (String.◌∷◌ y c) d p (qy, q) e = absurd (
    not_slash y b (c <> ("/" <> d)) qy
      (sym (slash_text b) ∙ sym (nil-append _) ∙ e ∙ cons-append y c _))
slash-injective (String.◌∷◌ x a) b String.[] d (px, p) q e = absurd (
    not_slash x d (a <> ("/" <> b)) px
      (sym (slash_text d) ∙ sym (nil-append _) ∙ sym e ∙ cons-append x a _))
slash-injective (String.◌∷◌ x a) b (String.◌∷◌ y c) d (px, p) (qy, q) e =
    let e' : Path String (String.◌∷◌ x (a <> ("/" <> b))) (String.◌∷◌ y (c <> ("/" <> d))) =
      sym (cons-append x a _) ∙ e ∙ cons-append y c _ in
    let (same, rest) = slash-injective a b c d p q (tail-eq_of_cons-eq e') in
    (ap₂ (λ (z : Char) (t : String). String.◌∷◌ z t) (head-eq_of_cons-eq e') same, rest)
