-- ===== src/Prelude/Order.antt =====
-- The order of texts by which Go sorts them is total, and a sorted list does not depend on the order
-- in which its texts came.
use projection.Prelude.Text.{sort_strings, insert_sorted, text_le}
use projection.Prelude.{
  eq_iff, ◌==◌, All-map, sym, ap, Bool-cases, ◌∷◌, ◌∙◌, [], All, refl, List, ◌&&◌, inr, ◌=ℕ=◌, inl,
  ◌⊎◌, ◌||◌, arith, true, ltb, false, ◌≡◌, String,
}
use Prim.Native.Char.{Char, code}
use Prim.Native.String.compare
use text.Mathlib.TextEquality.{Char-path}
use mathlib.Core.HLevel.{hedberg}
use mathlib.Core.List.Perm
use mathlib.Core.List.{Perm, foldr, is_set}

-- The next characters decide, or the rest does.
text_le-cons :
    (c d : Char) (s t : String)
    → text_le (String.◌∷◌ c s) (String.◌∷◌ d t)
      ≡ (ltb (code c) (code d) || ((code c =ℕ= code d) && text_le s t))
text_le-cons c d s t = rw (compare.cons-cons c d s t) (ground arith)

text_le-nil : (t : String) → text_le String.[] t ≡ true
text_le-nil String.[] = refl
text_le-nil (String.◌∷◌ d t) = rw (compare.nil-cons d t)

not-text_le-nil : (c : Char) (s : String) → text_le (String.◌∷◌ c s) String.[] ≡ false
not-text_le-nil c s = rw (compare.cons-nil c s)

pub text_le_total : (s t : String) → (text_le s t ≡ true) ⊎ (text_le t s ≡ true)
text_le_total String.[] t = inl (text_le-nil t)
text_le_total (String.◌∷◌ c s) String.[] = inr (text_le-nil (String.◌∷◌ c s))
text_le_total (String.◌∷◌ c s) (String.◌∷◌ d t) =
    rw (text_le-cons c d s t, text_le-cons d c t s) (ground (arith, text_le_total s t))

pub text_le_trans : (s t u : String) → text_le s t ≡ true → text_le t u ≡ true → text_le s u ≡ true
text_le_trans String.[] t u p q = text_le-nil u
text_le_trans (String.◌∷◌ c s) String.[] u p q = absurd (ground (arith, p, not-text_le-nil c s))
text_le_trans (String.◌∷◌ c s) (String.◌∷◌ d t) String.[] p q =
    absurd (ground (arith, q, not-text_le-nil d t))
text_le_trans (String.◌∷◌ c s) (String.◌∷◌ d t) (String.◌∷◌ e u) p q =
    ground
      (arith, text_le-cons c d s t, text_le-cons d e t u, text_le-cons c e s u, text_le_trans s t u)

pub text_le_antisymm : (s t : String) → text_le s t ≡ true → text_le t s ≡ true → s ≡ t
text_le_antisymm String.[] String.[] p q = refl
text_le_antisymm String.[] (String.◌∷◌ d t) p q = absurd (ground (arith, q, not-text_le-nil d t))
text_le_antisymm (String.◌∷◌ c s) String.[] p q = absurd (ground (arith, p, not-text_le-nil c s))
text_le_antisymm (String.◌∷◌ c s) (String.◌∷◌ d t) p q =
    let same : code c ≡ code d = ground (arith, text_le-cons c d s t, text_le-cons d c t s) in
    let rest : s ≡ t =
      text_le_antisymm s t (ground (arith, text_le-cons c d s t, text_le-cons d c t s))
        (ground (arith, text_le-cons c d s t, text_le-cons d c t s)) in
    λ i. String.◌∷◌ (Char-path c d same i) (rest i)

insert_sorted_comm :
    (x y : String) (l : List String)
    → insert_sorted x (insert_sorted y l) ≡ insert_sorted y (insert_sorted x l)
unfolding insert_sorted
insert_sorted_comm x y [] = ground (arith, text_le_total x y, text_le_antisymm x y)
insert_sorted_comm x y (z ∷ l) = ground (
  arith,
  text_le_total x y,
  text_le_total x z,
  text_le_total y z,
  text_le_antisymm x y,
  text_le_trans x y z,
  text_le_trans y x z,
  insert_sorted_comm x y l,
)

text_discrete : (s t : String) → Dec (s ≡ t)
text_discrete s t = elim (Bool-cases (s == t)) [
  | inl same ↦ yes (ground (arith, same, eq_iff s t))
  | inr other ↦ no (λ (e : s ≡ t). ground (arith, e, other, eq_iff s t))
]

sort_strings-foldr : (l : List String) → sort_strings l ≡ foldr insert_sorted [] l
unfolding sort_strings
sort_strings-foldr [] = refl
sort_strings-foldr (x ∷ l) = ap (insert_sorted x) (sort_strings-foldr l)

pub sort_strings-perm_invariant : {l m : List String} → Perm l m → sort_strings l ≡ sort_strings m
sort_strings-perm_invariant {l} {m} p =
    sort_strings-foldr l
    ∙ Perm.foldr-eq (is_set (hedberg text_discrete)) insert_sorted insert_sorted_comm p []
    ∙ sym (sort_strings-foldr m)

-- Each text is at most every later one.
abbrev pub IsSorted : List String → Type 0
IsSorted [] = Unit
IsSorted (x ∷ xs) = All (λ y. text_le x y ≡ true) xs × IsSorted xs

All-insert_sorted {ℓ} :
    (P : String → Type ℓ) (x : String) (l : List String) → P x → All P l → All P (insert_sorted x l)
unfolding insert_sorted
All-insert_sorted P x [] p all = (p, tt)
All-insert_sorted P x (y ∷ l) p (q, all) = elim (Bool-cases (text_le x y)) [
  | inl first ↦ rw (first, insert_sorted) (p, (q, all))
  | inr later ↦ rw (later, insert_sorted) (q, All-insert_sorted P x l p all)
]

insert_sorted-IsSorted : (x : String) (l : List String) → IsSorted l → IsSorted (insert_sorted x l)
unfolding insert_sorted
insert_sorted-IsSorted x [] h = (tt, tt)
insert_sorted-IsSorted x (y ∷ l) (below, h) = elim (Bool-cases (text_le x y)) [
  | inl first ↦
      rw (first, insert_sorted)
        ((first, All-map _ _ (λ z q. text_le_trans x y z first q) l below), (below, h))
  | inr later ↦
      rw (later, insert_sorted)
        (
          All-insert_sorted (λ z. text_le y z ≡ true) x l (ground (arith, text_le_total x y, later))
              below,
          insert_sorted-IsSorted x l h,
        )
]

pub sort_strings-IsSorted : (l : List String) → IsSorted (sort_strings l)
unfolding sort_strings
sort_strings-IsSorted [] = tt
sort_strings-IsSorted (x ∷ l) = insert_sorted-IsSorted x (sort_strings l) (sort_strings-IsSorted l)
