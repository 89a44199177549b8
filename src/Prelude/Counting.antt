-- ===== src/Prelude/Counting.antt =====
-- How often a text occurs in a list.
use mathlib.Core.List.Perm
use native.Mathlib.Nat.{ℕ_set}
use Prim.Native.Nat.{ℕ, suc, ◌+◌, ◌≤◌}
use Prim.Native.String.{String}
use mathlib.Core.Path.{◌≡◌, refl, sym, ap, ◌∙◌}
use mathlib.Core.List.{List, [], ◌∷◌, ◌++◌, Perm}
use native.Mathlib.Omega.{arith}
use text.Mathlib.Text.{◌==◌}
use projection.Prelude.Tests.{if◌then◌else◌}

abbrev pub count : String → List String → ℕ
count k [] = 0
count k (x ∷ xs) = let rest = count k xs in if k == x then suc rest else rest

-- No text occurs twice.
abbrev pub IsDistinct : List String → Type 0
IsDistinct xs = (k : String) → count k xs ≤ 1

pub count-append : (k : String) (xs ys : List String) → count k (xs ++ ys) ≡ count k xs + count k ys
count-append k [] ys = omega arith
count-append k (x ∷ xs) ys = ground (arith, count-append k xs ys)

abbrev tally_one : String → String → ℕ → ℕ
tally_one k x n = if k == x then suc n else n

tally_one_comm :
    (k x y : String) (n : ℕ) → tally_one k x (tally_one k y n) ≡ tally_one k y (tally_one k x n)
tally_one_comm k x y n = ground arith

count-foldr :
    (k : String) (xs : List String) → count k xs ≡ mathlib.Core.List.foldr (tally_one k) 0 xs
count-foldr k [] = refl
count-foldr k (x ∷ xs) = ap (tally_one k x) (count-foldr k xs)

pub count-perm : (k : String) {xs ys : List String} → Perm xs ys → count k xs ≡ count k ys
count-perm k {xs} {ys} p =
    count-foldr k xs
    ∙ Perm.foldr-eq ℕ_set (tally_one k) (tally_one_comm k) p 0
    ∙ sym (count-foldr k ys)
