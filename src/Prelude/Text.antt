-- ===== src/Prelude/Text.antt =====
-- Go's `sort.Strings`, and the verbs `%d` and `%v` of `fmt` on a count and on a list of texts.
use Prim.Native.Nat.{ℕ, zero, suc, ◌/◌, ◌%◌}
use Prim.Native.String.{String, compare, ◌++◌ as ◌<>◌}
use mathlib.Core.Bool.{Bool}
use mathlib.Core.List.{List, [], ◌∷◌, Perm}
use mathlib.Core.List.Perm
use text.Mathlib.Text.{is_le}
use projection.Prelude.Tests.{if◌then◌else◌, ◌=ℕ=◌, Bool-cases}
use mathlib.Core.Logic.{inl, inr}

-- Go compares texts byte by byte, which is the order of their characters.
abbrev pub text_le : String → String → Bool
text_le s t = is_le (compare s t)

unfoldable pub insert_sorted : String → List String → List String
insert_sorted s [] = s ∷ []
insert_sorted s (t ∷ ts) = if text_le s t then s ∷ t ∷ ts else t ∷ insert_sorted s ts

-- `sort.Strings`. Texts that compare equal are equal, so every way to sort gives this list.
unfoldable pub sort_strings : List String → List String
unfolding insert_sorted
sort_strings [] = []
sort_strings (s ∷ ss) = insert_sorted s (sort_strings ss)

pub insert_sorted-perm : (s : String) (ts : List String) → Perm (insert_sorted s ts) (s ∷ ts)
unfolding insert_sorted
insert_sorted-perm s [] = Perm.refl (s ∷ [])
insert_sorted-perm s (t ∷ ts) = elim (Bool-cases (text_le s t)) [
  | inl before ↦ rw before (Perm.refl (s ∷ t ∷ ts))
  | inr after ↦ rw after (Perm.trans (Perm.cons t (insert_sorted-perm s ts)) (Perm.swap s t ts))
]

pub sort_strings-perm : (ss : List String) → Perm (sort_strings ss) ss
unfolding sort_strings
sort_strings-perm [] = Perm.refl []
sort_strings-perm (s ∷ ss) =
    Perm.trans (insert_sorted-perm s (sort_strings ss)) (Perm.cons s (sort_strings-perm ss))

digit : ℕ → String
digit zero = "0"
digit (suc zero) = "1"
digit (suc (suc zero)) = "2"
digit (suc (suc (suc zero))) = "3"
digit (suc (suc (suc (suc zero)))) = "4"
digit (suc (suc (suc (suc (suc zero))))) = "5"
digit (suc (suc (suc (suc (suc (suc zero)))))) = "6"
digit (suc (suc (suc (suc (suc (suc (suc zero))))))) = "7"
digit (suc (suc (suc (suc (suc (suc (suc (suc zero)))))))) = "8"
digit n = "9"

-- The fuel is the number itself: a number has fewer digits than it counts.
digits : ℕ → ℕ → String
digits zero n = digit (n % 10)
digits (suc fuel) n =
    let front = digits fuel (n / 10) <> digit (n % 10) in
    if n / 10 =ℕ= 0 then digit (n % 10) else front

-- `%d`
unfoldable pub decimal : ℕ → String
unfolding digits digit
decimal n = digits n n

spaced : List String → String
spaced [] = ""
spaced (s ∷ []) = s
spaced (s ∷ t ∷ ts) = s <> (" " <> spaced (t ∷ ts))

-- `%v`
unfoldable pub bracketed : List String → String
unfolding spaced
bracketed ss = "[" <> (spaced ss <> "]")
