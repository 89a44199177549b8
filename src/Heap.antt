-- ===== src/Heap.antt =====
-- Memory as the generated functions of api/v1/zz_generated.deepcopy.go see it: cells at addresses, the
-- backing arrays of slices, maps and structs behind pointers.
pub mod Shape
pub mod Refs
use projection.Prelude.{
  ◌≡◌, ◌=ℕ=◌, ◌<◌, none, [], ◌≤◌, ◌∷◌, suc, some, if◌then◌else◌, ℕ, Option, List,
}

-- `next` is the first address that is not in use.
pub record Heap (C : Type 0) : Type 0 where
  pub next : ℕ
  pub cells : ℕ → C

-- A slice, a map or a pointer: `none` is nil.
abbrev pub Ref : Type 0
Ref = Option ℕ

module _ {C : Type 0} where
  -- `new` and `make`: the address is taken. Its zero value, which every use here overwrites, is left
  -- out.
  unfoldable pub reserve : Heap C → ℕ × Heap C
  reserve h = (h.next, record h { next = suc h.next })

  unfoldable pub store : ℕ → C → Heap C → Heap C
  store n c h = record h { cells = λ k. if k =ℕ= n then c else h.cells k }

  -- The two heaps hold the same from the first address to before the second.
  abbrev pub Agree : ℕ → ℕ → Heap C → Heap C → Type 0
  Agree lo hi g h = (n : ℕ) → lo ≤ n → n < hi → g.cells n ≡ h.cells n

  module _ {A : Type 0} (put : A → C) (get : C → A) (copy : A → Heap C → A × Heap C) where
    -- `if in != nil { out = new(T); copy }`: what is behind a reference, copied behind a new one.
    unfoldable pub copy_ref : Ref → Heap C → Ref × Heap C
    copy_ref none h = (none, h)
    copy_ref (some n) h =
        let (a, taken) = reserve h in
        let (out, copied) = copy (get (h.cells n)) taken in (some a, store a (put out) copied)

  -- `for i := range in { in[i].DeepCopyInto(&out[i]) }`
  unfoldable pub copy_each :
      {A : Type 0} → (A → Heap C → A × Heap C) → List A → Heap C → List A × Heap C
  copy_each copy [] h = ([], h)
  copy_each copy (x ∷ xs) h =
      let (y, h') = copy x h in let (ys, h'') = copy_each copy xs h' in (y ∷ ys, h'')

  -- A value without references.
  abbrev pub copy_flat : {A : Type 0} → A → Heap C → A × Heap C
  copy_flat a h = (a, h)
