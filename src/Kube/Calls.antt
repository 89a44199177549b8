-- ===== src/Kube/Calls.antt =====
-- What was written between two worlds, as a list of calls.
use mathlib.Core.List.{append_assoc}
use projection.Prelude.{
  All-append, sym, ap, ◌∙◌, reverse_onto, All-map, refl, inr, All, ◌≤◌, inl, length, ◌⊎◌, ◌++◌,
  arith, ◌∷◌, [], List, ◌≡◌, ℕ,
}
use projection.Kube.World.{Call}
use projection.Kube.Server.{ok, err, Error, Reply}

-- Between two records of calls, newest first, at most `n` calls came, and each satisfies `P`.
abbrev pub Issues {ℓ} : (Call → Type ℓ) → ℕ → List Call → List Call → Type ℓ
Issues P n before after = (new : List Call) × (after ≡ new ++ before) × (length new ≤ n) × All P new

module _ {ℓ} (P : Call → Type ℓ) (before after : List Call) where
  pub Issues-none : (n : ℕ) → after ≡ before → Issues P n before after
  Issues-none n e = ([], e, omega arith, tt)

  pub Issues-one : (c : Call) → P c → after ≡ c ∷ before → Issues P 1 before after
  Issues-one c p e = (c ∷ [], e, omega arith, (p, tt))

pub Reply-cases {ℓ} :
    {A : Type ℓ} (r : Reply A) → ((e : Error) × (r ≡ err e)) ⊎ ((a : A) × (r ≡ ok a))
Reply-cases (err e) = inl (e, refl)
Reply-cases (ok a) = inr (a, refl)

-- The same, for any number of calls.
abbrev pub Grows {ℓ} : (Call → Type ℓ) → List Call → List Call → Type ℓ
Grows P before after = (new : List Call) × (after ≡ new ++ before) × All P new

module _ {ℓ} (P : Call → Type ℓ) where
  pub Grows-none : (before after : List Call) → after ≡ before → Grows P before after
  Grows-none before after e = ([], e, tt)

  pub Grows-one :
      (before after : List Call) (c : Call) → P c → after ≡ c ∷ before → Grows P before after
  Grows-one before after c p e = (c ∷ [], e, (p, tt))

  pub Grows-trans :
      (before between after : List Call)
      → Grows P before between
      → Grows P between after
      → Grows P before after
  Grows-trans before between after (new, e, all) (more, f, rest) = (
    more ++ new,
    f ∙ ap (λ (cs : List Call). more ++ cs) e ∙ sym (append_assoc more new before),
    All-append P more new rest all,
  )

  pub Grows-reverse : (cs before : List Call) → All P cs → Grows P before (reverse_onto cs before)
  Grows-reverse [] before all = Grows-none before before refl
  Grows-reverse (c ∷ cs) before (p, all) =
      Grows-trans before (c ∷ before) (reverse_onto cs (c ∷ before))
        (Grows-one before (c ∷ before) c p refl) (Grows-reverse cs (c ∷ before) all)

pub Grows-map {ℓ κ} :
    (P : Call → Type ℓ) (Q : Call → Type κ)
    → ((c : Call) → P c → Q c)
    → (before after : List Call) → Grows P before after
    → Grows Q before after
Grows-map P Q f before after (new, e, all) = (new, e, All-map P Q f new all)
