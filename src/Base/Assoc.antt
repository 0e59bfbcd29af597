-- ===== src/Base/Assoc.antt =====
-- A map with numbers for keys as a list of its entries: `get`, `insert` and `remove` of a `BTreeMap`.
use Prim.Native.Nat.{ℕ}
use mathlib.Core.Path.{◌≡◌, refl, sym, ap, ◌∙◌}
use mathlib.Core.Logic.{◌≢◌, inl, inr}
use mathlib.Core.List.{List, [], ◌∷◌}
use mathlib.Core.Option.{Option, none, some}
use lemoncake.Base.Tests.{◌==◌, if◌then◌else◌, Bool-cases, ==→≡, ==_refl, ≢→==}

module _ {ℓ} {A : Type ℓ} where
  abbrev pub lookup : ℕ → List (ℕ × A) → Option A
  lookup k [] = none
  lookup k ((j, a) ∷ rest) = if k == j then some a else lookup k rest

  -- Of the entries for a key, the first counts.
  abbrev pub insert : ℕ → A → List (ℕ × A) → List (ℕ × A)
  insert k a entries = (k, a) ∷ entries

  abbrev pub remove : ℕ → List (ℕ × A) → List (ℕ × A)
  remove k [] = []
  remove k ((j, a) ∷ rest) =
      let others = remove k rest in if k == j then others else (j, a) ∷ others

  pub lookup-insert_self :
      (k : ℕ) (a : A) (entries : List (ℕ × A)) → lookup k (insert k a entries) ≡ some a
  lookup-insert_self k a entries = rw (==_refl k) refl

  pub lookup-insert_ne :
      (k j : ℕ) (a : A) (entries : List (ℕ × A))
      → k ≢ j
      → lookup k (insert j a entries) ≡ lookup k entries
  lookup-insert_ne k j a entries h = rw (≢→== k j h) refl

  pub lookup-remove_self : (k : ℕ) (entries : List (ℕ × A)) → lookup k (remove k entries) ≡ none
  lookup-remove_self k [] = refl
  lookup-remove_self k ((j, a) ∷ rest) = elim (Bool-cases (k == j)) [
    | inl e ↦ rw e (lookup-remove_self k rest)
    | inr e ↦ rw (e, e) (lookup-remove_self k rest)
  ]

  pub lookup-remove_ne :
      (k j : ℕ) (entries : List (ℕ × A)) → k ≢ j → lookup k (remove j entries) ≡ lookup k entries
  lookup-remove_ne k j [] h = refl
  lookup-remove_ne k j ((i, a) ∷ rest) h = elim (Bool-cases (j == i)) [
    | inl e ↦ rw (e, ≢→== k i (λ f. h (f ∙ sym (==→≡ j i e)))) (lookup-remove_ne k j rest h)
    | inr e ↦
        rw e (ap (λ (o : Option A). if k == i then some a else o) (lookup-remove_ne k j rest h))
  ]
