-- ===== src/Prelude/Dicts.antt =====
-- Python's `dict`: an association list in insertion order. Overwriting a key keeps its place.
use mathlib.Core.Bool.{true}
use mathlib.Core.List.{List, [], ◌∷◌}
use mathlib.Core.Option.{Option, none, some}
use mathlib.Core.Path.{◌≡◌, refl}
use native.Mathlib.Omega.{arith}
use mathlib.Core.List.{map, Mem, Nodup, Nodup-cons, mem-cons_self, mem-cons_of_mem}
use mathlib.Core.Path.{sym, ◌∙◌, subst}
use mathlib.Core.Logic.{inl, inr}
use mathlib.Core.Bool.{false}
use soffortmcp.Prelude.Tests.{Eq, ◌==◌, if◌then◌else◌, Bool-cases}
use soffortmcp.Prelude.Lists.{All}

abbrev pub Dict {ℓ κ} : Type ℓ → Type κ → Type (ℓ ⊔ κ)
Dict K V = List (K × V)

pub beq_self {ℓ} : {K : Type ℓ} ⦃e : Eq K⦄ (k : K) → (k == k) ≡ true
beq_self ⦃e⦄ k = (e.beq_iff k k).1 refl

module _ {ℓ κ} {K : Type ℓ} {V : Type κ} ⦃e : Eq K⦄ where
  -- d.get(k)
  unfoldable pub lookup : K → Dict K V → Option V
  lookup k [] = none
  lookup k ((j, v) ∷ d) = if j == k then some v else lookup k d

  -- d[k] = v
  unfoldable pub insert : K → V → Dict K V → Dict K V
  insert k v [] = (k, v) ∷ []
  insert k v ((j, w) ∷ d) = if j == k then (j, v) ∷ d else (j, w) ∷ insert k v d

  -- d.pop(k, None)
  unfoldable pub remove : K → Dict K V → Dict K V
  remove k [] = []
  remove k ((j, v) ∷ d) = let rest = remove k d in if j == k then rest else (j, v) ∷ rest

  -- {k: v for k, v in pairs}
  unfoldable pub insert_all : List (K × V) → Dict K V → Dict K V
  unfolding insert
  insert_all [] d = d
  insert_all ((k, v) ∷ l) d = insert_all l (insert k v d)

  pub lookup-insert :
      (k j : K) (v : V) (d : Dict K V)
      → lookup j (insert k v d) ≡ (if k == j then some v else lookup j d)
  unfolding lookup insert
  lookup-insert k j v [] = refl
  lookup-insert k j v ((i, w) ∷ d) =
      ground (arith, e.beq_iff i k, e.beq_iff k j, e.beq_iff i j, lookup-insert k j v d)

  pub lookup-remove :
      (k j : K) (d : Dict K V) → lookup j (remove k d) ≡ (if k == j then none else lookup j d)
  unfolding lookup remove
  lookup-remove k j [] = ground arith
  lookup-remove k j ((i, w) ∷ d) =
      ground (arith, e.beq_iff i k, e.beq_iff k j, e.beq_iff i j, lookup-remove k j d)

pub ruleset dict_laws = (lookup-insert, lookup-remove)

module _ {ℓ κ} {K : Type ℓ} {V : Type κ} ⦃e : Eq K⦄ where
  -- An entry whose key no later pair repeats is kept.
  lookup-insert_all :
      (k : K) (v : V) (l : List (K × V)) (d : Dict K V)
      → ¬ Mem k (map (λ p. p.0) l)
      → lookup k d ≡ some v
      → lookup k (insert_all l d) ≡ some v
  unfolding insert_all
  lookup-insert_all k v [] d h found = found
  lookup-insert_all k v ((j, w) ∷ l) d h found =
      let other : (j == k) ≡ false = elim (Bool-cases (j == k)) [
        | inl same ↦ absurd (
            h (
              subst (λ i. Mem k (i ∷ map (λ p. p.0) l)) (sym ((e.beq_iff j k).0 same))
                mem-cons_self))
        | inr other ↦ other
      ] in
      lookup-insert_all k v l (insert j w d) (λ m. h (mem-cons_of_mem j m))
        (lookup-insert j k w d ∙ rw other found)

  -- A dictionary built from pairs with distinct keys holds every pair.
  pub insert_all-All :
      (l : List (K × V)) (d : Dict K V)
      → Nodup (map (λ p. p.0) l)
      → All (λ p. lookup p.0 (insert_all l d) ≡ some p.1) l
  unfolding insert_all
  insert_all-All [] d h = tt
  insert_all-All ((k, v) ∷ l) d h = (
    lookup-insert_all k v l (insert k v d) (Nodup-cons.0 h).0
        (lookup-insert k k v d ∙ rw (beq_self k) refl),
    insert_all-All l (insert k v d) (Nodup-cons.0 h).1,
  )
