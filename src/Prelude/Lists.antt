-- ===== src/Prelude/Lists.antt =====
-- Sequences and sets as Python's built-ins use them, over the native numbers and Boolean tests.
use mathlib.Core.HLevel.{⊥_prop}
use mathlib.Core.Bool.{Bool, true, false, not, ◌&&◌, ◌||◌}
use mathlib.Core.Logic.Or
use mathlib.Core.Logic.{inl, inr}
use mathlib.Core.List.Perm
use mathlib.Core.List.{
  List, [], ◌∷◌, ◌++◌, map, Mem, Nodup, Perm, Nodup-cons, Nodup-nil, not-mem-nil, mem-cons_self,
  mem-cons_of_mem, eq-or-mem_of_mem-cons, perm_ext_iff_of_Nodup, Mem-prop,
}
use mathlib.Core.Path.{◌≡◌, refl, ap, sym}
use Prim.Native.Nat.{ℕ, zero, suc, ◌+◌, ◌≤◌}
use native.Mathlib.Omega.{arith}
use soffortmcp.Prelude.Tests.{Eq, ◌==◌, nat_beq, Bool-cases, if◌then◌else◌}

module _ {ℓ} {A : Type ℓ} where
  abbrev pub length : List A → ℕ
  length [] = 0
  length (x ∷ xs) = suc (length xs)

  unfoldable pub all : (A → Bool) → List A → Bool
  all p [] = true
  all p (x ∷ xs) = p x && all p xs

  unfoldable pub any : (A → Bool) → List A → Bool
  any p [] = false
  any p (x ∷ xs) = p x || any p xs

  -- [x for x in xs if p(x)]
  unfoldable pub filter : (A → Bool) → List A → List A
  filter p [] = []
  filter p (x ∷ xs) = let rest = filter p xs in if p x then x ∷ rest else rest

  -- xs[:n]
  unfoldable pub take : ℕ → List A → List A
  take zero l = []
  take (suc n) [] = []
  take (suc n) (a ∷ l) = a ∷ take n l

  -- bool(xs)
  abbrev pub is_nonempty : List A → Bool
  is_nonempty [] = false
  is_nonempty (x ∷ xs) = true

  -- Each element meets a predicate.
  abbrev pub All {κ} : (A → Type κ) → List A → Type κ
  All P [] = Unit
  All P (x ∷ xs) = P x × All P xs

  pub length-append : (xs ys : List A) → length (xs ++ ys) ≡ length xs + length ys
  length-append [] ys = omega arith
  length-append (x ∷ xs) ys = omega (arith, length-append xs ys)

  pub length-take-le : (n : ℕ) (l : List A) → length (take n l) ≤ n
  unfolding take
  length-take-le zero l = omega arith
  length-take-le (suc n) [] = omega arith
  length-take-le (suc n) (a ∷ l) = omega (arith, length-take-le n l)

  pub take-All {κ} : (P : A → Type κ) (n : ℕ) (xs : List A) → All P xs → All P (take n xs)
  unfolding take
  take-All P zero xs h = tt
  take-All P (suc n) [] h = tt
  take-All P (suc n) (x ∷ xs) h = (h.0, take-All P n xs h.1)

  pub filter-All : (p : A → Bool) (xs : List A) → All (λ x. p x ≡ true) (filter p xs)
  unfolding filter
  filter-All p [] = tt
  filter-All p (x ∷ xs) = ground (arith, filter-All p xs)

  pub all-All : (p : A → Bool) (xs : List A) → all p xs ≡ true → All (λ x. p x ≡ true) xs
  unfolding all
  all-All p [] h = tt
  all-All p (x ∷ xs) h = ground (arith, all-All p xs)

  pub All-all : (p : A → Bool) (xs : List A) → All (λ x. p x ≡ true) xs → all p xs ≡ true
  unfolding all
  All-all p [] h = refl
  All-all p (x ∷ xs) h = ground (arith, All-all p xs)

  -- `not any(bad(x) for x in xs)` is `all(not bad(x) for x in xs)`.
  pub any-All : (p : A → Bool) (xs : List A) → any p xs ≡ false → All (λ x. p x ≡ false) xs
  unfolding any
  any-All p [] h = tt
  any-All p (x ∷ xs) h = ground (arith, any-All p xs)

  pub All-any : (p : A → Bool) (xs : List A) → All (λ x. p x ≡ false) xs → any p xs ≡ false
  unfolding any
  All-any p [] h = refl
  All-any p (x ∷ xs) h = ground (arith, All-any p xs)

module _ {ℓ κ} {A : Type ℓ} {B : Type κ} where
  pub length-map : (f : A → B) (xs : List A) → length (map f xs) ≡ length xs
  length-map f [] = refl
  length-map f (x ∷ xs) = ap suc (length-map f xs)

pub All-map {ℓ κ} :
    {A : Type ℓ} {P Q : A → Type κ} (f : (a : A) → P a → Q a) (xs : List A) → All P xs → All Q xs
All-map f [] h = tt
All-map f (x ∷ xs) h = (f x h.0, All-map f xs h.1)

module _ {ℓ} {A : Type ℓ} ⦃e : Eq A⦄ where
  -- a in xs
  unfoldable pub contains : A → List A → Bool
  contains a [] = false
  contains a (x ∷ xs) = x == a || contains a xs

  -- set(xs), by the last occurrence of each element
  unfoldable pub set_of : List A → List A
  unfolding contains
  set_of [] = []
  set_of (x ∷ xs) = let rest = set_of xs in if contains x xs then rest else x ∷ rest

  -- len(xs) != len(set(xs))
  unfoldable pub has_duplicates : List A → Bool
  unfolding set_of
  has_duplicates xs = not (nat_beq (length xs) (length (set_of xs)))

  -- set(xs) == set(ys)
  unfoldable pub same_set : List A → List A → Bool
  unfolding contains all
  same_set xs ys = all (λ x. contains x ys) xs && all (λ y. contains y xs) ys

  pub mem_of_contains : (a : A) (xs : List A) → contains a xs ≡ true → Mem a xs
  unfolding contains
  mem_of_contains a [] h = ground arith
  mem_of_contains a (x ∷ xs) h = elim (Bool-cases (x == a)) [
    | inl here ↦ subst_head ((e.beq_iff x a).0 here)
    | inr other ↦ mem-cons_of_mem x (mem_of_contains a xs (ground arith))
  ]
    where
      subst_head : x ≡ a → Mem a (x ∷ xs)
      subst_head p = rw p mem-cons_self

  not-mem_of_contains : (a : A) (xs : List A) → contains a xs ≡ false → ¬ Mem a xs
  unfolding contains
  not-mem_of_contains a [] h = not-mem-nil
  not-mem_of_contains a (x ∷ xs) h = λ m.
      Or.elim ⊥_prop (eq-or-mem_of_mem-cons m)
        (λ here. ground (arith, (e.beq_iff x a).1 (sym here)))
        (not-mem_of_contains a xs (ground arith))

  pub contains_of_mem : (a : A) (xs : List A) → Mem a xs → contains a xs ≡ true
  contains_of_mem a xs m = elim (Bool-cases (contains a xs)) [
    | inl h ↦ h
    | inr h ↦ absurd (not-mem_of_contains a xs h m)
  ]

  length-set_of-le : (xs : List A) → length (set_of xs) ≤ length xs
  unfolding set_of
  length-set_of-le [] = omega arith
  length-set_of-le (x ∷ xs) = ground (arith, length-set_of-le xs)

  -- `len(xs) == len(set(xs))` says that no element occurs twice.
  pub Nodup-of_has_duplicates : (xs : List A) → has_duplicates xs ≡ false → Nodup xs
  unfolding has_duplicates
  Nodup-of_has_duplicates [] h = Nodup-nil
  Nodup-of_has_duplicates (x ∷ xs) h = Nodup-cons.1 (
    not-mem_of_contains x xs (ground (arith, length-set_of-le xs)),
    Nodup-of_has_duplicates xs (ground (arith, length-set_of-le xs)),
  )

  pub has_duplicates_of_Nodup : (xs : List A) → Nodup xs → has_duplicates xs ≡ false
  unfolding has_duplicates
  has_duplicates_of_Nodup [] d = refl
  has_duplicates_of_Nodup (x ∷ xs) d = elim (Bool-cases (contains x xs)) [
    | inl h ↦ absurd ((Nodup-cons.0 d).0 (mem_of_contains x xs h))
    | inr h ↦ ground (arith, has_duplicates_of_Nodup xs (Nodup-cons.0 d).1)
  ]

  pub mem_of_all_contains :
      (a : A) (xs ys : List A) → all (λ x. contains x ys) xs ≡ true → Mem a xs → Mem a ys
  unfolding all
  mem_of_all_contains a [] ys h = λ m. absurd (not-mem-nil m)
  mem_of_all_contains a (x ∷ xs) ys h = λ m.
      Or.elim Mem-prop (eq-or-mem_of_mem-cons m)
        (λ here. mem_of_contains a ys (rw here (ground arith)))
        (mem_of_all_contains a xs ys (ground arith))

  all-contains_of_mem :
      (xs ys : List A) → ((a : A) → Mem a xs → Mem a ys) → all (λ x. contains x ys) xs ≡ true
  unfolding all
  all-contains_of_mem [] ys h = refl
  all-contains_of_mem (x ∷ xs) ys h = ground (
    arith,
    contains_of_mem x ys (h x mem-cons_self),
    all-contains_of_mem xs ys (λ a m. h a (mem-cons_of_mem x m)),
  )

  -- Without duplicates, `set(xs) == set(ys)` says that one list is a permutation of the other.
  pub perm_of_same_set : (xs ys : List A) → Nodup xs → Nodup ys → same_set xs ys ≡ true → Perm xs ys
  unfolding same_set
  perm_of_same_set xs ys dx dy h =
      (perm_ext_iff_of_Nodup dx dy).1 λ a.
        (mem_of_all_contains a xs ys (ground arith), mem_of_all_contains a ys xs (ground arith))

  pub same_set_of_perm : (xs ys : List A) → Perm xs ys → same_set xs ys ≡ true
  unfolding same_set
  same_set_of_perm xs ys p = ground (
    arith,
    all-contains_of_mem xs ys (λ a. (Perm.mem_iff p).0),
    all-contains_of_mem ys xs (λ a. (Perm.mem_iff p).1),
  )

pub take_of_length-le {ℓ} : {A : Type ℓ} (l : List A) (n : ℕ) → length l ≤ n → take n l ≡ l
unfolding take
take_of_length-le [] zero h = refl
take_of_length-le [] (suc n) h = refl
take_of_length-le (a ∷ l) zero h = absurd (omega arith)
take_of_length-le (a ∷ l) (suc n) h = ap (◌∷◌ a) (take_of_length-le l n (omega arith))
