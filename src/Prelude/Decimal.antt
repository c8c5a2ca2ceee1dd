-- ===== src/Prelude/Decimal.antt =====
-- `str(n)` of a number that is not negative.
use Prim.Native.Nat.{ℕ, zero, suc, ◌+◌, ◌-◌, ◌*◌, ◌/◌, ◌%◌, ◌<◌, ◌≤◌}
use Prim.Native.String.{String}
use mathlib.Core.List.{List, [], ◌∷◌, ◌++◌}
use mathlib.Core.Path.{◌≡◌, refl, ap, sym, ◌∙◌}
use native.Mathlib.Omega.{arith}
use soffortmcp.Prelude.Tests.{ltb, nat_eq, if◌then◌else◌, Bool-cases}
use soffortmcp.Prelude.Text.{codes, concat, codes-concat, is_digit}
use soffortmcp.Prelude.Lists.{all, contains}
use mathlib.Core.Bool.{Bool, true, false}
use mathlib.Core.Logic.{inl, inr}

-- One decimal digit; a caller's argument is below ten.
unfoldable pub digit : ℕ → String
digit zero = "0"
digit (suc zero) = "1"
digit (suc (suc zero)) = "2"
digit (suc (suc (suc zero))) = "3"
digit (suc (suc (suc (suc zero)))) = "4"
digit (suc (suc (suc (suc (suc zero))))) = "5"
digit (suc (suc (suc (suc (suc (suc zero)))))) = "6"
digit (suc (suc (suc (suc (suc (suc (suc zero))))))) = "7"
digit (suc (suc (suc (suc (suc (suc (suc (suc zero)))))))) = "8"
digit (suc (suc (suc (suc (suc (suc (suc (suc (suc n))))))))) = "9"

-- The fuel bounds the number of digits.
unfoldable pub decimal_digits : ℕ → ℕ → String
decimal_digits zero n = digit n
decimal_digits (suc fuel) n =
    let front = decimal_digits fuel (n / 10) in
    if ltb n 10 then digit n else concat front (digit (n % 10))

-- A number has fewer digits than it has units, or one.
unfoldable pub decimal : ℕ → String
decimal n = decimal_digits n n

read_digits : ℕ → List ℕ → ℕ
read_digits n [] = n
read_digits n (c ∷ s) = read_digits (n * 10 + (c - 48)) s

read_digits-append :
    (n : ℕ) (s t : List ℕ) → read_digits n (s ++ t) ≡ read_digits (read_digits n s) t
unfolding read_digits
read_digits-append n [] t = refl
read_digits-append n (c ∷ s) t = read_digits-append (n * 10 + (c - 48)) s t

read_digits-digit : (m n : ℕ) → n < 10 → read_digits m (codes (digit n)) ≡ m * 10 + n
unfolding read_digits digit
read_digits-digit m zero h = omega arith
read_digits-digit m (suc zero) h = omega arith
read_digits-digit m (suc (suc zero)) h = omega arith
read_digits-digit m (suc (suc (suc zero))) h = omega arith
read_digits-digit m (suc (suc (suc (suc zero)))) h = omega arith
read_digits-digit m (suc (suc (suc (suc (suc zero))))) h = omega arith
read_digits-digit m (suc (suc (suc (suc (suc (suc zero)))))) h = omega arith
read_digits-digit m (suc (suc (suc (suc (suc (suc (suc zero))))))) h = omega arith
read_digits-digit m (suc (suc (suc (suc (suc (suc (suc (suc zero)))))))) h = omega arith
read_digits-digit m (suc (suc (suc (suc (suc (suc (suc (suc (suc zero))))))))) h = omega arith
read_digits-digit m (suc (suc (suc (suc (suc (suc (suc (suc (suc (suc n)))))))))) h =
    absurd (omega arith)

read_digits-decimal_digits :
    (fuel n : ℕ) → n ≤ fuel → read_digits 0 (codes (decimal_digits fuel n)) ≡ n
unfolding decimal_digits
read_digits-decimal_digits zero n h = read_digits-digit 0 n (omega arith) ∙ omega arith
read_digits-decimal_digits (suc fuel) n h = elim (Bool-cases (ltb n 10)) [
  | inl small ↦ rw small (read_digits-digit 0 n (ground arith) ∙ omega arith)
  | inr large ↦
      rw (large, codes-concat, read_digits-append)
        (read_digits-digit _ (n % 10) (omega arith)
          ∙ omega (
            arith,
            ap (λ m. m * 10 + n % 10) (read_digits-decimal_digits fuel (n / 10) (ground arith)),
          ))
]

-- Different numbers are spelled differently.
pub decimal-injective : (m n : ℕ) → decimal m ≡ decimal n → m ≡ n
unfolding decimal
decimal-injective m n h =
    sym (read_digits-decimal_digits m m (omega arith))
    ∙ ap (λ s. read_digits 0 (codes s)) h
    ∙ read_digits-decimal_digits n n (omega arith)

digit-is_digit : (n : ℕ) → all is_digit (codes (digit n)) ≡ true
unfolding digit all
digit-is_digit zero = refl
digit-is_digit (suc zero) = refl
digit-is_digit (suc (suc zero)) = refl
digit-is_digit (suc (suc (suc zero))) = refl
digit-is_digit (suc (suc (suc (suc zero)))) = refl
digit-is_digit (suc (suc (suc (suc (suc zero))))) = refl
digit-is_digit (suc (suc (suc (suc (suc (suc zero)))))) = refl
digit-is_digit (suc (suc (suc (suc (suc (suc (suc zero))))))) = refl
digit-is_digit (suc (suc (suc (suc (suc (suc (suc (suc zero)))))))) = refl
digit-is_digit (suc (suc (suc (suc (suc (suc (suc (suc (suc n))))))))) = refl

all-append : (p : ℕ → Bool) (s t : List ℕ) → all p s ≡ true → all p t ≡ true → all p (s ++ t) ≡ true
unfolding all
all-append p [] t hs ht = ht
all-append p (c ∷ s) t hs ht = ground (arith, all-append p s t)

decimal_digits-is_digit : (fuel n : ℕ) → all is_digit (codes (decimal_digits fuel n)) ≡ true
unfolding decimal_digits
decimal_digits-is_digit zero n = digit-is_digit n
decimal_digits-is_digit (suc fuel) n = elim (Bool-cases (ltb n 10)) [
  | inl small ↦ rw small (digit-is_digit n)
  | inr large ↦
      rw (large, codes-concat)
        (all-append is_digit _ _ (decimal_digits-is_digit fuel (n / 10)) (digit-is_digit (n % 10)))
]

pub decimal-is_digit : (n : ℕ) → all is_digit (codes (decimal n)) ≡ true
unfolding decimal
decimal-is_digit n = decimal_digits-is_digit n n

pub digits_without :
    (c : ℕ) (s : List ℕ) → is_digit c ≡ false → all is_digit s ≡ true → contains c s ≡ false
unfolding all contains
digits_without c [] h hs = refl
digits_without c (d ∷ s) h hs = ground (arith, digits_without c s h)
