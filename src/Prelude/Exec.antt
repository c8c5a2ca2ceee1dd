-- ===== src/Prelude/Exec.antt =====
-- Methods that mutate shared state and may raise.
use mathlib.Core.Path.{◌≡◌, refl}
use soffortmcp.Prelude.Results.{Failure, Result, ok, err}

abbrev pub Exec {ℓ} : Type ℓ → Type ℓ → Type ℓ
Exec S A = S → Result A × S

module _ {ℓ} {S A B : Type ℓ} where
  abbrev pub continue : Result A → (A → Exec S B) → Exec S B
  continue (ok a) f s = f a s
  continue (err e) f s = (err e, s)

  infixl 5 ◌>>=◌ ◌>>◌
  abbrev pub ◌>>=◌ : Exec S A → (A → Exec S B) → Exec S B
  ◌>>=◌ m f s = let r = m s in continue r.0 f r.1

  abbrev pub ◌>>◌ : Exec S A → Exec S B → Exec S B
  m >> n = m >>= λ _. n

module _ {ℓ} {S A : Type ℓ} where
  abbrev pub pure : A → Exec S A
  pure a s = (ok a, s)

  abbrev pub raise : Failure → Exec S A
  raise e s = (err e, s)

  abbrev pub lift : Result A → Exec S A
  lift r s = (r, s)

  abbrev pub resume : Result A → (Failure → Exec S A) → Exec S A
  resume (ok a) h s = (ok a, s)
  resume (err e) h s = h e s

  -- try: m / except e: h(e). What `m` wrote before it raised stays.
  abbrev pub catch : Exec S A → (Failure → Exec S A) → Exec S A
  catch m h s = let r = m s in resume r.0 h r.1

-- A returned value meets `P`; a raised exception is in `Q`.
abbrev pub Outcome {ℓ κ} : {A : Type ℓ} → (A → Type κ) → (Failure → Type κ) → Result A → Type κ
Outcome P Q (ok a) = P a
Outcome P Q (err e) = Q e

module _ {ℓ κ} {S A B : Type ℓ} (P : B → Type κ) (Q : Failure → Type κ) where
  pub continue-Outcome :
      (r : Result A) (f : A → Exec S B) (s : S)
      → Outcome {A = A} (λ a. Outcome P Q (f a s).0) Q r
      → Outcome P Q (continue r f s).0
  continue-Outcome (ok a) f s h = h
  continue-Outcome (err e) f s h = h

module _ {ℓ κ} {S A : Type ℓ} (P : A → Type κ) (Q : Failure → Type κ) where
  pub resume-Outcome :
      (r : Result A) (h : Failure → Exec S A) (s : S)
      → Outcome P (λ e. Outcome P Q (h e s).0) r
      → Outcome P Q (resume r h s).0
  resume-Outcome (ok a) h s p = p
  resume-Outcome (err e) h s p = p

-- Whatever is known of the parts holds of the result.
pub Outcome-all {ℓ κ} :
    {A : Type ℓ} (P : A → Type κ) (Q : Failure → Type κ) (r : Result A)
    → ((a : A) → P a)
    → ((e : Failure) → Q e)
    → Outcome P Q r
Outcome-all P Q (ok a) p q = p a
Outcome-all P Q (err e) p q = q e

pub continue-cong {ℓ} :
    {S A B : Type ℓ} (r : Result A) (f g : A → Exec S B) (s : S)
    → ((a : A) → f a s ≡ g a s)
    → continue r f s ≡ continue r g s
continue-cong (ok a) f g s h = h a
continue-cong (err e) f g s h = refl

module _ {ℓ κ} {S A : Type ℓ} where
  -- From any state, a method returns values in `P` and raises exceptions in `Q`.
  abbrev pub Ends : (A → Type κ) → (Failure → Type κ) → Exec S A → Type (ℓ ⊔ κ)
  Ends P Q m = (s : S) → Outcome P Q (m s).0

  resume-Ends :
      (P : A → Type κ) (Q R : Failure → Type κ) (r : Result A) (h : Failure → Exec S A) (s : S)
      → Outcome P R r
      → ((e : Failure) → R e → (t : S) → Outcome P Q (h e t).0)
      → Outcome P Q (resume r h s).0
  resume-Ends P Q R (ok a) h s p k = p
  resume-Ends P Q R (err e) h s p k = k e p s

  pub catch-Ends :
      (P : A → Type κ) (Q R : Failure → Type κ) (m : Exec S A) (h : Failure → Exec S A)
      → ((s : S) → Outcome P R (m s).0)
      → ((e : Failure) → R e → (s : S) → Outcome P Q (h e s).0)
      → (s : S) → Outcome P Q (catch m h s).0
  catch-Ends P Q R m h p k s = resume-Ends P Q R (m s).0 h (m s).1 (p s) k

module _ {ℓ κ} {S A B : Type ℓ} where
  continue-Ends :
      (R : A → Type κ) (P : B → Type κ) (Q : Failure → Type κ) (r : Result A) (f : A → Exec S B)
      (s : S)
      → Outcome R Q r
      → ((a : A) → R a → (t : S) → Outcome P Q (f a t).0)
      → Outcome P Q (continue r f s).0
  continue-Ends R P Q (ok a) f s h k = k a h s
  continue-Ends R P Q (err e) f s h k = h

  pub bind-Ends :
      (R : A → Type κ) (P : B → Type κ) (Q : Failure → Type κ) (m : Exec S A) (f : A → Exec S B)
      → ((s : S) → Outcome R Q (m s).0)
      → ((a : A) → R a → (s : S) → Outcome P Q (f a s).0)
      → (s : S) → Outcome P Q ((m >>= f) s).0
  bind-Ends R P Q m f h k s = continue-Ends R P Q (m s).0 f (m s).1 (h s) k

pub any-Outcome {ℓ} : {A : Type ℓ} (r : Result A) → Outcome (λ _. Unit {0}) (λ _. Unit {0}) r
any-Outcome r = Outcome-all _ _ r (λ _. tt) (λ _. tt)

pub continue-eq-ok {ℓ} :
    {S A B : Type ℓ} (r : Result A) (f : A → Exec S B) (s : S) {b : B}
    → (continue r f s).0 ≡ ok b
    → (a : A) × (r ≡ ok a) × ((f a s).0 ≡ ok b)
continue-eq-ok (ok a) f s h = (a, refl, h)
continue-eq-ok (err e) f s h = cc
