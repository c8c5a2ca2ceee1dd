-- ===== src/Prelude/Results.antt =====
-- Exceptions as values, and actions on a state that may raise. What was written before a raise
-- stays written, so the state comes back beside the exception too.
use mathlib.Core.Path.{◌≡◌, refl}
use mathlib.Core.Bool.{Bool, true, false}
use mathlib.Core.Option.{Option, none, some}
use Prim.Native.Nat.{ℕ}
use Prim.Native.String.{String}

-- Stable, value-free failures of the approval service.
pub data ApprovalErrorCode : Type 0 where
  phone_not_linked notifications_unavailable approval_timed_out approval_unavailable :
      ApprovalErrorCode
  disclosure_invalid : ApprovalErrorCode

-- What the program raises. Of a built-in exception only the class is kept, of the program's own
-- also what its handlers read.
pub data Failure : Type 0 where
  store_conflict store_unavailable : Failure
  value_error key_error type_error : Failure
  approval_error : ApprovalErrorCode → Failure
  disclosure_error notification_unavailable : Failure
  http_error : ℕ → String → Failure
  tool_error : String → Failure
  cancelled : Failure
  -- CosmosHttpResponseError with its status: 404 is CosmosResourceNotFoundError, 412 is
  -- CosmosAccessConditionFailedError
  cosmos_error : ℕ → Failure
  -- jwt.PyJWTError, httpx.HTTPError
  jwt_error transport_error : Failure
  other_error : Failure

pub data Result {ℓ} (A : Type ℓ) : Type ℓ where
  ok : A → Result A
  err : Failure → Result A

-- Code that keeps no state: `>>=` of a module of its own, so that each file opens one.
abbrev pub bind {ℓ κ} : {A : Type ℓ} {B : Type κ} → Result A → (A → Result B) → Result B
bind (ok a) f = f a
bind (err e) f = err e

-- if not test: raise failure
abbrev pub guard : Bool → Failure → Result (Unit {0})
guard true e = ok tt
guard false e = err e

-- if test: raise failure
abbrev pub reject : Bool → Failure → Result (Unit {0})
reject true e = err e
reject false e = ok tt

abbrev pub or_raise {ℓ} : {A : Type ℓ} → Option A → Failure → Result A
or_raise none e = err e
or_raise (some a) e = ok a

pub bind-eq-ok {ℓ κ} :
    {A : Type ℓ} {B : Type κ} (m : Result A) (f : A → Result B) {b : B}
    → bind m f ≡ ok b
    → (a : A) × (m ≡ ok a) × (f a ≡ ok b)
bind-eq-ok (ok a) f h = (a, refl, h)
bind-eq-ok (err e) f h = cc

pub guard_ok : (b : Bool) (e : Failure) → guard b e ≡ ok tt → b ≡ true
guard_ok true e h = refl
guard_ok false e h = cc

pub reject_ok : (b : Bool) (e : Failure) → reject b e ≡ ok tt → b ≡ false
reject_ok true e h = cc
reject_ok false e h = refl

pub ok-injective {ℓ} : {A : Type ℓ} {a b : A} → ◌≡◌ {A = Result A} (ok a) (ok b) → a ≡ b
ok-injective h = cc
