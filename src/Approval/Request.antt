-- ===== src/Approval/Request.antt =====
-- `_request` and the two tools' requests: what they return and what may leave them.
use soffortmcp.Prelude.{
  ℕ, true, false, not, ◌||◌, String, Option, none, some, List, [], ◌≡◌, ◌⊎◌, inl, inr, refl,
  is_nonempty, Bool-cases, arith, Failure, Result, ok, err, ApprovalErrorCode, approval_error,
  cancelled,
}
use soffortmcp.Prelude.Exec.{
  Outcome, Ends, bind-Ends, catch-Ends, any-Outcome, catch, pure, raise, ◌>>◌,
}
use soffortmcp.Models.{partition_key, Principal, Device, Approval, is_status}
use soffortmcp.Models
use soffortmcp.Disclosure.{DisclosedProperty}
use soffortmcp.Approval.Service.{
  Service, World, Question, Fresh, best_effort_close, await, handle_failure, swallow,
  require_devices, new_approval, persist, on_undelivered, notify_and_wait, request,
  request_properties, disclose, on_invalid, pause, disable_all,
}
use soffortmcp.Approval.Wait.{IsDecided, wait_for_decision_decided}

abbrev Anything : {A : Type 0} → A → Type 0
Anything a = Unit {0}

-- All a caller may see: a public code, or its own cancellation.
abbrev pub IsPublic : Failure → Type 0
IsPublic e = ((code : ApprovalErrorCode) × (e ≡ approval_error code)) ⊎ (e ≡ cancelled)

swallowed : (e : Failure) → Outcome (Anything {A = Unit {0}}) IsPublic (swallow e)
swallowed cancelled = inr refl
swallowed _ = tt

module _ {S : Type 0} (service : Service S) where
  -- A close raises nothing but a cancellation.
  best_effort_close-Ends :
      (a : Approval) (status : Models.ApprovalStatus)
      → Ends Anything IsPublic (best_effort_close service a status)
  unfolding best_effort_close
  best_effort_close-Ends a status =
      catch-Ends Anything IsPublic Anything
        (do await (service.store.close_approval a status); pure tt) _ (λ w. any-Outcome _)
        (λ e _ w. swallowed e)

  close_then :
      {A : Type 0} (P : A → Type 0) (a : Approval) (status : Models.ApprovalStatus) (e : Failure)
      → IsPublic e
      → Ends P IsPublic (do best_effort_close service a status; raise e)
  close_then P a status e h =
      bind-Ends Anything P IsPublic (best_effort_close service a status) _
        (best_effort_close-Ends a status) (λ _ _ w. h)

  handle_failure-Ends :
      {A : Type 0} (P : A → Type 0) (approval : Option Approval) (e : Failure)
      → Ends P IsPublic (handle_failure service approval e)
  unfolding handle_failure
  handle_failure-Ends P approval (approval_error code) w = inl (code, refl)
  handle_failure-Ends P (some a) cancelled w =
      close_then P a Models.cancelled cancelled (inr refl) w
  handle_failure-Ends P none cancelled w = inr refl
  handle_failure-Ends P approval _ w = inl (_, refl)

  notify_and_wait-Ends :
      (principal : Principal) (a : Approval) (devices : List Device)
      → Ends IsDecided Anything (notify_and_wait service principal a devices)
  unfolding notify_and_wait
  notify_and_wait-Ends principal a devices =
      bind-Ends Anything IsDecided Anything
        (catch (await (λ at s. (service.send_approval a devices, s))) (on_undelivered service a)) _
        (λ w. any-Outcome _)
        λ delivery _.
          bind-Ends Anything IsDecided Anything
            (disable_all service (partition_key principal) delivery.invalid_device_ids) _
            (λ w. any-Outcome _)
            λ _ _ w. elim (Bool-cases (is_nonempty delivery.accepted_device_ids)) [
              | inl e ↦ rw e (wait_for_decision_decided service a w)
              | inr e ↦ rw e (
                  bind-Ends Anything IsDecided Anything
                    (best_effort_close service a Models.cancelled) _ (λ w. any-Outcome _)
                    (λ _ _ t. tt) w)
            ]

  -- Whatever the adapters raise and whatever other tasks do, `_request` returns only an approval that
  -- was approved or denied, and raises only a public code or its own cancellation.
  pub request-Outcome :
      (principal : Principal) (q : Question) (fresh : Fresh) (w : World S)
      → Outcome IsDecided IsPublic (request service principal q fresh w).0
  unfolding request
  request-Outcome principal q fresh =
      bind-Ends Anything IsDecided IsPublic
        (catch (require_devices service principal) (handle_failure service none)) _
        (catch-Ends Anything IsPublic Anything _ _ (λ w. any-Outcome _)
          (λ e _. handle_failure-Ends Anything none e))
        λ devices _ w.
          let a = new_approval service principal q fresh w.clock in
          bind-Ends Anything IsDecided IsPublic
            (catch (persist service a) (handle_failure service (some a))) _
            (catch-Ends Anything IsPublic Anything _ _ (λ w. any-Outcome _)
              (λ e _. handle_failure-Ends Anything (some a) e))
            (λ persisted _.
              catch-Ends IsDecided IsPublic Anything
                (notify_and_wait service principal persisted devices) _
                (notify_and_wait-Ends principal persisted devices)
                (λ e _. handle_failure-Ends IsDecided (some persisted) e))
            w

-- What `request_properties` hands out: no value, or the decryption of an approved, sealed answer.
pub record IsRelease {S : Type 0} (service : Service S) (result : Approval × List DisclosedProperty)
    : Type 0 where
  pub decided : IsDecided result.0
  pub released :
      (result.1 ≡ [])
      ⊎ ((is_status result.0.status Models.approved ≡ true)
          × (is_nonempty result.0.approved_keys ≡ true)
          × ((at : ℕ) × (service.decrypt at result.0 ≡ ok result.1)))

module _ {S : Type 0} (service : Service S) where
  on_invalid-Outcome :
      (P : List DisclosedProperty → Type 0) (e : Failure) (w : World S)
      → Outcome P IsPublic (on_invalid service e w).0
  on_invalid-Outcome P cancelled w = inr refl
  on_invalid-Outcome P _ w = inl (_, refl)

  decrypted :
      (a : Approval) (r : Result (List DisclosedProperty)) (at : ℕ)
      → service.decrypt at a ≡ r
      → Outcome (λ values. (t : ℕ) × (service.decrypt t a ≡ ok values)) Anything r
  decrypted a (ok values) at h = (at, h)
  decrypted a (err e) at h = tt

  approved_of :
      (a : Approval)
      → IsDecided a
      → (is_status a.status Models.denied || not (is_nonempty a.approved_keys)) ≡ false
      → (is_status a.status Models.approved ≡ true) × (is_nonempty a.approved_keys ≡ true)
  approved_of a d h = ground arith

  disclose-Ends :
      (a : Approval) → IsDecided a → Ends (IsRelease service) IsPublic (disclose service a)
  unfolding disclose await
  disclose-Ends a d w =
      elim (Bool-cases (is_status a.status Models.denied || not (is_nonempty a.approved_keys))) [
        | inl e ↦ rw e (record { decided = d; released = inl refl })
        | inr e ↦ rw e (
            bind-Ends (λ values. (t : ℕ) × (service.decrypt t a ≡ ok values)) (IsRelease service)
              IsPublic (catch (await (λ at s. (service.decrypt at a, s))) (on_invalid service)) _
              (catch-Ends _ IsPublic Anything (await (λ at s. (service.decrypt at a, s)))
                (on_invalid service) (λ t. decrypted a _ (pause t).clock refl)
                (λ f _. on_invalid-Outcome _ f))
              (λ values v t. record {
                decided = d;
                released = inr ((approved_of a d e).0, (approved_of a d e).1, v);
              })
              w)
      ]

  -- Whatever the adapters raise and whatever other tasks do, `request_properties` returns a decided
  -- approval, with no value or, if the phone approved some key, with what the decryption of exactly
  -- this approval returned; it raises only a public code or its own cancellation.
  pub request_properties-Outcome :
      (principal : Principal) (keys : List String) (purpose : String) (fresh : Fresh) (w : World S)
      → Outcome
          (IsRelease service)
          IsPublic
          (request_properties service principal keys purpose fresh w).0
  unfolding request_properties
  request_properties-Outcome principal keys purpose fresh =
      bind-Ends IsDecided (IsRelease service) IsPublic (request service principal _ fresh) _
        (request-Outcome service principal _ fresh) disclose-Ends
