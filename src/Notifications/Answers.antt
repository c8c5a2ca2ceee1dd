-- ===== src/Notifications/Answers.antt =====
-- The answers of APNs, and what `_send_one` makes of them.
use soffortmcp.Prelude.{
  ℕ, String, true, ◌↔◌, contains, eq_iff, Option, some, ◌≡◌, ◌⊎◌, inl, inr, refl, arith, ap,
  string_eq,
}
use soffortmcp.Prelude.Json.{Value, str}
use soffortmcp.Notifications.{
  Posted, responded, http_failed, raised, is_accepted, is_invalid, is_dead_token, classify,
}

-- The answers of APNs that name a dead token.
abbrev pub IsDeadReason : String → Type 0
IsDeadReason reason =
    (reason ≡ "BadDeviceToken") ⊎ (reason ≡ "DeviceTokenNotForTopic") ⊎ (reason ≡ "Unregistered")

abbrev pub IsDeadAnswer : Posted → Type 0
IsDeadAnswer x =
    (status : ℕ) × (reason : String) × (x ≡ responded status (some (str reason)))
    × ((status ≡ 400) ⊎ (status ≡ 410))
    × IsDeadReason reason

abbrev pub IsAccepted : Posted → Type 0
IsAccepted x = (reason : Option Value) × (x ≡ responded 200 reason)

is_dead_token_ok :
    (reason : Option Value)
    → is_dead_token reason ≡ true
    → (text : String) × (reason ≡ some (str text)) × IsDeadReason text
unfolding is_dead_token contains
is_dead_token_ok (some (str text)) h = (
  text,
  refl,
  ground (
    arith,
    eq_iff "BadDeviceToken" text,
    eq_iff "DeviceTokenNotForTopic" text,
    eq_iff "Unregistered" text,
  ),
)
is_dead_token_ok _ h = absurd (cc h)

dead_is_token : (text : String) → IsDeadReason text → is_dead_token (some (str text)) ≡ true
unfolding is_dead_token contains
dead_is_token text h = ground (
  arith,
  eq_iff "BadDeviceToken" text,
  eq_iff "DeviceTokenNotForTopic" text,
  eq_iff "Unregistered" text,
  h,
)

pub classify-IsAccepted : (x : Posted) → (is_accepted (classify x) ≡ true) ↔ IsAccepted x
unfolding classify
classify-IsAccepted http_failed = (λ h. absurd (cc h), λ (r, e). absurd (cc e))
classify-IsAccepted raised = (λ h. absurd (cc h), λ (r, e). absurd (cc e))
classify-IsAccepted (responded status reason) = (
  λ h. (reason, ap (λ n. responded n reason) (ground arith)),
  λ (r, e). let same : status ≡ 200 = cc in rw same refl,
)

pub classify-IsDeadAnswer : (x : Posted) → (is_invalid (classify x) ≡ true) ↔ IsDeadAnswer x
unfolding classify
classify-IsDeadAnswer http_failed = (λ h. absurd (cc h), λ (s, r, e, _, _). absurd (cc e))
classify-IsDeadAnswer raised = (λ h. absurd (cc h), λ (s, r, e, _, _). absurd (cc e))
classify-IsDeadAnswer (responded status reason) = (
  λ h.
      let test : is_dead_token reason ≡ true = ground arith in
      let code : (status ≡ 400) ⊎ (status ≡ 410) = ground arith in
      let (text, same, dead) = is_dead_token_ok reason test in
      (status, text, ap (responded status) same, code, dead),
  λ (s, r, e, code, dead).
      let same : status ≡ s = cc in
      let named : reason ≡ some (str r) = cc in
      elim code [
        | inl bad ↦ rw (same, bad, named, dead_is_token r dead) refl
        | inr gone ↦ rw (same, gone, named, dead_is_token r dead) refl
      ],
)
