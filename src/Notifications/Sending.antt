-- ===== src/Notifications/Sending.antt =====
-- What a delivery reports, and the age of the provider's token.
use soffortmcp.Prelude.{
  ℕ, ◌+◌, ◌<◌, String, true, ◌↔◌, ◌==◌, Bool, false, not, ◌&&◌, Option, none, some, List, [], ◌∷◌,
  map, ◌≡◌, ◌≢◌, ◌⊎◌, inl, inr, refl, arith, ap, sym, ◌∙◌, ok-injective, string_eq, is_nonempty,
  Bool-cases, Option-cases, All, Result, ok, err,
}
use soffortmcp.Prelude.Exec.{continue, lift, continue-eq-ok}
use soffortmcp.Models.{Approval, Device}
use soffortmcp.Notifications.Answers.{
  IsDeadAnswer, IsAccepted, classify-IsAccepted, classify-IsDeadAnswer,
}
use soffortmcp.Notifications.{
  ApnsSettings, Notifier, DeliveryResult, Delivery, Push, push, Posted, Encoder, send_one, reusable,
  new_token, get_provider_token, ids_of, is_accepted, is_invalid, any_transient, summary,
  send_approval,
}

reused :
    (now at : ℕ) (held : Option String) (token : String)
    → reusable now at held ≡ some token
    → (held ≡ some token) × (now < at + 3000)
unfolding reusable
reused now at held token h = ground arith

module _ (settings : ApnsSettings) where
  renewed :
      (encode : Encoder) (now : ℕ) (key key_id : Option String) (token : String) (s t : Notifier)
      → new_token settings encode now key key_id s ≡ (ok token, t)
      → (t.provider_token ≡ some token) × (t.provider_token_created_at ≡ now)
  unfolding new_token
  renewed encode now (some key) (some key_id) token s t h = ground arith
  renewed encode now (some key) none token s t h = absurd (cc h)
  renewed encode now none key_id token s t h = absurd (cc h)

  age_of_old :
      (old token : String) (s t : Notifier)
      → ◌≡◌ {A = Result String × Notifier} (ok old, s) (ok token, t)
      → (old ≡ token) × (t ≡ s)
  age_of_old old token s t h = (
    ok-injective (ap (λ (r : Result String × Notifier). r.0) h),
    sym (ap (λ (r : Result String × Notifier). r.1) h),
  )

  -- Every token that `_get_provider_token` returns is the one that is held afterwards, and is less
  -- than 50 minutes old: it was either held before or made now.
  pub get_provider_token_age :
      (encode : Encoder) (now : ℕ) (token : String) (s t : Notifier)
      → get_provider_token settings encode now s ≡ (ok token, t)
      → (t.provider_token ≡ some token)
        × (now < t.provider_token_created_at + 3000)
        × ((t ≡ s) ⊎ (t.provider_token_created_at ≡ now))
  unfolding get_provider_token
  get_provider_token_age encode now token s t h =
      elim (Option-cases (reusable now s.provider_token_created_at s.provider_token)) [
        | inl e ↦
            let (held, made) =
              renewed encode now s.private_key settings.apns_key_id token s t
                (rw (get_provider_token, e) at h) in
            (held, omega (arith, made), inr made)
        | inr (old, e) ↦
            let (same, kept) = age_of_old old token s t (rw (get_provider_token, e) at h) in
            let (held, young) = reused now s.provider_token_created_at s.provider_token old e in
            rw kept (rw (← same) (held, young, inl refl))
      ]

-- These are the devices of a list in `P` by their identifiers, in the order of the list, and no other.
pub data Selected (P : Device → Type 0) : List Device → List String → Type 0 where
  nothing : Selected P [] []
  taken :
      {device : Device} {devices : List Device} {ids : List String}
      → P device
      → Selected P devices ids
      → Selected P (device ∷ devices) (device.device_id ∷ ids)
  passed :
      {device : Device} {devices : List Device} {ids : List String}
      → ¬ P device
      → Selected P devices ids
      → Selected P (device ∷ devices) ids

nonempty_or_nil : (l : List String) → (is_nonempty l ≡ true) ⊎ (l ≡ [])
nonempty_or_nil [] = inr refl
nonempty_or_nil (s ∷ l) = inl refl

lifted_state {ℓ} :
    {S A B : Type ℓ} (r : Result A) (g : A → Result B) (s : S)
    → (continue r (λ a. lift (g a)) s).1 ≡ s
lifted_state (ok a) g s = refl
lifted_state (err e) g s = refl

module _ (settings : ApnsSettings) (post : Push → Posted) (approval : Approval) where
  -- APNs accepted the push to a device of this environment.
  abbrev pub Accepts : String → Device → Type 0
  Accepts token device =
      (device.apns_environment ≡ settings.apns_environment)
      × IsAccepted (post (push settings token approval device))

  -- The device is of another environment, or APNs named its token dead.
  abbrev pub Refuses : String → Device → Type 0
  Refuses token device =
      (device.apns_environment ≢ settings.apns_environment)
      ⊎ IsDeadAnswer (post (push settings token approval device))

  -- Each device beside what became of it, under one token.
  abbrev results : String → List Device → List (Device × Delivery)
  results token devices =
      map (λ device. (device, send_one settings post token approval device)) devices

  pub record IsReport (token : String) (devices : List Device) (r : DeliveryResult) : Type 0 where
    pub accepted_in_order : Selected (Accepts token) devices r.accepted_device_ids
    pub invalid_in_order : Selected (Refuses token) devices r.invalid_device_ids
    pub all_dead : (is_nonempty r.accepted_device_ids ≡ true) ⊎ All (Refuses token) devices

  send_one_accepted :
      (token : String) (device : Device)
      → (is_accepted (send_one settings post token approval device) ≡ true) ↔ Accepts token device
  unfolding send_one
  send_one_accepted token device =
      let answer = classify-IsAccepted (post (push settings token approval device)) in
      elim (Bool-cases (device.apns_environment == settings.apns_environment)) [
        | inl e ↦
            let same = (string_eq.beq_iff device.apns_environment settings.apns_environment).0 e in
            rw e (λ h. (same, answer.0 h), λ h. answer.1 h.1)
        | inr e ↦ rw e (
          λ h. absurd (cc h),
          λ h.
              let yes_ =
                (string_eq.beq_iff device.apns_environment settings.apns_environment).1 h.0 in
              absurd (cc (e, yes_)),
        )
      ]

  send_one_invalid :
      (token : String) (device : Device)
      → (is_invalid (send_one settings post token approval device) ≡ true) ↔ Refuses token device
  unfolding send_one
  send_one_invalid token device =
      let answer = classify-IsDeadAnswer (post (push settings token approval device)) in
      let test = string_eq.beq_iff device.apns_environment settings.apns_environment in
      elim (Bool-cases (device.apns_environment == settings.apns_environment)) [
        | inl e ↦ rw e (
          λ h. inr (answer.0 h),
          λ h. elim h [ inl other ↦ absurd (other (test.0 e)) | inr dead ↦ answer.1 dead ],
        )
        | inr e ↦
            rw e (λ h. inl (λ same. let both = test.1 same in absurd (cc (e, both))), λ h. refl)
      ]

  selection :
      (p : Delivery → Bool) (P : Device → Type 0) (token : String) (devices : List Device)
      → ((device : Device) → (p (send_one settings post token approval device) ≡ true) ↔ P device)
      → Selected P devices (ids_of p (results token devices))
  unfolding ids_of
  selection p P token [] test = nothing
  selection p P token (device ∷ devices) test =
      elim (Bool-cases (p (send_one settings post token approval device))) [
        | inl e ↦ rw e (taken ((test device).0 e) (selection p P token devices test))
        | inr e ↦ rw e (
            passed (λ h. let both = (test device).1 h in absurd (cc (e, both)))
              (selection p P token devices test))
      ]

  all_refused :
      (token : String) (devices : List Device)
      → ids_of is_accepted (results token devices) ≡ []
      → any_transient (results token devices) ≡ false
      → All (Refuses token) devices
  unfolding ids_of any_transient
  all_refused token [] h k = tt
  all_refused token (device ∷ devices) h k =
      elim (Bool-cases (is_accepted (send_one settings post token approval device))) [
        | inl e ↦ absurd (let never = rw e at h in cc)
        | inr e ↦
            let dead : is_invalid (send_one settings post token approval device) ≡ true =
              ground (arith, rw e at k) in
            (
              (send_one_invalid token device).0 dead,
              all_refused token devices (rw e at h) (ground arith),
            )
      ]

  none_transient :
      (l : List (Device × Delivery))
      → (not (is_nonempty (ids_of is_accepted l)) && any_transient l) ≡ false
      → ids_of is_accepted l ≡ []
      → any_transient l ≡ false
  none_transient l h e = ground (arith, rw e at h)

  summary-IsReport :
      (token : String) (devices : List Device) (r : DeliveryResult)
      → summary (results token devices) ≡ ok r
      → IsReport token devices r
  unfolding summary
  summary-IsReport token devices r h =
      let l = results token devices in
      elim (Bool-cases (not (is_nonempty (ids_of is_accepted l)) && any_transient l)) [
        | inl e ↦ absurd (let no_report = rw e at h in cc)
        | inr e ↦
            let same : record {
              accepted_device_ids = ids_of is_accepted l;
              invalid_device_ids = ids_of is_invalid l;
            }
                ≡ r =
              ok-injective (rw e at h) in
            rw (← same) (record {
              accepted_in_order =
                  selection is_accepted (Accepts token) token devices (send_one_accepted token);
              invalid_in_order =
                  selection is_invalid (Refuses token) token devices (send_one_invalid token);
              all_dead = elim (nonempty_or_nil (ids_of is_accepted l)) [
                | inl some_ ↦ inl some_
                | inr none_ ↦ inr (all_refused token devices none_ (none_transient l e none_))
              ];
            })
      ]

  -- If `send_approval` returns, its report lists, in the order of the devices and under the token that
  -- is held afterwards: as accepted exactly the devices of the configured environment whose push APNs
  -- answered with 200, and as invalid exactly those of another environment and those whose push it
  -- answered with 400 or 410 and one of the three reasons of a dead token. If none is accepted, all are
  -- invalid in this sense: no failed request, other answer or exception stands behind an empty report.
  pub send_approval-IsReport :
      (encode : Encoder) (now : ℕ) (devices : List Device) (s t : Notifier) (r : DeliveryResult)
      → send_approval settings encode post now approval devices s ≡ (ok r, t)
      → (token : String) × (t.provider_token ≡ some token) × IsReport token devices r
  unfolding send_approval
  send_approval-IsReport encode now devices s t r h =
      let m = get_provider_token settings encode now s in
      let (token, got, rest) =
        continue-eq-ok m.0 _ m.1 (ap (λ (o : Result DeliveryResult × Notifier). o.0) h) in
      let after : m.1 ≡ t =
        sym (lifted_state m.0 (λ token. summary (results token devices)) m.1)
        ∙ ap (λ (o : Result DeliveryResult × Notifier). o.1) h in
      (
        token,
        rw (← after)
            (get_provider_token_age settings encode now token s m.1
              (ap (λ (o : Result String). (o, m.1)) got)).0,
        summary-IsReport token devices r rest,
      )
