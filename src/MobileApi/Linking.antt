-- ===== src/MobileApi/Linking.antt =====
-- `put_device` and `_require_mobile_principal`: who may link a phone.
use soffortmcp.Prelude.{
  ℕ, ◌<◌, ◌/◌, String, false, ◌||◌, Option, none, some, List, ◌≡◌, refl, arith, leb, string_eq,
  Result, ok, http_error, guard, bind-eq-ok, ok-injective, Bool-cases, inl, inr, ◌∙◌, ap, subst,
  sym,
}
use soffortmcp.Prelude.Exec.{continue-eq-ok}
use soffortmcp.Prelude.Json.{Value, ℤ, str, int}
use soffortmcp.Models.{Principal, partition_key, EnrollmentChallenge, Device}
use soffortmcp.DeviceSecurity.{
  Crypto, is_text, canonical_uuid7, parse_public_jwk, require_fresh_issued_at, enrollment_message,
  jwk_thumbprint, verify_signature, validate_apns_token,
}
use soffortmcp.DeviceSecurity.Proofs.{
  IsSigned, IsFresh, require_fresh_issued_at_iff, verify_signature-IsSigned,
}
use soffortmcp.Disclosure.{member}
use soffortmcp.Approval.Service.{World, await, pause}
use soffortmcp.MobileApi.{
  Body, MobileSettings, is_true, challenge_id_of, usable_challenge, EnrollmentStore, enrollment_of,
  check_enrollment, put_device,
}

usable_challenge_ok :
    (at : ℕ) (found : Option EnrollmentChallenge) (challenge : EnrollmentChallenge)
    → usable_challenge at found ≡ ok challenge
    → (found ≡ some challenge) × (challenge.consumed ≡ false) × (at < challenge.expires_at)
unfolding usable_challenge
usable_challenge_ok at none challenge h = absurd (cc h)
usable_challenge_ok at (some c) challenge h =
    elim (Bool-cases (c.consumed || leb c.expires_at at)) [
      | inl e ↦ absurd (let refused = rw e at h in cc)
      | inr e ↦
          let same : c ≡ challenge = ok-injective (rw e at h) in
          rw (← same) (refl, ground arith, ground arith)
    ]

body_read :
    {S : Type 0} (read : Result Body) (w : World S) {body : Body}
    → (await (λ at s. (read, s)) w).0 ≡ ok body
    → read ≡ ok body
unfolding await
body_read read w h = h

body_read_world :
    {S A : Type 0} (read : Result Body) (w : World S) (f : World S → A)
    → f (pause w) ≡ f (await (λ at s. (read, s)) w).1
unfolding await
body_read_world read w f = refl

module _ (settings : MobileSettings) (crypto : Crypto) where
  -- The device was proved: its key signed the enrollment of this account, device and challenge, over
  -- the thumbprint of that very key.
  pub record IsProved (principal : Principal) (device_id challenge_id : String)
      (challenge : EnrollmentChallenge) (body : Body) (at : ℕ) (device : Device) : Type 0 where
    pub thumbprint : List ℕ
    pub issued_at : ℤ
    pub signature : Value
    pub sent_time : member "issued_at" body ≡ ok (int issued_at)
    pub fresh : IsFresh (at / 1000000) issued_at
    pub stamped : jwk_thumbprint crypto device.public_jwk ≡ ok thumbprint
    pub sent : member "signature" body ≡ ok signature
    pub signed :
        IsSigned crypto device.public_jwk
          (enrollment_message (
            enrollment_of settings crypto principal device_id challenge_id challenge thumbprint
              issued_at))
          signature
    pub owned : device.partition_key ≡ partition_key principal
    pub named : device.device_id ≡ device_id
    pub environment : device.apns_environment ≡ settings.apns_environment

  check_enrollment-IsProved :
      (principal : Principal) (at : ℕ) (device_id challenge_id : String)
      (challenge : EnrollmentChallenge) (body : Body) (device : Device)
      → check_enrollment settings crypto principal at device_id challenge_id challenge body
        ≡ ok device
      → IsProved principal device_id challenge_id challenge body at device
  unfolding check_enrollment
  check_enrollment-IsProved principal at device_id challenge_id challenge body device h =
      let (raw_key, _, r1) = bind-eq-ok (member "public_jwk" body) _ h in
      let (key, _, r2) = bind-eq-ok (parse_public_jwk crypto raw_key) _ r1 in
      let (raw_issued_at, sent_time, r3) = bind-eq-ok (member "issued_at" body) _ r2 in
      let (issued_at, timed, r4) = bind-eq-ok (require_fresh_issued_at at raw_issued_at) _ r3 in
      let (same_time, fresh) = (require_fresh_issued_at_iff at raw_issued_at issued_at).0 timed in
      let (thumbprint, stamped, r5) = bind-eq-ok (jwk_thumbprint crypto key.jwk) _ r4 in
      let (signature, sent, r6) = bind-eq-ok (member "signature" body) _ r5 in
      let (_, signed, r7) =
        bind-eq-ok
          (verify_signature crypto key.jwk
            (enrollment_message (
              enrollment_of settings crypto principal device_id challenge_id challenge thumbprint
                issued_at))
            signature)
          _ r6 in
      let (environment, _, r8) = bind-eq-ok (member "apns_environment" body) _ r7 in
      let (_, _, r9) =
        bind-eq-ok
          (guard (is_text environment settings.apns_environment)
            (http_error 400 "unsupported_apns_environment"))
          _ r8 in
      let (enabled, _, r10) = bind-eq-ok (member "notifications_enabled" body) _ r9 in
      let (_, _, r11) =
        bind-eq-ok (guard (is_true enabled) (http_error 400 "notifications_must_be_enabled")) _
          r10 in
      let (raw_token, _, r12) = bind-eq-ok (member "apns_token" body) _ r11 in
      let (apns_token, _, last) = bind-eq-ok (validate_apns_token raw_token) _ r12 in
      rw (← ok-injective last) (record {
        thumbprint = thumbprint;
        issued_at = issued_at;
        signature = signature;
        sent_time = sent_time ∙ ap ok same_time;
        fresh = fresh;
        stamped = stamped;
        sent = sent;
        signed = verify_signature-IsSigned _ _ _ _ signed;
        owned = refl;
        named = refl;
        environment = refl;
      })

  -- What stands behind a linked phone: a body for the device of the path, an unused challenge of this
  -- account that was live when it had been read, the device's own proof at that instant, and a
  -- registration that the store accepted next.
  pub record IsLinked {S : Type 0} (store : EnrollmentStore S) (principal : Principal)
      (raw_id : String) (read : Result Body) (w : World S) (device : Device) : Type 0 where
    pub body : Body
    pub challenge_id : String
    pub challenge : EnrollmentChallenge
    pub after : World S
    pub stored : Device
    pub path : canonical_uuid7 (str raw_id) ≡ ok device.device_id
    pub sent : read ≡ ok body
    pub named : challenge_id_of body ≡ ok challenge_id
    pub found :
        await (store.get_challenge (partition_key principal) challenge_id) (pause w)
        ≡ (ok (some challenge), after)
    pub unused : challenge.consumed ≡ false
    pub live : after.clock < challenge.expires_at
    pub proved : IsProved principal device.device_id challenge_id challenge body after.clock device
    pub registered : (await (store.register_device challenge device) after).0 ≡ ok stored

  -- `put_device` answers with a device only if the path and the body name the device and a challenge,
  -- the store, asked after the body was read, holds this challenge of the account unused, it is live at
  -- the clock after that read, the device's key signed the enrollment of this account, device and
  -- challenge with an `issued_at` within 30 seconds of that clock, and the store, called next,
  -- registered the device under the challenge.
  pub put_device-IsLinked :
      {S : Type 0} (store : EnrollmentStore S) (principal : Principal) (raw_id : String)
      (read : Result Body) (w : World S) (device : Device)
      → (put_device settings crypto store principal raw_id read w).0 ≡ ok device
      → IsLinked store principal raw_id read w device
  unfolding put_device
  put_device-IsLinked {S} store principal raw_id read w device h =
      let (device_id, path, h1) = continue-eq-ok (canonical_uuid7 (str raw_id)) _ w h in
      let m1 = await (λ at s. (read, s)) w in
      let (body, sent, h2) = continue-eq-ok m1.0 _ m1.1 h1 in
      let (challenge_id, named, h3) = continue-eq-ok (challenge_id_of body) _ m1.1 h2 in
      let m2 = await (store.get_challenge (partition_key principal) challenge_id) m1.1 in
      let (found, got, h4) = continue-eq-ok m2.0 _ m2.1 h3 in
      let (challenge, usable, h5) = continue-eq-ok (usable_challenge m2.1.clock found) _ m2.1 h4 in
      let (d, checked, h6) =
        continue-eq-ok
          (check_enrollment settings crypto principal m2.1.clock device_id challenge_id challenge
            body)
          _ m2.1 h5 in
      let m3 = await (store.register_device challenge d) m2.1 in
      let (stored, registered, h7) = continue-eq-ok m3.0 _ m3.1 h6 in
      let (same, unused, live) = usable_challenge_ok m2.1.clock found challenge usable in
      let proved =
        check_enrollment-IsProved principal m2.1.clock device_id challenge_id challenge body d
          checked in
      rw (← ok-injective h7) (record {
        body = body;
        challenge_id = challenge_id;
        challenge = challenge;
        after = m2.1;
        stored = stored;
        path = path ∙ ap ok (sym proved.named);
        sent = body_read read w sent;
        named = named;
        found =
            body_read_world read w
              (λ v. await (store.get_challenge (partition_key principal) challenge_id) v)
            ∙ ap (λ r. (r, m2.1)) (got ∙ ap ok same);
        unused = unused;
        live = live;
        proved =
            subst (λ i. IsProved principal i challenge_id challenge body m2.1.clock d)
              (sym proved.named) proved;
        registered = registered;
      })
