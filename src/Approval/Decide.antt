-- ===== src/Approval/Decide.antt =====
-- `decide`: what an accepted answer must be.
use soffortmcp.Prelude.{
  ◌<◌, String, Bool, true, ◌&&◌, Option, none, some, ◌≡◌, ◌⊎◌, inl, inr, refl, ◌∙◌, ap, ◌==◌,
  string_eq, codes, codes_eq, Bool-cases, codes_beq_iff, ok, bind-eq-ok, guard, value_error,
  guard_ok, subst, arith,
}
use soffortmcp.Prelude.Exec.{continue-eq-ok}
use soffortmcp.Models.{
  ApprovalStatus, Principal, Device, Approval, is_status, is_expired, partition_key, option_beq,
}
use soffortmcp.Models
use soffortmcp.DeviceSecurity.{decision_message}
use soffortmcp.DeviceSecurity.Proofs.{IsSigned, verify_signature-IsSigned}
use soffortmcp.Disclosure.{result_manifest_hash}
use soffortmcp.Approval.{validate_result}
use soffortmcp.Approval.Partition.{IsShaped, validate_result-IsShaped}
use soffortmcp.Approval.Service.{
  Service, World, Answer, await, best_effort_close, check_answer, decide_pending, decide_found,
  decide, is_replay, consent_of, decision_of, desired_status,
}

is_status_sound : (s t : ApprovalStatus) → is_status s t ≡ true → s ≡ t
is_status_sound s t h = ground arith

and_true : (p q : Bool) → (p && q) ≡ true → (p ≡ true) × (q ≡ true)
and_true p q h = ground arith

module _ {S : Type 0} (service : Service S) (principal : Principal) (r : Answer) where
  -- The checks that an answer passed against one stored approval and one stored device.
  pub record IsAnswer (a : Approval) (device : Device) : Type 0 where
    pub shaped : IsShaped a.tool_name a.requested_keys r.decision r.manifest
    pub hashed : codes r.result_hash ≡ result_manifest_hash service.platform r.manifest
    pub signed :
        IsSigned service.crypto device.public_jwk
          (decision_message (consent_of principal a r))
          r.signature

  -- How `decide` comes to return: the stored approval records this decision, device and hash already,
  -- or the answer passed every check at the clock of that world and the store committed it there.
  pub record IsReplay (found : Approval) (a : Approval) : Type 0 where
    pub same : a ≡ found
    pub decided : found.status ≡ desired_status r.decision
    pub same_decision : found.decision_id ≡ some r.decision_id
    pub same_device : found.decided_by_device_id ≡ some r.device_id
    pub same_hash : found.result_hash ≡ some r.result_hash

  pub record IsCommit (found : Approval) (device : Device) (w : World S) (a : Approval)
      : Type 0 where
    pub pending : found.status ≡ Models.pending
    pub live : w.clock < found.expires_at
    pub answered : IsAnswer found device
    pub committed : (await (service.store.decide_approval found (decision_of w.clock r)) w).0 ≡ ok a

  -- The world after the stored approval was read, and after the device was.
  abbrev pub approval_read : World S → World S
  approval_read w = (await (service.store.get_approval (partition_key principal) r.approval_id) w).1

  abbrev pub device_read : World S → World S
  device_read w =
      (await (service.store.get_device (partition_key principal) r.device_id) (approval_read w)).1

  pub record IsAccepted (w : World S) (a : Approval) : Type 0 where
    pub found : Approval
    pub device : Device
    pub read :
        (await (service.store.get_approval (partition_key principal) r.approval_id) w).0
        ≡ ok (some found)
    pub read_device :
        (await (service.store.get_device (partition_key principal) r.device_id) (approval_read w)).0
        ≡ ok (some device)
    pub enabled : device.notifications_enabled ≡ true
    pub how : IsReplay found a ⊎ IsCommit found device (device_read w) a

  option_beq_sound : (o : Option String) (s : String) → option_beq o (some s) ≡ true → o ≡ some s
  option_beq_sound none s h = absurd (cc h)
  option_beq_sound (some t) s h = ap some ((string_eq.beq_iff t s).0 h)

  IsReplay-of_test : (found : Approval) → is_replay found r ≡ true → IsReplay found found
  IsReplay-of_test found h =
      let (first_three, hash) = and_true _ _ h in
      let (first_two, device) = and_true _ _ first_three in
      let (status, decision) = and_true _ _ first_two in
      record {
        same = refl;
        decided = is_status_sound found.status (desired_status r.decision) status;
        same_decision = option_beq_sound found.decision_id r.decision_id decision;
        same_device = option_beq_sound found.decided_by_device_id r.device_id device;
        same_hash = option_beq_sound found.result_hash r.result_hash hash;
      }

  check_answer-IsAnswer :
      (a : Approval) (device : Device)
      → check_answer service principal a device r ≡ ok tt
      → IsAnswer a device
  unfolding check_answer
  check_answer-IsAnswer a device h =
      let (_, shaped, r1) =
        bind-eq-ok
          (validate_result service.unicode a.tool_name a.requested_keys r.decision r.manifest) _
          h in
      let (_, hashed, signed) =
        bind-eq-ok
          (guard (codes r.result_hash == result_manifest_hash service.platform r.manifest)
            value_error)
          _ r1 in
      let (_, _, _, _, shape) =
        validate_result-IsShaped service.unicode a.tool_name a.requested_keys r.decision r.manifest
          shaped in
      record {
        shaped = shape;
        hashed =
            (codes_beq_iff (codes r.result_hash)
                (result_manifest_hash service.platform r.manifest)).0
              (guard_ok _ _ hashed);
        signed = verify_signature-IsSigned _ _ _ _ signed;
      }

  committed_of :
      (found : Approval) (device : Device) (w : World S) (a : Approval)
      → is_status found.status Models.pending ≡ true
      → (decide_pending service principal r found device w).0 ≡ ok a
      → IsCommit found device w a
  unfolding decide_pending
  committed_of found device w a p h = elim (Bool-cases (is_expired w.clock found)) [
    | inl e ↦
        let (_, _, never) =
          continue-eq-ok (best_effort_close service found Models.expired w).0 _ _ (rw e at h) in
        cc
    | inr e ↦
        let (_, checked, wrote) =
          continue-eq-ok (check_answer service principal found device r) _ w (rw e at h) in
        record {
          pending = is_status_sound found.status Models.pending p;
          live = ground arith;
          answered = check_answer-IsAnswer found device checked;
          committed = wrote;
        }
  ]

  accepted_of :
      (found : Option Approval) (device : Option Device) (w : World S) (a : Approval)
      → (decide_found service principal r found device w).0 ≡ ok a
      → (b : Approval) × (d : Device) × (found ≡ some b)
        × (device ≡ some d)
        × (d.notifications_enabled ≡ true)
        × (IsReplay b a ⊎ IsCommit b d w a)
  unfolding decide_found decide_pending check_answer
  accepted_of (some b) (some d) w a h = elim (Bool-cases d.notifications_enabled) [
    | inr e ↦ let no = rw e at h in cc
    | inl e ↦ elim (Bool-cases (is_status b.status Models.pending)) [
      | inl p ↦ (b, d, refl, refl, e, inr (committed_of b d w a p (rw (e, p) at h)))
      | inr p ↦ elim (Bool-cases (is_replay b r)) [
        | inl q ↦ (
          b,
          d,
          refl,
          refl,
          e,
          inl (subst (IsReplay b) (let yes = rw (e, p, q) at h in cc) (IsReplay-of_test b q)),
        )
        | inr q ↦ let no = rw (e, p, q) at h in cc
      ]
    ]
  ]
  accepted_of (some b) none w a h = cc
  accepted_of none device w a h = cc

  -- `decide` accepts an answer only if the approval and an enabled device of this principal are
  -- stored, and one of two holds. Either the approval is stored as decided with the answer's decision,
  -- decision id, device id and result hash: then it is returned as stored, and neither the manifest nor
  -- the signature of the repetition is checked. Or the approval is pending and live at the clock after
  -- the two reads, the answer has the shape that its decision and tool ask for, its hash is that of its
  -- manifest, the device's key signed this consent message, and the store, called next, committed the
  -- decision of that instant.
  pub decide_accepts :
      (w : World S) (a : Approval) → (decide service principal r w).0 ≡ ok a → IsAccepted w a
  unfolding decide
  decide_accepts w a h =
      let m = await (service.store.get_approval (partition_key principal) r.approval_id) w in
      let (found, read, h1) = continue-eq-ok m.0 _ m.1 h in
      let n = await (service.store.get_device (partition_key principal) r.device_id) m.1 in
      let (device, read_device, h2) = continue-eq-ok n.0 _ n.1 h1 in
      let (b, d, same, same_device, enabled, how) = accepted_of found device n.1 a h2 in
      record {
        found = b;
        device = d;
        read = read ∙ ap ok same;
        read_device = read_device ∙ ap ok same_device;
        enabled = enabled;
        how = how;
      }
