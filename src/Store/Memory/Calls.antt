-- ===== src/Store/Memory/Calls.antt =====
-- Histories of the in-memory store: any sequence of its writing methods, each at its own instant.
use soffortmcp.Prelude.{
  ℕ, ◌+◌, String, true, Option, none, some, List, [], ◌∷◌, ◌≡◌, refl, arith, Key, key_eq, string_eq,
  lookup, insert, Option-cases, Bool-cases, inl, inr,
}
use soffortmcp.Prelude.Decimal.{decimal}
use soffortmcp.Models.{
  ApprovalStatus, pending, is_status, EnrollmentChallenge, Device, PropertyMetadata, Approval,
  with_etag,
}
use soffortmcp.Store.Memory.{
  Memory, Decision, put_profile, create_challenge, register_device, delete_device, disable_device,
  put_property_index, create_approval, decide_approval, close_approval, write_version, approval_key,
  apply_decision, refuses_decision,
}

pub data Call : Type 0 where
  puts_profile : String → String → Call
  creates_challenge : EnrollmentChallenge → Call
  registers_device : EnrollmentChallenge → Device → Call
  deletes_device disables_device : String → String → Call
  puts_property_index : String → List PropertyMetadata → Call
  creates_approval : Approval → Call
  decides_approval : Approval → Decision → Call
  closes_approval : Approval → ApprovalStatus → Call

-- A call that raises leaves what it had written.
unfoldable pub step : Memory → ℕ × Call → Memory
step s (now, puts_profile partition name) = (put_profile now partition name s).1
step s (now, creates_challenge c) = (create_challenge c s).1
step s (now, registers_device c d) = (register_device now c d s).1
step s (now, deletes_device partition device_id) = (delete_device partition device_id s).1
step s (now, disables_device partition device_id) = (disable_device now partition device_id s).1
step s (now, puts_property_index partition properties) =
    (put_property_index now partition properties s).1
step s (now, creates_approval a) = (create_approval a s).1
step s (now, decides_approval a d) = (decide_approval now a d s).1
step s (now, closes_approval a status) = (close_approval a status s).1

unfoldable pub run : Memory → List (ℕ × Call) → Memory
run s [] = s
run s (c ∷ cs) = run (step s c) cs

-- What one call may do to the approvals and their versions.
pub data Change (s t : Memory) : Type 0 where
  keep : t.approvals ≡ s.approvals → t.versions ≡ s.versions → Change s t
  create :
      (a : Approval)
      → lookup (approval_key a) s.approvals ≡ none
      → t.approvals ≡ insert (approval_key a) (with_etag a (some "1")) s.approvals
      → t.versions ≡ insert (approval_key a) 1 s.versions
      → Change s t
  update :
      (key : Key) (current updated : Approval) (version : ℕ)
      → lookup key s.approvals ≡ some current
      → is_status current.status pending ≡ true
      → lookup key s.versions ≡ some version
      → approval_key updated ≡ approval_key current
      → updated.etag ≡ some (decimal (version + 1))
      → t.approvals ≡ insert key updated s.approvals
      → t.versions ≡ insert key (version + 1) s.versions
      → Change s t

create_approval-Change : (a : Approval) (s : Memory) → Change s (create_approval a s).1
unfolding create_approval
create_approval-Change a s = elim (Option-cases (lookup (approval_key a) s.approvals)) [
  | inl fresh ↦ rw (fresh, create_approval) (create a fresh refl refl)
  | inr (old, e) ↦ rw (e, create_approval) (keep refl refl)
]

write_version-Change :
    (key : Key) (current : Approval) (change : Option String → Approval) (s : Memory)
    → lookup key s.approvals ≡ some current
    → is_status current.status pending ≡ true
    → ((etag : Option String) → approval_key (change etag) ≡ approval_key current)
    → ((etag : Option String) → (change etag).etag ≡ etag)
    → Change s (write_version key change (lookup key s.versions) s).1
unfolding write_version
write_version-Change key current change s found open_ same_key same_etag =
    elim (Option-cases (lookup key s.versions)) [
      | inl e ↦ rw e (keep refl refl)
      | inr (version, e) ↦
          rw e (update key current _ version found open_ e (same_key _) (same_etag _) refl refl)
    ]

decide_approval-Change :
    (now : ℕ) (a : Approval) (d : Decision) (s : Memory) → Change s (decide_approval now a d s).1
unfolding decide_approval
decide_approval-Change now a d s = elim (Option-cases (lookup (approval_key a) s.approvals)) [
  | inl e ↦ rw (e, decide_approval) (keep refl refl)
  | inr (current, e) ↦
      rw (e, decide_approval)
        (elim (Bool-cases (refuses_decision now current a)) [
          | inl refused ↦ rw refused (keep refl refl)
          | inr open_ ↦ rw open_ (
              write_version-Change (approval_key a) current (apply_decision current d) s e
                (ground arith) (unfold apply_decision in λ etag. refl)
                (unfold apply_decision in λ etag. refl))
        ])
]

close_approval-Change :
    (a : Approval) (status : ApprovalStatus) (s : Memory) → Change s (close_approval a status s).1
unfolding close_approval
close_approval-Change a status s = elim (Option-cases (lookup (approval_key a) s.approvals)) [
  | inl e ↦ rw (e, close_approval) (keep refl refl)
  | inr (current, e) ↦
      rw (e, close_approval)
        (elim (Bool-cases (is_status current.status pending)) [
          | inr closed ↦ rw closed (keep refl refl)
          | inl open_ ↦ rw open_ (
              write_version-Change (approval_key a) current _ s e open_ (λ etag. refl)
                (λ etag. refl))
        ])
]

register_device-Change :
    (now : ℕ) (c : EnrollmentChallenge) (d : Device) (s : Memory)
    → Change s (register_device now c d s).1
unfolding register_device
register_device-Change now c d s = keep (ground arith) (ground arith)

create_challenge-Change : (c : EnrollmentChallenge) (s : Memory) → Change s (create_challenge c s).1
unfolding create_challenge
create_challenge-Change c s = keep (ground arith) (ground arith)

disable_device-Change :
    (now : ℕ) (partition device_id : String) (s : Memory)
    → Change s (disable_device now partition device_id s).1
unfolding disable_device
disable_device-Change now partition device_id s = keep (ground arith) (ground arith)

pub step-Change : (s : Memory) (c : ℕ × Call) → Change s (step s c)
unfolding step put_profile delete_device put_property_index
step-Change s (now, puts_profile partition name) = keep refl refl
step-Change s (now, creates_challenge c) = create_challenge-Change c s
step-Change s (now, registers_device c d) = register_device-Change now c d s
step-Change s (now, deletes_device partition device_id) = keep refl refl
step-Change s (now, disables_device partition device_id) =
    disable_device-Change now partition device_id s
step-Change s (now, puts_property_index partition properties) = keep refl refl
step-Change s (now, creates_approval a) = create_approval-Change a s
step-Change s (now, decides_approval a d) = decide_approval-Change now a d s
step-Change s (now, closes_approval a status) = close_approval-Change a status s
