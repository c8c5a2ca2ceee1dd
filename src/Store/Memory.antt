-- ===== src/Store/Memory.antt =====
-- src/soffortbackend/store.py, `InMemoryApprovalStore`. Each method takes the instant that
-- `datetime.now(UTC)` reads; it runs under the lock or without an await, so it is one step.
pub mod Calls
pub mod Inbox
pub mod Decisions
pub mod Enrollment
use soffortmcp.Prelude.{
  ℕ, zero, suc, ◌+◌, String, Bool, true, false, not, ◌&&◌, ◌||◌, Option, none, some, List, [], ◌∷◌,
  map, leb, ltb, ◌==◌, if◌then◌else◌, string_eq, key_eq, Key, Dict, lookup, insert, remove, filter,
  take, Result, ok, err, store_conflict, key_error,
}
use soffortmcp.Prelude.Exec.{Exec}
use soffortmcp.Prelude.Json.{ℤ, pos, add_one}
use soffortmcp.Models.{
  ApprovalStatus, pending, is_status, Profile, EnrollmentChallenge, Device, PropertyMetadata,
  PropertyIndex, Approval, is_expired, with_etag, option_beq,
}
use soffortmcp.Prelude.Decimal.{decimal}

pub record Memory : Type 0 where
  pub profiles : Dict String Profile
  pub challenges : Dict Key EnrollmentChallenge
  pub devices : Dict Key Device
  pub property_indexes : Dict String PropertyIndex
  pub approvals : Dict Key Approval
  pub versions : Dict Key ℕ

-- __init__
abbrev pub empty : Memory
empty = record {
  profiles = [];
  challenges = [];
  devices = [];
  property_indexes = [];
  approvals = [];
  versions = [];
}

unfoldable pub get_profile : String → Exec Memory (Option Profile)
get_profile partition s = (ok (lookup partition s.profiles), s)

abbrev pub next_version : Option Profile → ℤ
next_version none = pos 1
next_version (some prior) = add_one prior.version

unfoldable pub put_profile : ℕ → String → String → Exec Memory Profile
put_profile now partition name s =
    let profile : Profile = record {
      partition_key = partition;
      display_name = name;
      version = next_version (lookup partition s.profiles);
      updated_at = now;
    } in
    (ok profile, record s { profiles = insert partition profile s.profiles })

abbrev pub challenge_key : EnrollmentChallenge → Key
challenge_key c = (c.partition_key, c.challenge_id)

abbrev pub device_key : Device → Key
device_key d = (d.partition_key, d.device_id)

abbrev pub approval_key : Approval → Key
approval_key a = (a.partition_key, a.approval_id)

unfoldable pub create_challenge : EnrollmentChallenge → Exec Memory (Unit {0})
create_challenge challenge s = elim (lookup (challenge_key challenge) s.challenges) [
  | some old ↦ (err store_conflict, s)
  | none ↦ (
    ok tt,
    record s {
      challenges =
          insert (challenge_key challenge) (record challenge { etag = some "1" }) s.challenges;
    },
  )
]

-- challenge.etag is not None and stored.etag != challenge.etag
abbrev pub etag_changed : Option String → Option String → Bool
etag_changed none stored = false
etag_changed (some etag) stored = not (option_beq stored (some etag))

unfoldable pub register_device : ℕ → EnrollmentChallenge → Device → Exec Memory Device
register_device now challenge device s = elim (lookup (challenge_key challenge) s.challenges) [
  | none ↦ (err store_conflict, s)
  | some stored ↦
      if stored.consumed || leb stored.expires_at now
      then (err store_conflict, s)
      else if etag_changed challenge.etag stored.etag
      then (err store_conflict, s)
      else (
        ok device,
        record s {
          challenges =
              insert (challenge_key challenge) (record stored { consumed = true; etag = some "2" })
                s.challenges;
          devices = insert (device_key device) device s.devices;
        },
      )
]

unfoldable pub get_challenge : String → String → Exec Memory (Option EnrollmentChallenge)
get_challenge partition challenge_id s = (ok (lookup (partition, challenge_id) s.challenges), s)

unfoldable pub get_device : String → String → Exec Memory (Option Device)
get_device partition device_id s = (ok (lookup (partition, device_id) s.devices), s)

abbrev is_active_device : String → Key × Device → Bool
is_active_device partition ((key, _), device) = key == partition && device.notifications_enabled

abbrev value_of {ℓ} : {V : Type ℓ} → Key × V → V
value_of (k, v) = v

unfoldable pub list_active_devices : String → Exec Memory (List Device)
list_active_devices partition s =
    (ok (map value_of (filter (is_active_device partition) s.devices)), s)

unfoldable pub delete_device : String → String → Exec Memory (Unit {0})
delete_device partition device_id s =
    (ok tt, record s { devices = remove (partition, device_id) s.devices })

unfoldable pub disable_device : ℕ → String → String → Exec Memory (Unit {0})
disable_device now partition device_id s = elim (lookup (partition, device_id) s.devices) [
  | none ↦ (ok tt, s)
  | some device ↦ (
    ok tt,
    record s {
      devices =
          insert (partition, device_id)
            (record device { notifications_enabled = false; updated_at = now }) s.devices;
    },
  )
]

unfoldable pub get_property_index : String → Exec Memory (Option PropertyIndex)
get_property_index partition s = (ok (lookup partition s.property_indexes), s)

unfoldable pub put_property_index : ℕ → String → List PropertyMetadata → Exec Memory PropertyIndex
put_property_index now partition properties s =
    let index : PropertyIndex = record {
      partition_key = partition;
      properties = properties;
      updated_at = now;
    } in
    (ok index, record s { property_indexes = insert partition index s.property_indexes })

unfoldable pub create_approval : Approval → Exec Memory (Unit {0})
create_approval approval s = elim (lookup (approval_key approval) s.approvals) [
  | some old ↦ (err store_conflict, s)
  | none ↦ (
    ok tt,
    record s {
      versions = insert (approval_key approval) 1 s.versions;
      approvals = insert (approval_key approval) (with_etag approval (some "1")) s.approvals;
    },
  )
]

unfoldable pub get_approval : String → String → Exec Memory (Option Approval)
get_approval partition approval_id s = (ok (lookup (partition, approval_id) s.approvals), s)

abbrev is_open : ℕ → String → Key × Approval → Bool
is_open now partition ((key, _), a) =
    key == partition && is_status a.status pending && not (is_expired now a)

-- `sorted(..., key=created_at, reverse=True)` is stable: an item goes in front of the first one that
-- is not newer, and items are inserted from the last to the first.
unfoldable pub insert_newest : Approval → List Approval → List Approval
insert_newest a [] = a ∷ []
insert_newest a (b ∷ l) = if leb b.created_at a.created_at then a ∷ b ∷ l else b ∷ insert_newest a l

unfoldable pub newest_first : List Approval → List Approval
newest_first [] = []
newest_first (a ∷ l) = insert_newest a (newest_first l)

unfoldable pub list_pending_approvals : ℕ → String → Exec Memory (List Approval)
list_pending_approvals now partition s =
    (ok (take 20 (newest_first (map value_of (filter (is_open now partition) s.approvals)))), s)

-- What a signed decision writes.
pub record Decision : Type 0 where
  pub status : ApprovalStatus
  pub device_id : String
  pub decision_id : String
  pub decided_at : ℕ
  pub available_keys : List String
  pub approved_keys : List String
  pub denied_keys : List String
  pub unavailable_keys : List String
  pub property_metadata : List PropertyMetadata
  pub compact_jwe : Option String
  pub result_hash : String

-- replace(current, status=..., ..., etag=...)
unfoldable pub apply_decision : Approval → Decision → Option String → Approval
apply_decision a d etag = record a {
  status = d.status;
  decided_at = some d.decided_at;
  decided_by_device_id = some d.device_id;
  decision_id = some d.decision_id;
  available_keys = d.available_keys;
  approved_keys = d.approved_keys;
  denied_keys = d.denied_keys;
  unavailable_keys = d.unavailable_keys;
  property_metadata = d.property_metadata;
  compact_jwe = d.compact_jwe;
  result_hash = some d.result_hash;
  etag = etag;
}

-- `self._versions[key] + 1`, and the two writes under that version
unfoldable pub write_version : Key → (Option String → Approval) → Option ℕ → Exec Memory Approval
write_version key update none s = (err key_error, s)
write_version key update (some old) s =
    let updated = update (some (decimal (old + 1))) in
    (
      ok updated,
      record s {
        versions = insert key (old + 1) s.versions;
        approvals = insert key updated s.approvals;
      },
    )

-- The guard of a decision on the stored approval against the caller's snapshot.
abbrev pub refuses_decision : ℕ → Approval → Approval → Bool
refuses_decision now current approval =
    not (is_status current.status pending)
    || is_expired now current
    || not (option_beq current.etag approval.etag)

unfoldable pub decide_approval : ℕ → Approval → Decision → Exec Memory Approval
decide_approval now approval decision s =
    let key = approval_key approval in
    elim (lookup key s.approvals) [
      | none ↦ (err store_conflict, s)
      | some current ↦
          if refuses_decision now current approval
          then (err store_conflict, s)
          else write_version key (apply_decision current decision) (lookup key s.versions) s
    ]

abbrev set_status : Approval → ApprovalStatus → Option String → Approval
set_status a status etag = record a { status = status; etag = etag }

unfoldable pub close_approval : Approval → ApprovalStatus → Exec Memory Approval
close_approval approval status s =
    let key = approval_key approval in
    elim (lookup key s.approvals) [
      | none ↦ (err store_conflict, s)
      | some current ↦
          if not (is_status current.status pending)
          then (ok current, s)
          else write_version key (set_status current status) (lookup key s.versions) s
    ]
