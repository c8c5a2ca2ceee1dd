-- ===== src/Store/Memory/Enrollment.antt =====
-- Enrollment challenges are good for one device registration.
use soffortmcp.Prelude.{
  ℕ, ◌<◌, true, false, ◌||◌, Option, none, some, List, [], ◌∷◌, ◌≡◌, ◌⊎◌, refl, sym, ◌∙◌, ap, arith,
  inl, inr, Key, key_eq, ◌==◌, lookup, insert, lookup-insert, beq_self, leb, Option-cases,
  Bool-cases, if◌then◌else◌, Result, ok, err, store_conflict,
}
use soffortmcp.Models.{EnrollmentChallenge, Device}
use soffortmcp.Store.Memory.{
  Memory, create_challenge, register_device, put_profile, delete_device, disable_device,
  put_property_index, create_approval, decide_approval, close_approval, write_version,
  challenge_key, device_key, etag_changed,
}
use soffortmcp.Store.Memory.Calls.{
  Call, step, run, puts_profile, creates_challenge, registers_device, deletes_device,
  disables_device, puts_property_index, creates_approval, decides_approval, closes_approval,
}

-- What `register_device` writes.
abbrev pub registered : EnrollmentChallenge → EnrollmentChallenge → Device → Memory → Memory
registered c stored d s = record s {
  challenges =
      insert (challenge_key c) (record stored { consumed = true; etag = some "2" }) s.challenges;
  devices = insert (device_key d) d s.devices;
}

-- The stored challenge of the snapshot can be used.
pub record IsUsable (now : ℕ) (c stored : EnrollmentChallenge) (s : Memory) : Type 0 where
  pub found : lookup (challenge_key c) s.challenges ≡ some stored
  pub fresh : stored.consumed ≡ false
  pub live : now < stored.expires_at
  pub unchanged : etag_changed c.etag stored.etag ≡ false

-- `register_device` either finds a challenge that is not consumed, not expired and unchanged since
-- the snapshot, marks it consumed, stores the device and returns it; or it raises `StoreConflict`
-- and changes nothing.
pub register_device_cases :
    (now : ℕ) (c : EnrollmentChallenge) (d : Device) (s : Memory)
    → ((register_device now c d s ≡ (err store_conflict, s))
        × ((stored : EnrollmentChallenge) → ¬ IsUsable now c stored s))
      ⊎ ((stored : EnrollmentChallenge) × IsUsable now c stored s
          × (register_device now c d s ≡ (ok d, registered c stored d s)))
unfolding register_device
register_device_cases now c d s = elim (Option-cases (lookup (challenge_key c) s.challenges)) [
  | inl e ↦ inl (rw (e, register_device) refl, λ stored w. cc (e, w.found))
  | inr (stored, e) ↦ elim (Bool-cases (stored.consumed || leb stored.expires_at now)) [
    | inl spent ↦ inl (rw (e, register_device) (rw spent refl), λ other w. ground (arith, w.found))
    | inr fresh ↦ elim (Bool-cases (etag_changed c.etag stored.etag)) [
      | inl changed ↦
          inl
            (rw (e, register_device) (rw (fresh, changed) refl), λ other w. ground (arith, w.found))
      | inr same ↦ inr (stored, ground arith, rw (e, register_device) (rw (fresh, same) refl))
    ]
  ]
]

abbrev IsConsumed : Key → Memory → Type 0
IsConsumed k s = (c : EnrollmentChallenge) × (lookup k s.challenges ≡ some c) × (c.consumed ≡ true)

-- A challenge can only be replaced by a consumed one, or created under a free key.
data Rewrite (s t : Memory) : Type 0 where
  keep : t.challenges ≡ s.challenges → Rewrite s t
  create :
      (key : Key) (c : EnrollmentChallenge)
      → lookup key s.challenges ≡ none
      → t.challenges ≡ insert key c s.challenges
      → Rewrite s t
  consume :
      (key : Key) (c : EnrollmentChallenge)
      → c.consumed ≡ true
      → t.challenges ≡ insert key c s.challenges
      → Rewrite s t

register_device-Rewrite :
    (now : ℕ) (c : EnrollmentChallenge) (d : Device) (s : Memory)
    → Rewrite s (register_device now c d s).1
register_device-Rewrite now c d s = elim (register_device_cases now c d s) [
  | inl (e, _) ↦ rw e (keep refl)
  | inr (stored, w, e) ↦ rw e (consume (challenge_key c) _ refl refl)
]

create_challenge-Rewrite :
    (c : EnrollmentChallenge) (s : Memory) → Rewrite s (create_challenge c s).1
unfolding create_challenge
create_challenge-Rewrite c s = elim (Option-cases (lookup (challenge_key c) s.challenges)) [
  | inl e ↦ rw (e, create_challenge) (create (challenge_key c) _ e refl)
  | inr (old, e) ↦ rw (e, create_challenge) (keep refl)
]

step-Rewrite : (s : Memory) (c : ℕ × Call) → Rewrite s (step s c)
unfolding step put_profile delete_device put_property_index disable_device create_approval
    decide_approval close_approval write_version
step-Rewrite s (now, puts_profile partition name) = keep refl
step-Rewrite s (now, creates_challenge c) = create_challenge-Rewrite c s
step-Rewrite s (now, registers_device c d) = register_device-Rewrite now c d s
step-Rewrite s (now, deletes_device partition device_id) = keep refl
step-Rewrite s (now, disables_device partition device_id) = keep (ground arith)
step-Rewrite s (now, puts_property_index partition properties) = keep refl
step-Rewrite s (now, creates_approval a) = keep (ground arith)
step-Rewrite s (now, decides_approval a d) = keep (ground arith)
step-Rewrite s (now, closes_approval a status) = keep (ground arith)

-- A free key is not the key of a stored challenge.
created_elsewhere :
    (key k : Key) (o : Option EnrollmentChallenge) (l : List (Key × EnrollmentChallenge))
    {c : EnrollmentChallenge}
    → lookup key l ≡ none
    → lookup k l ≡ some c
    → (if key == k then o else lookup k l) ≡ some c
created_elsewhere key k o l free h = elim (Bool-cases (key == k)) [
  | inl same ↦ absurd (cc (free, h, ap (λ j. lookup j l) ((key_eq.beq_iff key k).0 same)))
  | inr other ↦ rw other h
]

Rewrite-IsConsumed : (k : Key) (s t : Memory) → Rewrite s t → IsConsumed k s → IsConsumed k t
Rewrite-IsConsumed k s t (keep e) h = (h.0, rw e h.1, h.2)
Rewrite-IsConsumed k s t (create key c free e) h = (
  h.0,
  rw (e, lookup-insert key k c s.challenges)
      (created_elsewhere key k (some c) s.challenges free h.1),
  h.2,
)
Rewrite-IsConsumed k s t (consume key c used e) h = elim (Bool-cases (key == k)) [
  | inl same ↦ (c, rw (e, lookup-insert key k c s.challenges) (rw same), used)
  | inr other ↦ (h.0, rw (e, lookup-insert key k c s.challenges) (rw other h.1), h.2)
]

run-IsConsumed :
    (k : Key) (s : Memory) (cs : List (ℕ × Call)) → IsConsumed k s → IsConsumed k (run s cs)
unfolding run
run-IsConsumed k s [] h = h
run-IsConsumed k s (c ∷ cs) h =
    run-IsConsumed k (step s c) cs (Rewrite-IsConsumed k s (step s c) (step-Rewrite s c) h)

consumed_refuses :
    (now : ℕ) (c : EnrollmentChallenge) (d : Device) (s : Memory)
    → IsConsumed (challenge_key c) s
    → register_device now c d s ≡ (err store_conflict, s)
unfolding register_device
consumed_refuses now c d s h = rw (h.1, register_device) (rw h.2)

registered_IsConsumed :
    (now : ℕ) (c : EnrollmentChallenge) (d r : Device) (s t : Memory)
    → register_device now c d s ≡ (ok r, t)
    → IsConsumed (challenge_key c) t
registered_IsConsumed now c d r s t e = elim (register_device_cases now c d s) [
  | inl (refused, _) ↦ absurd (cc (e, refused))
  | inr (stored, w, done) ↦ (
    record stored { consumed = true; etag = some "2" },
    rw (ap (λ (x : Result Device × Memory). x.1.challenges) (sym e ∙ done)) (
        rw
          (lookup-insert (challenge_key c) (challenge_key c)
            (record stored { consumed = true; etag = some "2" }) s.challenges)
          (rw (beq_self (challenge_key c)))),
    refl,
  )
]

-- Once a challenge has registered a device, no registration under that challenge succeeds again,
-- whatever the device, the snapshot, the time and the calls in between: it raises `StoreConflict`
-- and changes nothing.
pub challenge_used_once :
    (now later : ℕ) (c c' : EnrollmentChallenge) (d d' : Device) (r : Device) (s t : Memory)
    (cs : List (ℕ × Call))
    → register_device now c d s ≡ (ok r, t)
    → challenge_key c' ≡ challenge_key c
    → register_device later c' d' (run t cs) ≡ (err store_conflict, run t cs)
challenge_used_once now later c c' d d' r s t cs e same =
    let used : IsConsumed (challenge_key c) (run t cs) =
      run-IsConsumed (challenge_key c) t cs (registered_IsConsumed now c d r s t e) in
    consumed_refuses later c' d' (run t cs) (rw same used)
