-- ===== src/Examples/Store.antt =====
-- The in-memory store on one approval and one device.
use soffortmcp.Prelude.{
  ℕ, ◌+◌, ◌≤◌, none, some, List, [], ◌∷◌, ◌≡◌, ◌⊎◌, refl, subst, ok, err, store_conflict, length,
  All, lookup, insert, key_eq, string_eq,
}
use mathlib.Core.List.{Perm}
use soffortmcp.Prelude.Decimal.{decimal, decimal_digits, digit}
use soffortmcp.Models.{approved, denied, EnrollmentChallenge, Approval, with_etag}
use soffortmcp.Store.Memory.{
  Memory, Decision, empty, create_approval, decide_approval, register_device, get_approval,
  write_version, approval_key, apply_decision, list_pending_approvals,
}
use soffortmcp.Store.Memory.Calls.{Call, step, run, creates_approval, creates_challenge}
use soffortmcp.Store.Memory.Decisions.{
  closed_forever, VersionedAt, IsVersioned, run-IsVersioned, Admits, decide_approval_cases,
  first_writer_wins,
}
use soffortmcp.Store.Memory.Inbox.{
  IsOpen, IsNewestFirst, open_approvals, list_pending_approvals_lem,
}
use soffortmcp.Store.Memory.Enrollment.{
  IsUsable, registered, register_device_cases, challenge_used_once,
}
use soffortmcp.Examples.{approval_one, phone, challenge_one, key_one}

abbrev pub yes_decision : Decision
yes_decision = record {
  status = approved;
  device_id = "d";
  decision_id = "x";
  decided_at = 10;
  available_keys = [];
  approved_keys = key_one ∷ [];
  denied_keys = [];
  unavailable_keys = [];
  property_metadata = [];
  compact_jwe = some "j";
  result_hash = "h";
}

abbrev pub no_decision : Decision
no_decision = record yes_decision {
  status = denied;
  decision_id = "y";
  approved_keys = [];
  compact_jwe = none;
}

abbrev history : List (ℕ × Call)
history = (0, creates_approval approval_one) ∷ (1, creates_challenge challenge_one) ∷ []

abbrev opened : Memory
opened = record empty {
  approvals = (("t:o", "a"), approval_one) ∷ [];
  versions = (("t:o", "a"), 1) ∷ [];
}

abbrev decided : Approval
decided = apply_decision approval_one yes_decision (some "2")

abbrev after : Memory
after = record empty { approvals = (("t:o", "a"), decided) ∷ []; versions = (("t:o", "a"), 2) ∷ [] }

opened-run : run empty ((0, creates_approval approval_one) ∷ []) ≡ opened
unfolding run step create_approval with_etag lookup insert
opened-run = refl

opened-IsVersioned : IsVersioned opened
opened-IsVersioned =
    subst IsVersioned opened-run (run-IsVersioned ((0, creates_approval approval_one) ∷ []))

decided_run : decide_approval 10 approval_one yes_decision opened ≡ (ok decided, after)
unfolding decide_approval write_version lookup insert decimal decimal_digits digit
decided_run = refl

first_writer_wins_example :
    (decide_approval 20 approval_one no_decision (run after history)
      ≡ (err store_conflict, run after history))
    × (get_approval "t:o" "a" (run after history) ≡ (ok (some decided), run after history))
first_writer_wins_example =
    first_writer_wins 10 20 approval_one approval_one decided yes_decision no_decision opened after
      history opened-IsVersioned refl decided_run refl

closed_forever_example : lookup ("t:o", "a") (run after history).approvals ≡ some decided
closed_forever_example =
    closed_forever ("t:o", "a") decided after history
      (record { stored = unfold lookup in refl; closed = unfold apply_decision in refl })

run-IsVersioned_example : VersionedAt (run empty history) ("t:o", "a")
run-IsVersioned_example = run-IsVersioned history ("t:o", "a")

decide_approval_cases_example :
    ((decide_approval 10 approval_one yes_decision opened ≡ (err store_conflict, opened))
      × ((current : Approval) → ¬ Admits 10 approval_one current opened))
    ⊎ ((current : Approval) × (v : ℕ) × Admits 10 approval_one current opened
        × (current.etag ≡ some (decimal v))
        × (decide_approval 10 approval_one yes_decision opened ≡ (
          ok (apply_decision current yes_decision (some (decimal (v + 1)))),
          record opened {
            versions = insert (approval_key approval_one) (v + 1) opened.versions;
            approvals =
                insert
                  (approval_key approval_one)
                  (apply_decision current yes_decision (some (decimal (v + 1))))
                  opened.approvals;
          },
        )))
decide_approval_cases_example =
    decide_approval_cases 10 approval_one yes_decision opened opened-IsVersioned

list_pending_approvals_lem_example :
    (inbox : List Approval) × (list_pending_approvals 10 "t:o" opened ≡ (ok inbox, opened))
    × (length inbox ≤ 20)
    × IsNewestFirst inbox
    × All (IsOpen 10 "t:o") inbox
    × (length (open_approvals 10 "t:o" opened) ≤ 20 → Perm inbox (open_approvals 10 "t:o" opened))
list_pending_approvals_lem_example = list_pending_approvals_lem 10 "t:o" opened (refl, tt)

abbrev invited : Memory
invited = record empty { challenges = (("t:o", "c"), challenge_one) ∷ [] }

registered_run :
    register_device 10 challenge_one phone invited
    ≡ (ok phone, registered challenge_one challenge_one phone invited)
unfolding register_device lookup
registered_run = refl

register_device_cases_example :
    ((register_device 10 challenge_one phone invited ≡ (err store_conflict, invited))
      × ((stored : EnrollmentChallenge) → ¬ IsUsable 10 challenge_one stored invited))
    ⊎ ((stored : EnrollmentChallenge) × IsUsable 10 challenge_one stored invited
        × (register_device 10 challenge_one phone invited
            ≡ (ok phone, registered challenge_one stored phone invited)))
register_device_cases_example = register_device_cases 10 challenge_one phone invited

challenge_used_once_example :
    register_device 20 challenge_one phone
      (run (registered challenge_one challenge_one phone invited) history)
    ≡ (err store_conflict, run (registered challenge_one challenge_one phone invited) history)
challenge_used_once_example =
    challenge_used_once 10 20 challenge_one challenge_one phone phone phone invited
      (registered challenge_one challenge_one phone invited) history registered_run refl
