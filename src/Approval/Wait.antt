-- ===== src/Approval/Wait.antt =====
-- `_wait_for_decision`: the fuel is enough, and what the wait returns and raises.
use soffortmcp.Prelude.{
  ℕ, zero, suc, ◌+◌, ◌≤◌, ◌<◌, true, false, ◌||◌, Option, none, some, List, [], ◌∷◌, ◌≡◌, ◌⊎◌, inl,
  inr, refl, sym, ◌∙◌, arith, ltb, Bool-cases, Failure,
}
use soffortmcp.Prelude.Exec.{Exec, Outcome, continue-Outcome, continue-cong, Outcome-all, ◌>>◌}
use Prim.Native.Nat.add
use soffortmcp.Models.{Approval, is_status}
use soffortmcp.Models
use soffortmcp.Approval.Service.{
  Service, World, interleave, pause, await, sleep, best_effort_close, after_deadline, wait_loop,
  wait_for_decision, on_current, on_latest,
}

module _ {S : Type 0} where
  interleave_clock : (l : List (S → S × ℕ)) (w : World S) → w.clock ≤ (interleave l w).clock
  unfolding interleave
  interleave_clock [] w = omega arith
  interleave_clock (f ∷ fs) w = omega arith

  pub pause_clock : (w : World S) → w.clock ≤ (pause w).clock
  unfolding pause
  pause_clock w = interleave_clock w.others w

  pub await_clock : {A : Type 0} (op : ℕ → Exec S A) (w : World S) → w.clock ≤ (await op w).1.clock
  unfolding await
  await_clock op w = pause_clock w

  sleep_clock : (n : ℕ) (w : World S) → w.clock + n ≤ (sleep n w).1.clock
  unfolding sleep
  sleep_clock n w = omega (arith, pause_clock w)

module _ {S A : Type 0} where
  sleep_then :
      (n : ℕ) (rest : Exec (World S) A) (w : World S) → (sleep n >> rest) w ≡ rest (sleep n w).1
  unfolding sleep
  sleep_then n rest w = refl

decided_of_test :
    (a : Approval)
    → (is_status a.status Models.approved || is_status a.status Models.denied) ≡ true
    → (is_status a.status Models.approved ≡ true) ⊎ (is_status a.status Models.denied ≡ true)
decided_of_test a h = ground arith

not_before : (m n : ℕ) → n ≤ m → ltb m n ≡ false
not_before m n h = ground arith

before : (m n : ℕ) → ltb m n ≡ true → m < n
before m n h = ground arith

module _ {S : Type 0} (service : Service S) where
  -- Once the deadline has passed, fuel does not matter.
  late :
      (fuel deadline : ℕ) (a : Approval) (w : World S)
      → deadline ≤ w.clock
      → wait_loop service fuel deadline a w ≡ after_deadline service a w
  unfolding wait_loop
  late zero deadline a w h = refl
  late (suc fuel) deadline a w h = rw (not_before w.clock deadline h)

  round_same :
      (current : Option Approval) (rest rest' : Exec (World S) Approval) (w : World S)
      → rest w ≡ rest' w
      → on_current service current rest w ≡ on_current service current rest' w
  unfolding on_current
  round_same none rest rest' w h = refl
  round_same (some a) rest rest' w h =
      elim (Bool-cases (is_status a.status Models.approved || is_status a.status Models.denied)) [
        | inl e ↦ rw e
        | inr e ↦
            rw e
              (elim (Bool-cases
                (is_status a.status Models.cancelled || is_status a.status Models.expired)) [
                  | inl e' ↦ rw e'
                  | inr e' ↦ rw e' h
                ])
      ]

  -- Fuel that lasts to the deadline is enough: with more of it the loop does the same, since each
  -- round sleeps for the poll interval, which is not 0.
  pub wait_loop_enough :
      (fuel extra deadline : ℕ) (a : Approval) (w : World S)
      → 0 < service.poll_interval
      → deadline ≤ w.clock + fuel
      → wait_loop service (fuel + extra) deadline a w ≡ wait_loop service fuel deadline a w
  unfolding wait_loop
  wait_loop_enough zero extra deadline a w p h = late (zero + extra) deadline a w (omega arith)
  wait_loop_enough (suc fuel) extra deadline a w p h =
      rw (add.suc fuel extra) (elim (Bool-cases (ltb w.clock deadline)) [
        | inr e ↦ rw e
        | inl e ↦ rw e (
            continue-cong (await (service.store.get_approval a.partition_key a.approval_id) w).0 _ _
              _
              λ current. round_same current _ _ _ (
                let s = (await (service.store.get_approval a.partition_key a.approval_id) w).1 in
                let t = (sleep service.poll_interval s).1 in
                sleep_then service.poll_interval (wait_loop service (fuel + extra) deadline a) s
                ∙ wait_loop_enough fuel extra deadline a t p (
                    omega (
                      arith,
                      sleep_clock service.poll_interval s,
                      await_clock (service.store.get_approval a.partition_key a.approval_id) w,
                      before w.clock deadline e,
                    ))
                ∙ sym (sleep_then service.poll_interval (wait_loop service fuel deadline a) s)))
      ])

-- A decision was made.
abbrev pub IsDecided : Approval → Type 0
IsDecided a =
    (is_status a.status Models.approved ≡ true) ⊎ (is_status a.status Models.denied ≡ true)

abbrev pub AnyFailure : Failure → Type 0
AnyFailure e = Unit {0}

module _ {S : Type 0} (service : Service S) where
  on_latest_decided :
      (o : Option Approval) (w : World S) → Outcome IsDecided AnyFailure (on_latest service o w).0
  unfolding on_latest
  on_latest_decided none w = tt
  on_latest_decided (some a) w =
      elim (Bool-cases (is_status a.status Models.approved || is_status a.status Models.denied)) [
        | inl e ↦ rw e (decided_of_test a e)
        | inr e ↦ rw e (
            continue-Outcome IsDecided AnyFailure (best_effort_close service a Models.expired w).0 _
              _ (Outcome-all _ AnyFailure _ (λ _. tt) (λ _. tt)))
      ]

  after_deadline_decided :
      (a : Approval) (w : World S) → Outcome IsDecided AnyFailure (after_deadline service a w).0
  unfolding after_deadline
  after_deadline_decided a w =
      continue-Outcome IsDecided AnyFailure
        (await (service.store.get_approval a.partition_key a.approval_id) w).0 (on_latest service) _
        (Outcome-all _ AnyFailure _ (λ o. on_latest_decided o _) (λ _. tt))

  on_current_decided :
      (o : Option Approval) (rest : Exec (World S) Approval) (w : World S)
      → Outcome IsDecided AnyFailure (rest w).0
      → Outcome IsDecided AnyFailure (on_current service o rest w).0
  unfolding on_current
  on_current_decided none rest w h = tt
  on_current_decided (some a) rest w h =
      elim (Bool-cases (is_status a.status Models.approved || is_status a.status Models.denied)) [
        | inl e ↦ rw e (decided_of_test a e)
        | inr e ↦
            rw e
              (elim (Bool-cases
                (is_status a.status Models.cancelled || is_status a.status Models.expired)) [
                  | inl e' ↦ rw e' tt
                  | inr e' ↦ rw e' h
                ])
      ]

  wait_loop_decided :
      (fuel deadline : ℕ) (a : Approval) (w : World S)
      → Outcome IsDecided AnyFailure (wait_loop service fuel deadline a w).0
  unfolding wait_loop
  wait_loop_decided zero deadline a w = after_deadline_decided a w
  wait_loop_decided (suc fuel) deadline a w = elim (Bool-cases (ltb w.clock deadline)) [
    | inr e ↦ rw e (after_deadline_decided a w)
    | inl e ↦ rw e (
        continue-Outcome IsDecided AnyFailure
          (await (service.store.get_approval a.partition_key a.approval_id) w).0 _ _
          (Outcome-all _ AnyFailure _
            (λ current. on_current_decided current _ _ (
              let s = (await (service.store.get_approval a.partition_key a.approval_id) w).1 in
              rw (sleep_then service.poll_interval (wait_loop service fuel deadline a) s)
                (wait_loop_decided fuel deadline a (sleep service.poll_interval s).1)))
            (λ _. tt)))
  ]

  -- Whatever other tasks do during the wait, `_wait_for_decision` returns only an approval that was
  -- approved or denied.
  pub wait_for_decision_decided :
      (a : Approval) (w : World S) → Outcome IsDecided AnyFailure (wait_for_decision service a w).0
  unfolding wait_for_decision
  wait_for_decision_decided a w = wait_loop_decided service.timeout (w.clock + service.timeout) a w
