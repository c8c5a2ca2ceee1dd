-- ===== src/Approval/Progress.antt =====
-- `_wait_for_decision`: a decision that is made in time is returned.
use soffortmcp.Prelude.{
  ℕ, zero, suc, ◌+◌, ◌<◌, true, false, ◌||◌, some, List, [], ◌∷◌, ◌≡◌, ◌⊎◌, inl, inr, refl, ap, ◌∙◌,
  arith, ltb, All, length, Result, ok,
}
use soffortmcp.Models.{Approval, ApprovalStatus, is_status}
use soffortmcp.Models
use soffortmcp.Approval.Service.{
  Service, World, interleave, pause, await, sleep, wait_loop, wait_for_decision, on_current,
}
use soffortmcp.Approval.Wait.{IsDecided}

module _ {S : Type 0} where
  -- The time that the other tasks take with a sleep after each, and the store after them.
  abbrev pub duration : ℕ → List (S → S × ℕ) → S → ℕ
  duration sleeps [] s = 0
  duration sleeps (f ∷ fs) s = (f s).1 + sleeps + duration sleeps fs (f s).0

  abbrev pub settled : List (S → S × ℕ) → S → S
  settled [] s = s
  settled (f ∷ fs) s = settled fs (f s).0

  -- Each of the other tasks keeps what holds of the store.
  abbrev pub Keeps : (S → Type 0) → List (S → S × ℕ) → Type 0
  Keeps P l = All (λ f. (s : S) → P s → P (f s).0) l

decided_test :
    (s : ApprovalStatus)
    → (is_status s Models.approved ≡ true) ⊎ (is_status s Models.denied ≡ true)
    → (is_status s Models.approved || is_status s Models.denied) ≡ true
decided_test s h = ground arith

pending_test :
    (s : ApprovalStatus)
    → is_status s Models.pending ≡ true
    → ((is_status s Models.approved || is_status s Models.denied) ≡ false)
      × ((is_status s Models.cancelled || is_status s Models.expired) ≡ false)
pending_test Models.pending h = (refl, refl)
pending_test Models.approved h = absurd (cc h)
pending_test Models.denied h = absurd (cc h)
pending_test Models.cancelled h = absurd (cc h)
pending_test Models.expired h = absurd (cc h)

module _ {S : Type 0} (service : Service S) (a b : Approval) where
  -- What a poll of the approval finds: it is still pending, or it is the decided one.
  abbrev pub ReadsPending : S → Type 0
  ReadsPending s =
      (at : ℕ)
      → (c : Approval) × (service.store.get_approval a.partition_key a.approval_id at s
          ≡ (ok (some c), s))
        × (is_status c.status Models.pending ≡ true)

  abbrev pub ReadsDecided : S → Type 0
  ReadsDecided s =
      (at : ℕ) → service.store.get_approval a.partition_key a.approval_id at s ≡ (ok (some b), s)

  abbrev pub ReadsLive : S → Type 0
  ReadsLive s = ReadsPending s ⊎ ReadsDecided s

  found_decided :
      (fuel deadline : ℕ) (w : World S)
      → IsDecided b
      → ltb w.clock deadline ≡ true
      → ReadsDecided (pause w).state
      → (wait_loop service (suc fuel) deadline a w).0 ≡ ok b
  unfolding wait_loop await on_current
  found_decided fuel deadline w decided early read =
      rw (early, read (pause w).clock, decided_test b.status decided) refl

  found_pending :
      (fuel deadline : ℕ) (w : World S)
      → ltb w.clock deadline ≡ true
      → ReadsPending (pause w).state
      → wait_loop service (suc fuel) deadline a w
        ≡ wait_loop service fuel deadline a (sleep service.poll_interval (pause w)).1
  unfolding wait_loop await on_current sleep
  found_pending fuel deadline w early read =
      let (c, found, open_) = read (pause w).clock in
      let (undecided, unclosed) = pending_test c.status open_ in
      rw (early, found, undecided, unclosed) refl

  abbrev at : S → ℕ → List (S → S × ℕ) → World S
  at s clock others = record { state = s; clock = clock; others = others }

  early_enough : (clock rest deadline : ℕ) → clock + rest < deadline → ltb clock deadline ≡ true
  early_enough clock rest deadline h = ground (arith, h)

  decided_in_time :
      (fuel deadline clock : ℕ) (s : S) (l : List (S → S × ℕ))
      → IsDecided b
      → length l < fuel
      → clock + duration service.poll_interval l s < deadline
      → Keeps ReadsLive l
      → ReadsLive s
      → ReadsDecided (settled l s)
      → (wait_loop service fuel deadline a (at s clock l)).0 ≡ ok b
  unfolding pause interleave sleep
  decided_in_time zero deadline clock s l decided fuelled early keeps live final =
      absurd (omega (arith, fuelled))
  decided_in_time (suc fuel) deadline clock s [] decided fuelled early keeps live final =
      found_decided fuel deadline (at s clock []) decided (early_enough clock 0 deadline early)
        final
  decided_in_time (suc fuel) deadline clock s (f ∷ []) decided fuelled early keeps live final =
      found_decided fuel deadline (at s clock (f ∷ [])) decided
        (early_enough clock _ deadline early) final
  decided_in_time (suc fuel) deadline clock s (f ∷ g ∷ l) decided fuelled early keeps live final =
      elim (keeps.0 s live) [
        | inr done ↦
            found_decided fuel deadline (at s clock (f ∷ g ∷ l)) decided
              (early_enough clock _ deadline early) done
        | inl open_ ↦
            let next =
              decided_in_time fuel deadline
                (clock + (f s).1 + (g (f s).0).1 + service.poll_interval) (g (f s).0).0 l decided
                (omega (arith, fuelled)) (omega (arith, early)) keeps.1.1
                (keeps.1.0 (f s).0 (inl open_)) final in
            ap (λ (r : Result Approval × World S). r.0)
              (found_pending fuel deadline (at s clock (f ∷ g ∷ l))
                (early_enough clock _ deadline early) open_)
            ∙ next
      ]

  -- If the other tasks leave the approval pending until they decide it, and the timeout leaves time for
  -- all of them and for a poll interval after each, then `_wait_for_decision` returns the decided
  -- approval. The timeout is more than the number of the other tasks' steps.
  pub wait_for_decision_returns :
      (w : World S)
      → IsDecided b
      → length w.others < service.timeout
      → duration service.poll_interval w.others w.state < service.timeout
      → Keeps ReadsLive w.others
      → ReadsLive w.state
      → ReadsDecided (settled w.others w.state)
      → (wait_for_decision service a w).0 ≡ ok b
  unfolding wait_for_decision
  wait_for_decision_returns w decided few short keeps live final =
      decided_in_time service.timeout (w.clock + service.timeout) w.clock w.state w.others decided
        few (omega (arith, short)) keeps live final
