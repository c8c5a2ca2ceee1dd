-- ===== src/Examples/Waiting.antt =====
-- A wait during which the phone denies the request.
use soffortmcp.Prelude.{ℕ, ◌≡◌, refl, arith, some, [], ◌∷◌, inl, inr, ok, string_eq, key_eq, lookup}
use soffortmcp.Models.{Approval}
use soffortmcp.Store.Memory.{Memory, apply_decision, get_approval}
use soffortmcp.Approval.Service.{World, wait_for_decision}
use soffortmcp.Approval.Progress.{ReadsPending, ReadsDecided, wait_for_decision_returns}
use soffortmcp.Examples.{approval_one}
use soffortmcp.Examples.Store.{no_decision}
use soffortmcp.Examples.Approval.{memory_service, waiting}

abbrev denied_one : Approval
denied_one = apply_decision approval_one no_decision (some "2")

abbrev denied_store : Memory
denied_store = record waiting.state { approvals = (("t:o", "a"), denied_one) ∷ [] }

abbrev idle : Memory → Memory × ℕ
idle s = (s, 0)

abbrev denies : Memory → Memory × ℕ
denies s = (denied_store, 0)

abbrev watched : World Memory
watched = record waiting { others = idle ∷ denies ∷ [] }

denied_store-ReadsDecided : ReadsDecided memory_service approval_one denied_one denied_store
unfolding get_approval lookup
denied_store-ReadsDecided at = refl

watched-ReadsPending : ReadsPending memory_service approval_one denied_one watched.state
unfolding get_approval lookup
watched-ReadsPending at = (approval_one, refl, refl)

wait_for_decision_returns_example :
    (wait_for_decision memory_service approval_one watched).0 ≡ ok denied_one
unfolding apply_decision
wait_for_decision_returns_example =
    wait_for_decision_returns memory_service approval_one denied_one watched (inr refl)
      (omega arith) (omega arith) (λ s live. live, (λ s live. inr denied_store-ReadsDecided, tt))
      (inl watched-ReadsPending) denied_store-ReadsDecided
