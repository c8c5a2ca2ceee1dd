-- ===== src/Examples/Cosmos.antt =====
-- The Cosmos DB store over a container that accepts one replacement under each token.
use soffortmcp.Prelude.{
  ℕ, zero, suc, ◌-◌, String, Bool, true, false, ◌&&◌, ◌||◌, Option, none, some, List, [], ◌∷◌, ◌++◌,
  ◌≡◌, ◌≢◌, ◌⊎◌, refl, ap, arith, inl, inr, Bool-cases, subst, ◌==◌, string_eq, if◌then◌else◌,
  lookup, ok, err, cosmos_error,
}
use soffortmcp.Prelude.Decimal.{decimal, decimal_digits, digit}
use soffortmcp.Prelude.Json.{Value, str}
use soffortmcp.Prelude.Exec.{Exec, pure, raise}
use soffortmcp.Models.{Approval, cancelled, with_etag, is_status, status_value, is_expired}
use soffortmcp.Models
use soffortmcp.Store.Memory.{Memory, empty, approval_key, apply_decision}
use soffortmcp.Store.Memory
use soffortmcp.Store.Conversions.{Python, Document, iso, datetime}
use soffortmcp.Store.Documents.{
  status_of_text, metadata_of_values, metadata_of_value, approval_document, approval_from_document,
}
use soffortmcp.Store.Documents.RoundTrip.{
  ReadsTimes, IsStorable, approval_from_document-approval_document,
}
use soffortmcp.Store.Cosmos.{
  Container, decide_approval, close_approval, call, conflict_at, replace_under, replace_approval,
}
use soffortmcp.Store.Cosmos.FirstWriter.{
  Operation, reads, deletes, queries, creates, upserts, replaces, perform, IsConditional, IsLost,
  started, decide_approval_once,
}
use soffortmcp.Store.Cosmos.Answers.{
  ReturnsItems, IsHeld, BothRefuse, BothDecide, OneIsLost, decide_approval_refines,
}
use soffortmcp.Approval.Service.{World, await, pause, interleave}
use soffortmcp.Examples.{approval_one}
use soffortmcp.Examples.Store.{yes_decision, no_decision}

abbrev ticks : ℕ → String
ticks zero = "T"
ticks (suc n) = String.◌∷◌ "I" (ticks n)

abbrev size : String → ℕ
size String.[] = 0
size (String.◌∷◌ c s) = suc (size s)

abbrev pub python : Python
python = record {
  isoformat = ticks;
  fromisoformat = λ s. some (size s - 1);
  replace = λ s old new. s;
  repr = λ v. "";
  parse_int = λ v. none;
}

size-ticks : (n : ℕ) → size (ticks n) ≡ suc n
size-ticks zero = refl
size-ticks (suc n) = ap suc (size-ticks n)

ticks_written : (n : ℕ) → (ticks n == "") ≡ false
ticks_written zero = refl
ticks_written (suc n) = elim (Bool-cases (ticks (suc n) == "")) [
  | inl e ↦ absurd (let never = (string_eq.beq_iff (ticks (suc n)) "").0 e in cc)
  | inr e ↦ e
]

python-ReadsTimes : ReadsTimes python
unfolding iso
python-ReadsTimes = record {
  reads = λ t. ap some (rw (size-ticks t) (omega arith));
  written = ticks_written;
}

-- The tokens under which an item was replaced.
abbrev Used : Type 0
Used = List (String × (String × String))

abbrev is_used : String → String → String → Used → Bool
is_used partition id etag [] = false
is_used partition id etag ((q, (i, e)) ∷ l) =
    ((partition == q) && ((id == i) && (etag == e))) || is_used partition id etag l

-- The next token is longer.
abbrev next_etag : String → String
next_etag etag = String.◌∷◌ "+" etag

next_etag-longer : (etag : String) → next_etag etag ≢ etag
next_etag-longer etag h = omega (arith, ap size h)

next_etag_written : (etag : String) → (next_etag etag == "") ≡ false
next_etag_written etag = elim (Bool-cases (next_etag etag == "")) [
  | inl e ↦ absurd (let never = (string_eq.beq_iff (next_etag etag) "").0 e in cc)
  | inr e ↦ e
]

abbrev put : String → String → Document → Option Value → Exec Used Document
put id etag body (some (str partition)) s =
    if is_used partition id etag s
    then (err (cosmos_error 412), s)
    else (ok (body ++ ("_etag", str (next_etag etag)) ∷ []), (partition, (id, etag)) ∷ s)
put id etag body _ s = (err (cosmos_error 400), s)

abbrev container : Container Used
container = record {
  read_item = λ id partition. raise (cosmos_error 404);
  create_item = λ d. pure d;
  replace_item = λ id body etag. put id etag body (lookup "partition_key" body);
  upsert_item = λ d. pure d;
  delete_item = λ id partition. raise (cosmos_error 404);
  query_items = λ query partition. pure [];
}

or_true : (a b : Bool) → b ≡ true → (a || b) ≡ true
or_true a b h = ground arith

same_text : (s : String) → (s == s) ≡ true
same_text s = (string_eq.beq_iff s s).1 refl

put-retires :
    (id etag partition : String) (body d : Document) (o : Option Value) (s t : Used)
    → o ≡ some (str partition)
    → put id etag body o s ≡ (ok d, t)
    → (d ≡ body ++ ("_etag", str (next_etag etag)) ∷ []) × (t ≡ (partition, (id, etag)) ∷ s)
put-retires id etag partition body d o s t owner h =
    let at_owner = subst (λ x. put id etag body x s ≡ (ok d, t)) owner h in
    elim (Bool-cases (is_used partition id etag s)) [
      | inl e ↦ absurd (let never = rw e at at_owner in cc)
      | inr e ↦ let found = rw e at at_owner in (cc, cc)
    ]

put-keeps :
    (id etag : String) (body : Document) (o : Option Value) (p i e : String) (s : Used)
    → is_used p i e s ≡ true
    → is_used p i e (put id etag body o s).1 ≡ true
put-keeps id etag body o p i e s h = ground arith

keeps_used :
    (o : Operation) (id etag partition : String) (s : Used)
    → is_used partition id etag s ≡ true
    → is_used partition id etag (perform container s o) ≡ true
keeps_used (reads i p) id etag partition s h = h
keeps_used (deletes i p) id etag partition s h = h
keeps_used (queries q p) id etag partition s h = h
keeps_used (creates d) id etag partition s h = h
keeps_used (upserts d) id etag partition s h = h
keeps_used (replaces i d e) id etag partition s h =
    put-keeps i e d (lookup "partition_key" d) partition id etag s h

container-IsConditional :
    IsConditional container (λ s partition id etag. is_used partition id etag s ≡ true)
container-IsConditional = record {
  retires = λ id etag partition body d s t owner h.
      rw
        (
          (put-retires id etag partition body d _ s t owner h).1,
          same_text partition,
          same_text id,
          same_text etag,
        )
        refl;
  refuses = λ id etag partition body s owner used. (412, rw (owner, used) refl);
  keeps = keeps_used;
}

put-ReturnsItems :
    (id etag : String) (body d : Document) (o : Option Value) (s t : Used)
    → put id etag body o s ≡ (ok d, t)
    → d ≡ body ++ ("_etag", str (next_etag etag)) ∷ []
put-ReturnsItems id etag body d (some (str p)) s t h = (put-retires id etag p body d _ s t refl h).0
put-ReturnsItems id etag body d o s t h = ground arith

container-ReturnsItems : ReturnsItems container
unfolding lookup
container-ReturnsItems id etag body d s t h = (
  ("_etag", str (next_etag etag)) ∷ [],
  next_etag etag,
  put-ReturnsItems id etag body d _ s t h,
  refl,
  next_etag_written etag,
  next_etag-longer etag,
)

abbrev world : World Used
world = record { state = []; clock = 5; others = [] }

abbrev written : Approval
written = apply_decision approval_one yes_decision (some "+1")

abbrev after : World Used
after = record world { state = ("t:o", ("approval:a", "1")) ∷ [] }

decided_run :
    decide_approval (started container python) approval_one yes_decision world ≡ (ok written, after)
unfolding decide_approval replace_approval replace_under call await pause interleave conflict_at
    apply_decision approval_document approval_from_document lookup iso with_etag datetime
    status_of_text status_value metadata_of_values metadata_of_value
decided_run = refl

-- The phone that decided as second, after the container forgot nothing of the first decision.
abbrev later : World Used
later = record after { clock = 9 }

decide_approval_once_example :
    IsLost (decide_approval (started container python) approval_one no_decision later).0
    × (is_status approval_one.status Models.pending ≡ true
        → IsLost (close_approval (started container python) approval_one cancelled later).0)
decide_approval_once_example =
    decide_approval_once container python _ container-IsConditional approval_one approval_one
      written yes_decision no_decision cancelled world after later (deletes "approval:b" "t:o" ∷ [])
      decided_run refl refl refl refl tt

yes-IsStorable : IsStorable (apply_decision approval_one yes_decision none)
unfolding apply_decision
yes-IsStorable = record {
  decided_by_device_id = refl;
  decision_id = refl;
  compact_jwe = refl;
  result_hash = refl;
}

abbrev holding : Memory
holding = record empty {
  approvals = (approval_key approval_one, approval_one) ∷ [];
  versions = (approval_key approval_one, 1) ∷ [];
}

one-IsHeld : IsHeld holding approval_one
unfolding lookup decimal decimal_digits digit
one-IsHeld = record { version = 1; guarded = refl; stored = refl; versioned = refl }

decide_approval_refines_example :
    BothRefuse
      (Memory.decide_approval 5 approval_one yes_decision holding)
      (decide_approval (started container python) approval_one yes_decision world)
      holding
      world
    ⊎ BothDecide
        (Memory.decide_approval 5 approval_one yes_decision holding)
        (decide_approval (started container python) approval_one yes_decision world)
        approval_one
        yes_decision
    ⊎ OneIsLost container python
        (Memory.decide_approval 5 approval_one yes_decision holding)
        (decide_approval (started container python) approval_one yes_decision world)
        approval_one
        yes_decision
        world
decide_approval_refines_example =
    decide_approval_refines container python approval_one yes_decision holding world
      python-ReadsTimes container-ReturnsItems yes-IsStorable one-IsHeld

one-IsStorable : IsStorable approval_one
one-IsStorable = record {
  decided_by_device_id = tt;
  decision_id = tt;
  compact_jwe = tt;
  result_hash = tt;
}

approval_from_document-approval_document_example :
    approval_from_document python (approval_document python approval_one ++ ("_etag", str "7") ∷ [])
    ≡ ok (with_etag approval_one (some "7"))
unfolding lookup with_etag
approval_from_document-approval_document_example =
    approval_from_document-approval_document python python-ReadsTimes approval_one
      (("_etag", str "7") ∷ []) one-IsStorable
