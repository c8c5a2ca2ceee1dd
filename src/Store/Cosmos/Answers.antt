-- ===== src/Store/Cosmos/Answers.antt =====
-- `decide_approval` of the Cosmos store against the one of the in-memory store.
use soffortmcp.Prelude.{
  arith, ℕ, ◌+◌, String, Bool, true, false, not, ◌||◌, Option, none, some, ◌++◌, ◌≡◌, ◌≢◌, ◌⊎◌,
  refl, sym, ap, ◌∙◌, Bool-cases, inl, inr, ok, err, concat, lookup, ◌==◌, string_eq, key_eq,
  if◌then◌else◌, Failure, Result, store_conflict, cosmos_error,
}
use soffortmcp.Prelude.Decimal.{decimal, decimal-injective}
use soffortmcp.Prelude.Exec.{lift, continue, catch}
use soffortmcp.Prelude.Json.{Value, str, null}
use soffortmcp.Models.{Approval, is_status, is_expired, with_etag, option_beq}
use soffortmcp.Models
use soffortmcp.Store.Memory.{
  Memory, Decision, apply_decision, approval_key, refuses_decision, write_version,
}
use soffortmcp.Store.Memory
use soffortmcp.Store.Conversions.{Python, Document, optional_text_at, is_truthy, text_of}
use soffortmcp.Store.Documents.{approval_document, approval_from_document}
use soffortmcp.Store.Documents.RoundTrip.{
  ReadsTimes, IsStorable, approval_from_document-approval_document,
}
use soffortmcp.Store.Cosmos.{
  Container, call, conflict_at, replace_under, replace_approval, decide_approval,
}
use soffortmcp.Store.Cosmos.FirstWriter.{started}
use soffortmcp.Approval.Service.{World, await, pause}

-- What Cosmos DB documents of a replacement: the answer is the document that was sent, with members of
-- the system's own, among them the etag, which each write changes.
abbrev pub ReturnsItems : {S : Type 0} → Container S → Type 0
ReturnsItems {S} c =
    (id etag : String) (body d : Document) (s t : S)
    → c.replace_item id body etag s ≡ (ok d, t)
    → (system : Document) × (token : String) × (d ≡ body ++ system)
      × (lookup "_etag" system ≡ some (str token))
      × ((token == "") ≡ false)
      × (token ≢ etag)

-- The in-memory store holds this snapshot at some version, and the snapshot's token spells the version.
pub record IsHeld (m : Memory) (a : Approval) : Type 0 where
  pub version : ℕ
  pub guarded : a.etag ≡ some (decimal version)
  pub stored : lookup (approval_key a) m.approvals ≡ some a
  pub versioned : lookup (approval_key a) m.versions ≡ some version

-- Both stores refuse and change nothing.
pub record BothRefuse {S : Type 0} (x : Result Approval × Memory) (y : Result Approval × World S)
    (m : Memory) (w : World S) : Type 0 where
  pub here : x ≡ (err store_conflict, m)
  pub there : y ≡ (err store_conflict, w)

-- Both stores return the snapshot with this decision applied, each under a new token of its own.
pub record BothDecide {S : Type 0} (x : Result Approval × Memory) (y : Result Approval × World S)
    (a : Approval) (d : Decision) : Type 0 where
  pub token : String
  pub version : String
  pub here : x.0 ≡ ok (apply_decision a d (some version))
  pub there : y.0 ≡ ok (apply_decision a d (some token))
  pub changed : a.etag ≢ some token
  pub renewed : a.etag ≢ some version

-- The in-memory store decides, and the container refused the replacement, so that the other raises.
pub record OneIsLost {S : Type 0} (c : Container S) (p : Python) (x : Result Approval × Memory)
    (y : Result Approval × World S) (a : Approval) (d : Decision) (w : World S) : Type 0 where
  pub token : String
  pub guarded : a.etag ≡ some token
  pub version : String
  pub here : x.0 ≡ ok (apply_decision a d (some version))
  pub cause : Failure
  pub lost :
      (c.replace_item
        (concat "approval:" a.approval_id)
        (approval_document p (apply_decision a d none))
        token
        (pause w).state).0
      ≡ err cause
  pub raised : Failure
  pub there : y.0 ≡ err raised

with_etag-apply_decision :
    (a : Approval) (d : Decision) (etag : Option String)
    → with_etag (apply_decision a d none) etag ≡ apply_decision a d etag
unfolding with_etag apply_decision
with_etag-apply_decision a d etag = refl

next_version : {n : ℕ} → n ≡ n + 1 → ⊥
next_version h = omega (arith, h)

-- The two tests that the guards of the stores share.
abbrev refused : ℕ → Approval → Bool
refused now a = not (is_status a.status Models.pending) || is_expired now a

some-injective : {a b : String} → some a ≡ some b → a ≡ b
some-injective h = cc

text_beq_self : (s : String) → (s == s) ≡ true
text_beq_self s = (string_eq.beq_iff s s).1 refl

memory_refuses :
    (now : ℕ) (a : Approval) (d : Decision) (m : Memory)
    → IsHeld m a
    → refused now a ≡ true
    → Memory.decide_approval now a d m ≡ (err store_conflict, m)
unfolding Memory.decide_approval
memory_refuses now a d m h e = rw (h.stored, Memory.decide_approval) (rw e refl)

memory_decides :
    (now : ℕ) (a : Approval) (d : Decision) (m : Memory) (h : IsHeld m a)
    → refused now a ≡ false
    → (Memory.decide_approval now a d m).0
      ≡ ok (apply_decision a d (some (decimal (h.version + 1))))
unfolding Memory.decide_approval write_version
memory_decides now a d m h e =
    rw (h.stored, Memory.decide_approval)
      (rw e (rw h.guarded (rw (text_beq_self (decimal h.version), h.versioned) refl)))

conflict_at_raised :
    {S A : Type 0} (e : Failure) (s : S)
    → (f : Failure) × ((conflict_at 412 {S = S} {A = A} e s).0 ≡ err f)
unfolding conflict_at
conflict_at_raised (cosmos_error status) s = (_, refl)
conflict_at_raised e s = (e, refl)

module _ {S : Type 0} (c : Container S) (p : Python) where
  -- What `_replace_approval` makes of the container's answer.
  abbrev on_answer : Result Document → World S → Result Approval × World S
  on_answer r = catch (λ v. continue r (λ d. lift (approval_from_document p d)) v) (conflict_at 412)

  on_answer_cases :
      (r : Result Document) (v : World S)
      → ((d : Document) × (r ≡ ok d)
          × ((b : Approval) → approval_from_document p d ≡ ok b → (on_answer r v).0 ≡ ok b))
        ⊎ ((e : Failure) × (r ≡ err e) × (f : Failure) × ((on_answer r v).0 ≡ err f))
  on_answer_cases (ok d) v = inl (d, refl, λ b h. rw h refl)
  on_answer_cases (err e) v = let (f, raised) = conflict_at_raised e v in inr (e, refl, f, raised)

  cosmos_refuses :
      (a : Approval) (d : Decision) (w : World S) (token : String)
      → a.etag ≡ some token
      → refused w.clock a ≡ true
      → decide_approval (started c p) a d w ≡ (err store_conflict, w)
  unfolding decide_approval
  cosmos_refuses a d w token held e = rw (held, e) refl

  -- The conditional replacement, and the world after it.
  abbrev sent_to : Approval → Decision → String → World S → Result Document × S
  sent_to a d token w =
      c.replace_item (concat "approval:" a.approval_id)
        (approval_document p (apply_decision a d none)) token (pause w).state

  cosmos_replaces :
      (a : Approval) (d : Decision) (w : World S) (token : String)
      → a.etag ≡ some token
      → refused w.clock a ≡ false
      → decide_approval (started c p) a d w
        ≡ on_answer (sent_to a d token w).0 (record (pause w) { state = (sent_to a d token w).1 })
  unfolding decide_approval replace_approval replace_under call await
  cosmos_replaces a d w token held e = rw (held, e) refl

  new_token :
      (system : Document) (token : String)
      → lookup "_etag" system ≡ some (str token)
      → (token == "") ≡ false
      → optional_text_at p "_etag" system ≡ some token
  new_token system token found written =
      ap
        (λ o.
          let v = elim o as (λ _. Value) [ none ↦ null | some v ↦ v ] in
          if is_truthy v then some (text_of p v) else none)
        found
      ∙ (rw written refl)

  -- The stores agree on a decision: over an in-memory store that holds the caller's snapshot at its
  -- version, and a container that returns what was sent under an etag of its own, the two methods both
  -- refuse and change nothing; or they both return the snapshot with the decision applied, each under a
  -- new token; or the container refused the conditional replacement and the Cosmos method raises.
  -- Timestamps must read back, and the optional texts that are stored must not be empty.
  pub decide_approval_refines :
      (a : Approval) (d : Decision) (m : Memory) (w : World S)
      → ReadsTimes p
      → ReturnsItems c
      → IsStorable (apply_decision a d none)
      → IsHeld m a
      → BothRefuse (Memory.decide_approval w.clock a d m) (decide_approval (started c p) a d w) m w
        ⊎ BothDecide
            (Memory.decide_approval w.clock a d m)
            (decide_approval (started c p) a d w)
            a
            d
        ⊎ OneIsLost c p
            (Memory.decide_approval w.clock a d m)
            (decide_approval (started c p) a d w)
            a
            d
            w
  decide_approval_refines a d m w reads returns storable h = elim (Bool-cases (refused w.clock a)) [
    | inl e ↦ inl (record {
      here = memory_refuses w.clock a d m h e;
      there = cosmos_refuses a d w (decimal h.version) h.guarded e;
    })
    | inr e ↦
        let sent = sent_to a d (decimal h.version) w in
        let same =
          ap (λ (x : Result Approval × World S). x.0)
            (cosmos_replaces a d w (decimal h.version) h.guarded e) in
        elim (on_answer_cases sent.0 (record (pause w) { state = sent.1 })) [
          | inl (doc, wrote, answers) ↦
              let (system, token, returned, found, written, other) =
                returns _ (decimal h.version) _ doc (pause w).state sent.1
                  (ap (λ x. (x, sent.1)) wrote) in
              inr (
                inl (record {
                  token = token;
                  version = decimal (h.version + 1);
                  here = memory_decides w.clock a d m h e;
                  there =
                      same
                      ∙ answers (apply_decision a d (some token)) (
                          ap (approval_from_document p) returned
                          ∙ approval_from_document-approval_document p reads
                              (apply_decision a d none) system storable
                          ∙ ap ok (
                              with_etag-apply_decision a d _
                              ∙ ap (apply_decision a d) (new_token system token found written)));
                  renewed = λ k.
                      next_version (decimal-injective _ _ (some-injective (sym h.guarded ∙ k)));
                  changed = λ k. other (sym (some-injective (sym h.guarded ∙ k)));
                }))
          | inr (cause, lost, raised, raises) ↦ inr (
              inr (record {
                token = decimal h.version;
                guarded = h.guarded;
                version = decimal (h.version + 1);
                here = memory_decides w.clock a d m h e;
                cause = cause;
                lost = lost;
                raised = raised;
                there = same ∙ raises;
              }))
        ]
  ]
