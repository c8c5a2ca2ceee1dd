-- ===== src/Store/Memory/Decisions.antt =====
-- The first writer wins: what a decision commits, and that a closed approval never changes.
use soffortmcp.Prelude.{
  beq_self, ℕ, ◌+◌, ◌<◌, String, true, false, Option, none, some, List, [], ◌∷◌, ◌≡◌, refl, sym,
  arith, ◌⊎◌, inl, inr, Key, key_eq, lookup, insert, lookup-insert, Option-cases, Bool-cases, ◌∙◌,
  ap, Result, ok, err, store_conflict, ◌==◌,
}
use soffortmcp.Prelude.Decimal.{decimal, decimal_digits, digit}
use soffortmcp.Models.{pending, is_status, Approval, with_etag, option_beq}
use soffortmcp.Store.Memory.{
  Memory, Decision, empty, decide_approval, write_version, approval_key, apply_decision,
  refuses_decision, get_approval,
}
use soffortmcp.Store.Memory.Calls.{Call, step, run, Change, keep, create, update, step-Change}

-- The stored approval under a key is closed.
pub record IsClosed (k : Key) (a : Approval) (s : Memory) : Type 0 where
  pub stored : lookup k s.approvals ≡ some a
  pub closed : is_status a.status pending ≡ false

insert-IsClosed :
    (k key : Key) (a b : Approval) (s t : Memory)
    → t.approvals ≡ insert key b s.approvals
    → IsClosed k a s
    → ((key ≡ k) → ⊥)
    → IsClosed k a t
insert-IsClosed k key a b s t e h other = record {
  stored =
      rw (e, lookup-insert key k b s.approvals) (ground (arith, h.stored, key_eq.beq_iff key k));
  closed = h.closed;
}

open_not_closed :
    (a b : Approval)
    → some a ≡ some b
    → is_status a.status pending ≡ true
    → is_status b.status pending ≡ false
    → ⊥
open_not_closed a b e p q = ground arith

Change-IsClosed :
    (k : Key) (a : Approval) (s t : Memory) → Change s t → IsClosed k a s → IsClosed k a t
Change-IsClosed k a s t (keep e _) h = record { stored = rw e h.stored; closed = h.closed }
Change-IsClosed k a s t (create b fresh e _) h =
    insert-IsClosed k (approval_key b) a _ s t e h
      (λ p. cc (ap (λ j. lookup j s.approvals) p, fresh, h.stored))
Change-IsClosed k a s t (update key current updated v found open_ _ _ _ e _) h =
    insert-IsClosed k key a updated s t e h (λ p.
      open_not_closed current a (sym found ∙ ap (λ j. lookup j s.approvals) p ∙ h.stored) open_
        h.closed)

-- A closed approval, whether decided, cancelled or expired, is the same after every history of
-- calls: no later decision, cancellation or expiry overwrites the first one.
pub closed_forever :
    (k : Key) (a : Approval) (s : Memory) (cs : List (ℕ × Call))
    → IsClosed k a s
    → lookup k (run s cs).approvals ≡ some a
unfolding run
closed_forever k a s [] h = h.stored
closed_forever k a s (c ∷ cs) h =
    closed_forever k a (step s c) cs (Change-IsClosed k a s (step s c) (step-Change s c) h)

-- Each stored approval has a version, its etag spells the version, and it stands under its own key.
unfoldable pub Versioned : (k : Key) → Option Approval → Option ℕ → Type 0
Versioned k none v = Unit {0}
Versioned k (some a) v = (n : ℕ) × (v ≡ some n) × (a.etag ≡ some (decimal n)) × (approval_key a ≡ k)

abbrev pub VersionedAt : Memory → Key → Type 0
VersionedAt s k = Versioned k (lookup k s.approvals) (lookup k s.versions)

Versioned-insert :
    (k key : Key) (a : Approval) (n : ℕ) (s t : Memory)
    → t.approvals ≡ insert key a s.approvals
    → t.versions ≡ insert key n s.versions
    → a.etag ≡ some (decimal n)
    → approval_key a ≡ key
    → VersionedAt s k
    → VersionedAt t k
unfolding Versioned
Versioned-insert k key a n s t ea ev etag own h =
    rw (ea, ev, lookup-insert key k a s.approvals, lookup-insert key k n s.versions)
      (elim (Bool-cases (key == k)) [
        | inl same ↦ rw same (n, refl, etag, own ∙ (key_eq.beq_iff key k).0 same)
        | inr other ↦ rw other h
      ])

first_etag : ◌≡◌ {A = Option String} (some "1") (some (decimal 1))
unfolding decimal decimal_digits digit
first_etag = refl

own_key :
    (key : Key) (a : Approval) (s : Memory)
    → lookup key s.approvals ≡ some a
    → VersionedAt s key
    → approval_key a ≡ key
unfolding Versioned
own_key key a s found h =
    let h' : Versioned key (some a) (lookup key s.versions) = rw (found) at h in h'.3

Change-Versioned :
    (s t : Memory) → Change s t → ((k : Key) → VersionedAt s k) → (k : Key) → VersionedAt t k
unfolding Versioned
Change-Versioned s t (keep ea ev) h k = rw (ea, ev) (h k)
Change-Versioned s t (create b fresh ea ev) h k =
    Versioned-insert k (approval_key b) (with_etag b (some "1")) 1 s t ea ev
      (unfold with_etag in first_etag) (unfold with_etag in refl) (h k)
Change-Versioned s t (update key current updated v found open_ versioned same etag ea ev) h k =
    Versioned-insert k key updated (v + 1) s t ea ev etag
      (same ∙ own_key key current s found (h key)) (h k)

abbrev pub IsVersioned : Memory → Type 0
IsVersioned s = (k : Key) → VersionedAt s k

pub keeps_versions : (s : Memory) (cs : List (ℕ × Call)) → IsVersioned s → IsVersioned (run s cs)
unfolding run
keeps_versions s [] h = h
keeps_versions s (c ∷ cs) h =
    keeps_versions (step s c) cs (Change-Versioned s (step s c) (step-Change s c) h)

-- From the empty store, after any history of calls, each approval stands under its own key and its
-- concurrency token spells the version that the store keeps for it.
pub run-IsVersioned : (cs : List (ℕ × Call)) → IsVersioned (run empty cs)
run-IsVersioned cs = keeps_versions empty cs (unfold Versioned lookup in λ k. tt)

-- The tests of a decision: the stored approval is pending, not expired, and has the token of the
-- caller's snapshot.
pub record Admits (now : ℕ) (a current : Approval) (s : Memory) : Type 0 where
  pub found : lookup (approval_key a) s.approvals ≡ some current
  pub pending : is_status current.status pending ≡ true
  pub live : now < current.expires_at
  pub same_etag : option_beq current.etag a.etag ≡ true

Admits-refuses :
    (now : ℕ) (a current : Approval) (s : Memory)
    → Admits now a current s
    → refuses_decision now current a ≡ false
Admits-refuses now a current s w = ground arith

Admits-of_not_refused :
    (now : ℕ) (a current : Approval) (s : Memory)
    → lookup (approval_key a) s.approvals ≡ some current
    → refuses_decision now current a ≡ false
    → Admits now a current s
Admits-of_not_refused now a current s e h = ground arith

version_of :
    (key : Key) (a : Approval) (s : Memory)
    → IsVersioned s
    → lookup key s.approvals ≡ some a
    → (v : ℕ) × (lookup key s.versions ≡ some v) × (a.etag ≡ some (decimal v))
unfolding Versioned
version_of key a s h e =
    let at : Versioned key (some a) (lookup key s.versions) = rw e at (h key) in (at.0, at.1, at.2)

decide_approval_admitted :
    (now : ℕ) (a current : Approval) (d : Decision) (v : ℕ) (s : Memory)
    → Admits now a current s
    → lookup (approval_key a) s.versions ≡ some v
    → decide_approval now a d s ≡ (
      ok (apply_decision current d (some (decimal (v + 1)))),
      record s {
        versions = insert (approval_key a) (v + 1) s.versions;
        approvals =
            insert (approval_key a) (apply_decision current d (some (decimal (v + 1)))) s.approvals;
      },
    )
unfolding decide_approval write_version
decide_approval_admitted now a current d v s w ve =
    rw (w.found, decide_approval) (rw (Admits-refuses now a current s w) (rw (ve, write_version)))

-- `decide_approval` on a store with consistent versions either finds an approval that admits the
-- decision, stores it with the decision and a new token, and returns it; or it raises
-- `StoreConflict` and changes nothing.
pub decide_approval_cases :
    (now : ℕ) (a : Approval) (d : Decision) (s : Memory)
    → IsVersioned s
    → ((decide_approval now a d s ≡ (err store_conflict, s))
        × ((current : Approval) → ¬ Admits now a current s))
      ⊎ ((current : Approval) × (v : ℕ) × Admits now a current s
          × (current.etag ≡ some (decimal v))
          × (decide_approval now a d s ≡ (
            ok (apply_decision current d (some (decimal (v + 1)))),
            record s {
              versions = insert (approval_key a) (v + 1) s.versions;
              approvals =
                  insert
                    (approval_key a)
                    (apply_decision current d (some (decimal (v + 1))))
                    s.approvals;
            },
          )))
unfolding decide_approval
decide_approval_cases now a d s h = elim (Option-cases (lookup (approval_key a) s.approvals)) [
  | inl e ↦ inl (rw (e, decide_approval) refl, λ current w. cc (e, w.found))
  | inr (current, e) ↦ elim (Bool-cases (refuses_decision now current a)) [
    | inl refused ↦ inl (
      rw (e, decide_approval) (rw refused refl),
      λ other w. ground (arith, Admits-refuses now a other s w, w.found),
    )
    | inr admitted ↦
        let w = Admits-of_not_refused now a current s e admitted in
        let (v, ve, etag) = version_of (approval_key a) current s h e in
        inr (current, v, w, etag, decide_approval_admitted now a current d v s w ve)
  ]
]

decide_closed :
    (now : ℕ) (a b : Approval) (d : Decision) (s : Memory)
    → IsClosed (approval_key a) b s
    → decide_approval now a d s ≡ (err store_conflict, s)
unfolding decide_approval
decide_closed now a b d s h = rw (h.stored, decide_approval) (rw (h.closed))

stored_IsClosed :
    (a b updated : Approval) (s t : Memory)
    → b ≡ updated
    → t.approvals ≡ insert (approval_key a) updated s.approvals
    → is_status updated.status pending ≡ false
    → IsClosed (approval_key a) b t
stored_IsClosed a b updated s t same e closed = record {
  stored =
      rw (e, same, lookup-insert (approval_key a) (approval_key a) updated s.approvals)
        (rw (beq_self (approval_key a)));
  closed = rw same closed;
}

decided_IsClosed :
    (now : ℕ) (a b : Approval) (d : Decision) (s t : Memory)
    → IsVersioned s
    → is_status d.status pending ≡ false
    → decide_approval now a d s ≡ (ok b, t)
    → IsClosed (approval_key a) b t
decided_IsClosed now a b d s t h closing e = elim (decide_approval_cases now a d s h) [
  | inl (refused, _) ↦ absurd (cc (e, refused))
  | inr (current, v, w, etag, done) ↦
      stored_IsClosed a b _ s t (cc (e, done))
        (ap (λ (r : Result Approval × Memory). r.1.approvals) (sym e ∙ done))
        (unfold apply_decision in closing)
]

-- Once a decision is committed, every other decision of the same approval, from any snapshot, at
-- any later time and after any other calls, raises `StoreConflict` and changes nothing, and the
-- approval that is read is the one that the first decision returned.
pub first_writer_wins :
    (now later : ℕ) (a a' b : Approval) (d d' : Decision) (s t : Memory) (cs : List (ℕ × Call))
    → IsVersioned s
    → is_status d.status pending ≡ false
    → decide_approval now a d s ≡ (ok b, t)
    → approval_key a' ≡ approval_key a
    → (decide_approval later a' d' (run t cs) ≡ (err store_conflict, run t cs))
      × (get_approval a.partition_key a.approval_id (run t cs) ≡ (ok (some b), run t cs))
unfolding get_approval
first_writer_wins now later a a' b d d' s t cs h closing e same =
    let closed : IsClosed (approval_key a) b t = decided_IsClosed now a b d s t h closing e in
    let stored : lookup (approval_key a) (run t cs).approvals ≡ some b =
      closed_forever (approval_key a) b t cs closed in
    (
      decide_closed later a' b d' (run t cs)
          (record { stored = rw same stored; closed = closed.closed }),
      rw stored refl,
    )
