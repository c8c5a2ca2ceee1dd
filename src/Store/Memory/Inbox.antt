-- ===== src/Store/Memory/Inbox.antt =====
-- `list_pending_approvals`: the phone's bounded inbox.
use mathlib.Core.List.{Perm}
use mathlib.Core.List.Perm
use soffortmcp.Prelude.{
  ℕ, zero, suc, ◌≤◌, ◌<◌, String, true, some, List, [], ◌∷◌, ◌≡◌, refl, sym, arith, map, Key, leb,
  ok, All, filter, take, take-All, length, length-take-le, Bool-cases, inl, inr, take_of_length-le,
  eq_iff, insert, lookup, ◌==◌, key_eq, ◌∙◌, ap,
}
use soffortmcp.Models.{pending, is_status, Approval, with_etag}
use soffortmcp.Store.Memory.Calls.{Call, step, run, Change, keep, create, update, step-Change}
use soffortmcp.Store.Memory.{
  Memory, list_pending_approvals, newest_first, insert_newest, is_open, value_of, approval_key,
}

insert_newest-perm : (a : Approval) (l : List Approval) → Perm (insert_newest a l) (a ∷ l)
unfolding insert_newest
insert_newest-perm a [] = Perm.refl _
insert_newest-perm a (b ∷ l) = elim (Bool-cases (leb b.created_at a.created_at)) [
  | inl h ↦ rw h (Perm.refl _)
  | inr h ↦ rw h (Perm.trans (Perm.cons b (insert_newest-perm a l)) (Perm.swap a b l))
]

newest_first-perm : (l : List Approval) → Perm (newest_first l) l
unfolding newest_first
newest_first-perm [] = Perm.refl _
newest_first-perm (a ∷ l) =
    Perm.trans (insert_newest-perm a (newest_first l)) (Perm.cons a (newest_first-perm l))

length-insert_newest :
    (a : Approval) (l : List Approval) → length (insert_newest a l) ≡ suc (length l)
unfolding insert_newest
length-insert_newest a [] = refl
length-insert_newest a (b ∷ l) = ground (arith, length-insert_newest a l)

length-newest_first : (l : List Approval) → length (newest_first l) ≡ length l
unfolding newest_first
length-newest_first [] = refl
length-newest_first (a ∷ l) =
    omega (arith, length-insert_newest a (newest_first l), length-newest_first l)

-- Each entry is at least as new as the one behind it.
abbrev pub IsNewestFirst : List Approval → Type 0
IsNewestFirst [] = Unit {0}
IsNewestFirst (a ∷ []) = Unit {0}
IsNewestFirst (a ∷ b ∷ l) = (b.created_at ≤ a.created_at) × IsNewestFirst (b ∷ l)

insert_newest-IsNewestFirst :
    (a : Approval) (l : List Approval) → IsNewestFirst l → IsNewestFirst (insert_newest a l)
unfolding insert_newest
insert_newest-IsNewestFirst a [] h = tt
insert_newest-IsNewestFirst a (b ∷ []) h = ground arith
insert_newest-IsNewestFirst a (b ∷ c ∷ l) h =
    ground (arith, insert_newest-IsNewestFirst a (c ∷ l) h.1)

newest_first-IsNewestFirst : (l : List Approval) → IsNewestFirst (newest_first l)
unfolding newest_first
newest_first-IsNewestFirst [] = tt
newest_first-IsNewestFirst (a ∷ l) =
    insert_newest-IsNewestFirst a (newest_first l) (newest_first-IsNewestFirst l)

take-IsNewestFirst : (n : ℕ) (l : List Approval) → IsNewestFirst l → IsNewestFirst (take n l)
unfolding take
take-IsNewestFirst zero l h = tt
take-IsNewestFirst (suc n) [] h = tt
take-IsNewestFirst (suc zero) (a ∷ []) h = tt
take-IsNewestFirst (suc (suc n)) (a ∷ []) h = tt
take-IsNewestFirst (suc zero) (a ∷ b ∷ l) h = tt
take-IsNewestFirst (suc (suc n)) (a ∷ b ∷ l) h = (h.0, take-IsNewestFirst (suc n) (b ∷ l) h.1)

insert_newest-All {κ} :
    (P : Approval → Type κ) (a : Approval) (l : List Approval)
    → P a
    → All P l
    → All P (insert_newest a l)
unfolding insert_newest
insert_newest-All P a [] p h = (p, tt)
insert_newest-All P a (b ∷ l) p h = elim (Bool-cases (leb b.created_at a.created_at)) [
  | inl e ↦ rw e (p, h)
  | inr e ↦ rw e (h.0, insert_newest-All P a l p h.1)
]

newest_first-All {κ} :
    (P : Approval → Type κ) (l : List Approval) → All P l → All P (newest_first l)
unfolding newest_first
newest_first-All P [] h = tt
newest_first-All P (a ∷ l) h = insert_newest-All P a (newest_first l) h.0 (newest_first-All P l h.1)

-- What may be shown: the entries of the partition that are pending and not expired.
abbrev pub open_approvals : ℕ → String → Memory → List Approval
open_approvals now partition s = map value_of (filter (is_open now partition) s.approvals)

-- An entry of the inbox at an instant.
pub record IsOpen (now : ℕ) (partition : String) (a : Approval) : Type 0 where
  pub waiting : is_status a.status pending ≡ true
  pub live : now < a.expires_at
  pub owned : a.partition_key ≡ partition

-- Each entry of the table stands under the key of its approval.
abbrev pub OwnsEntries : List (Key × Approval) → Type 0
OwnsEntries = All (λ e. approval_key e.1 ≡ e.0)

filter-IsOpen :
    (now : ℕ) (partition : String) (l : List (Key × Approval))
    → OwnsEntries l
    → All (IsOpen now partition) (map value_of (filter (is_open now partition) l))
unfolding filter
filter-IsOpen now partition [] h = tt
filter-IsOpen now partition (((k, i), a) ∷ l) h =
    elim (Bool-cases (is_open now partition ((k, i), a))) [
      | inr e ↦ rw e (filter-IsOpen now partition l h.1)
      | inl e ↦ rw e (
        record {
          waiting = ground arith;
          live = ground arith;
          owned = ground (arith, eq_iff k partition, h.0);
        },
        filter-IsOpen now partition l h.1,
      )
    ]

-- The inbox has at most 20 approvals, newest first; each is pending, not expired and of the asked
-- partition. If no more than 20 approvals qualify, the inbox is a rearrangement of all of them.
-- The store is unchanged.
pub list_pending_approvals_lem :
    (now : ℕ) (partition : String) (s : Memory)
    → OwnsEntries s.approvals
    → (inbox : List Approval) × (list_pending_approvals now partition s ≡ (ok inbox, s))
      × (length inbox ≤ 20)
      × IsNewestFirst inbox
      × All (IsOpen now partition) inbox
      × (length (open_approvals now partition s) ≤ 20 → Perm inbox (open_approvals now partition s))
unfolding list_pending_approvals
list_pending_approvals_lem now partition s own =
    let l = open_approvals now partition s in
    let sorted = newest_first l in
    (
      take 20 sorted,
      refl,
      length-take-le 20 sorted,
      take-IsNewestFirst 20 sorted (newest_first-IsNewestFirst l),
      take-All (IsOpen now partition) 20 sorted
          (newest_first-All (IsOpen now partition) l (filter-IsOpen now partition s.approvals own)),
      λ few.
          rw (take_of_length-le sorted 20 (rw (length-newest_first l) few)) (newest_first-perm l),
    )

insert-OwnsEntries :
    (key : Key) (a : Approval) (l : List (Key × Approval))
    → approval_key a ≡ key
    → OwnsEntries l
    → OwnsEntries (insert key a l)
unfolding insert
insert-OwnsEntries key a [] own h = (own, tt)
insert-OwnsEntries key a ((j, b) ∷ l) own h = elim (Bool-cases (j == key)) [
  | inl e ↦ rw e (own ∙ sym ((key_eq.beq_iff j key).0 e), h.1)
  | inr e ↦ rw e (h.0, insert-OwnsEntries key a l own h.1)
]

some_equal : (a b : Approval) → some a ≡ some b → a ≡ b
some_equal a b h = cc

lookup-OwnsEntries :
    (key : Key) (a : Approval) (l : List (Key × Approval))
    → OwnsEntries l
    → lookup key l ≡ some a
    → approval_key a ≡ key
unfolding lookup
lookup-OwnsEntries key a [] h e = cc
lookup-OwnsEntries key a ((j, b) ∷ l) h e = elim (Bool-cases (j == key)) [
  | inl same ↦
      let stored : b ≡ a = some_equal b a (rw same at e) in
      ap approval_key (sym stored) ∙ h.0 ∙ (key_eq.beq_iff j key).0 same
  | inr other ↦ lookup-OwnsEntries key a l h.1 (rw other at e)
]

Change-OwnsEntries : (s t : Memory) → Change s t → OwnsEntries s.approvals → OwnsEntries t.approvals
Change-OwnsEntries s t (keep e _) h = rw e h
Change-OwnsEntries s t (create a _ e _) h =
    rw e (insert-OwnsEntries (approval_key a) _ s.approvals (unfold with_etag in refl) h)
Change-OwnsEntries s t (update key current updated v found _ _ same _ e _) h = rw e (
    insert-OwnsEntries key updated s.approvals
      (same ∙ lookup-OwnsEntries key current s.approvals h found) h)

-- Every history of calls keeps each approval under its own key.
pub run-OwnsEntries :
    (s : Memory) (cs : List (ℕ × Call)) → OwnsEntries s.approvals → OwnsEntries (run s cs).approvals
unfolding run
run-OwnsEntries s [] h = h
run-OwnsEntries s (c ∷ cs) h =
    run-OwnsEntries (step s c) cs (Change-OwnsEntries s (step s c) (step-Change s c) h)
