-- ===== src/Store/Cosmos/FirstWriter.antt =====
-- Decisions over a container whose replacements are conditional.
use soffortmcp.Prelude.{
  ℕ, String, true, not, ◌||◌, Option, none, some, List, [], ◌∷◌, ◌≡◌, ◌≢◌, ◌⊎◌, inl, inr, refl, sym,
  ap, ap₂, subst, ◌∙◌, arith, All, nat_beq, concat, lookup, string_eq, Bool-cases, Failure, Result,
  ok, err, store_conflict, store_unavailable, cosmos_error,
}
use soffortmcp.Prelude.Exec.{lift, continue, resume, catch}
use soffortmcp.Prelude.Json.{str}
use soffortmcp.Models.{ApprovalStatus, Approval, is_status, is_expired}
use soffortmcp.Models
use soffortmcp.Store.Memory.{Decision, apply_decision}
use soffortmcp.Store.Conversions.{Python, Document}
use soffortmcp.Store.Documents.{approval_document, approval_from_document}
use soffortmcp.Store.Cosmos.{
  Container, Cosmos, call, conflict_at, replace_under, replace_approval, decide_approval,
  close_approval, is_absent,
}
use soffortmcp.Approval.Service.{World, await, pause, interleave}

-- The operations of a container, as calls.
pub data Operation : Type 0 where
  reads deletes queries : String → String → Operation
  creates upserts : Document → Operation
  replaces : String → Document → String → Operation

module _ {S : Type 0} (c : Container S) where
  abbrev pub perform : S → Operation → S
  perform s (reads id partition) = (c.read_item id partition s).1
  perform s (deletes id partition) = (c.delete_item id partition s).1
  perform s (queries query partition) = (c.query_items query partition s).1
  perform s (creates d) = (c.create_item d s).1
  perform s (upserts d) = (c.upsert_item d s).1
  perform s (replaces id d etag) = (c.replace_item id d etag s).1

  abbrev pub perform_all : S → List Operation → S
  perform_all s [] = s
  perform_all s (o ∷ l) = perform_all (perform s o) l

  -- Other tasks reach the store through the container only.
  abbrev pub OnlyOperates : World S → Type 0
  OnlyOperates w = All (λ f. (s : S) → (l : List Operation) × ((f s).0 ≡ perform_all s l)) w.others

  -- What Cosmos DB documents of If-Match: each write gives an item a new etag, so that a token under
  -- which an item was replaced is never again that of the item, and a replacement under another token
  -- than the item's fails.
  pub record IsConditional (Retired : S → String → String → String → Type 0) : Type 0 where
    pub retires :
        (id etag partition : String) (body d : Document) (s t : S)
        → lookup "partition_key" body ≡ some (str partition)
        → c.replace_item id body etag s ≡ (ok d, t)
        → Retired t partition id etag
    pub refuses :
        (id etag partition : String) (body : Document) (s : S)
        → lookup "partition_key" body ≡ some (str partition)
        → Retired s partition id etag
        → (status : ℕ) × ((c.replace_item id body etag s).0 ≡ err (cosmos_error status))
    pub keeps :
        (o : Operation) (id etag partition : String) (s : S)
        → Retired s partition id etag
        → Retired (perform s o) partition id etag

-- What may come out of a lost race.
abbrev pub IsLost : {A : Type 0} → Result A → Type 0
IsLost r = (r ≡ err store_conflict) ⊎ (r ≡ err store_unavailable)

some-injective : {a b : String} → some a ≡ some b → a ≡ b
some-injective h = cc

same_target :
    (prior prior' : Approval) (e e' : String)
    → prior'.approval_id ≡ prior.approval_id
    → some e ≡ some e'
    → ◌≡◌ {A = String × String}
        (concat "approval:" prior.approval_id, e)
        (concat "approval:" prior'.approval_id, e')
same_target prior prior' e e' same_id same_etag =
    ap₂ (λ (i k : String). (concat "approval:" i, k)) (sym same_id) (some-injective same_etag)

conflict_at_raises :
    {S A : Type 0} (code : ℕ) (e : Failure) (s t : S) (a : A)
    → ◌≢◌ {A = Result A × S} (conflict_at code e s) (ok a, t)
unfolding conflict_at
conflict_at_raises code e s t a h = ground arith

module _ {S : Type 0} (c : Container S) (p : Python) where
  -- The store once it is started.
  abbrev pub started : Cosmos S
  started = record { python = p; container = some c }

  after_read :
      (o : Result Approval) (w t : World S) (b : Approval)
      → resume o (conflict_at 412) w ≡ (ok b, t)
      → (o ≡ ok b) × (w ≡ t)
  after_read (ok a) w t b h =
      (ap (λ (r : Result Approval × World S). r.0) h, ap (λ (r : Result Approval × World S). r.1) h)
  after_read (err e) w t b h = absurd (conflict_at_raises 412 e w t b h)

  after_replace :
      (r : Result Document) (w t : World S) (b : Approval)
      → catch (λ v. continue r (λ d. lift (approval_from_document p d)) v) (conflict_at 412) w
        ≡ (ok b, t)
      → (d : Document) × (r ≡ ok d) × (approval_from_document p d ≡ ok b) × (w ≡ t)
  after_replace (ok d) w t b h =
      let (read, same) = after_read (approval_from_document p d) w t b h in (d, refl, read, same)
  after_replace (err e) w t b h = absurd (conflict_at_raises 412 e w t b h)

  -- What a successful replacement did.
  pub replaced :
      (prior updated b : Approval) (etag : Option String) (w t : World S)
      → replace_under started prior updated etag w ≡ (ok b, t)
      → (e : String) × (d : Document) × (etag ≡ some e)
        × ((c.replace_item
              (concat "approval:" prior.approval_id)
              (approval_document p updated)
              e
              (pause w).state)
            ≡ (ok d, t.state))
        × (approval_from_document p d ≡ ok b)
  unfolding replace_under call await
  replaced prior updated b none w t h = absurd (cc h)
  replaced prior updated b (some e) w t h =
      let m =
        await
          (λ at.
            c.replace_item (concat "approval:" prior.approval_id) (approval_document p updated) e)
          w in
      let (d, got, read, same) = after_replace m.0 m.1 t b h in
      (e, d, refl, ap₂ (λ (r : Result Document) (u : World S). (r, u.state)) got same, read)

  refused :
      (prior updated : Approval) (etag : Option String) (w : World S)
      → ((e : String)
          → etag ≡ some e
          → (status : ℕ) × ((c.replace_item
                (concat "approval:" prior.approval_id)
                (approval_document p updated)
                e
                (pause w).state).0
              ≡ err (cosmos_error status)))
      → IsLost (replace_under started prior updated etag w).0
  unfolding replace_under call await conflict_at
  refused prior updated none w h = inl refl
  refused prior updated (some e) w h =
      let (status, lost) = h e refl in
      rw lost (elim (Bool-cases (nat_beq status 412)) [
        | inl at_once ↦ rw at_once (inl refl)
        | inr other ↦ rw other (inr refl)
      ])

  partition_of :
      (a : Approval) → lookup "partition_key" (approval_document p a) ≡ some (str a.partition_key)
  unfolding lookup approval_document
  partition_of a = refl

  module _ (Retired : S → String → String → String → Type 0) (laws : IsConditional c Retired) where
    keeps_all :
        (l : List Operation) (s : S) (id etag partition : String)
        → Retired s partition id etag
        → Retired (perform_all c s l) partition id etag
    keeps_all [] s id etag partition h = h
    keeps_all (o ∷ l) s id etag partition h =
        keeps_all l (perform c s o) id etag partition (laws.keeps o id etag partition s h)

    interleave-Retired :
        (l : List (S → S × ℕ)) (w : World S) (id etag partition : String)
        → All (λ f. (s : S) → (o : List Operation) × ((f s).0 ≡ perform_all c s o)) l
        → Retired w.state partition id etag
        → Retired (interleave l w).state partition id etag
    unfolding interleave
    interleave-Retired [] w id etag partition only h = h
    interleave-Retired (f ∷ fs) w id etag partition only h =
        let (o, e) = only.0 w.state in
        subst (λ s. Retired s partition id etag) (sym e) (keeps_all o w.state id etag partition h)

    -- Whatever a successful replacement wrote, each later one under the same token is lost.
    replace_once :
        (prior updated b : Approval) (w t : World S)
        → updated.partition_key ≡ prior.partition_key
        → replace_approval started prior updated w ≡ (ok b, t)
        → (prior' updated' : Approval) (later : World S) (l : List Operation)
        → prior'.approval_id ≡ prior.approval_id
        → updated'.partition_key ≡ prior.partition_key
        → prior'.etag ≡ prior.etag
        → later.state ≡ perform_all c t.state l
        → OnlyOperates c later
        → IsLost (replace_approval started prior' updated' later).0
    unfolding replace_approval pause
    replace_once prior updated b w t owner h prior' updated' later l same_id owner' same_etag from
          only =
        let (e, d, held, wrote, _) = replaced prior updated b prior.etag w t h in
        let id = concat "approval:" prior.approval_id in
        let retired : Retired t.state prior.partition_key id e =
          laws.retires id e prior.partition_key (approval_document p updated) d (pause w).state
            t.state (partition_of updated ∙ ap (λ k. some (str k)) owner) wrote in
        let still : Retired (pause later).state prior.partition_key id e =
          interleave-Retired later.others later id e prior.partition_key only (
            subst (λ s. Retired s prior.partition_key id e) (sym from)
              (keeps_all l t.state id e prior.partition_key retired)) in
        refused prior' updated' prior'.etag later λ e' held'.
          subst
            (λ (x : String × String).
              (status : ℕ) × ((c.replace_item x.0 (approval_document p updated') x.1
                  (pause later).state).0
                ≡ err (cosmos_error status)))
            (same_target prior prior' e e' same_id (sym held ∙ sym same_etag ∙ held'))
            (laws.refuses id e prior.partition_key (approval_document p updated')
              (pause later).state (partition_of updated' ∙ ap (λ k. some (str k)) owner') still)

    -- Over a container with conditional replacements the first decision wins: after `decide_approval`
    -- has returned, every decision of the same approval from a snapshot with the same token, and every
    -- close from such a snapshot that is pending, raises `StoreConflict` or `StoreUnavailable`,
    -- whatever operations other tasks and processes perform on the container in between.
    pub decide_approval_once :
        (a a' b : Approval) (d d' : Decision) (status : ApprovalStatus) (w t later : World S)
        (l : List Operation)
        → decide_approval started a d w ≡ (ok b, t)
        → a'.partition_key ≡ a.partition_key
        → a'.approval_id ≡ a.approval_id
        → a'.etag ≡ a.etag
        → later.state ≡ perform_all c t.state l
        → OnlyOperates c later
        → IsLost (decide_approval started a' d' later).0
          × (is_status a'.status Models.pending ≡ true
              → IsLost (close_approval started a' status later).0)
    unfolding decide_approval close_approval apply_decision
    decide_approval_once a a' b d d' status w t later l h same_owner same_id same_etag from only =
        elim (Bool-cases (
          is_absent started a.etag
          || not (is_status a.status Models.pending)
          || is_expired w.clock a)) [
            | inl e ↦ absurd (let never = rw e at h in cc)
            | inr e ↦
                let lost = λ (u : Approval) (owner : u.partition_key ≡ a.partition_key).
                  replace_once a (apply_decision a d none) b w t refl (rw e at h) a' u later l
                    same_id owner same_etag from only in
                let decided : IsLost (decide_approval started a' d' later).0 =
                  elim (Bool-cases (
                    is_absent started a'.etag
                    || not (is_status a'.status Models.pending)
                    || is_expired later.clock a')) [
                      | inl closed ↦ rw closed (inl refl)
                      | inr open_ ↦ rw open_ (lost (apply_decision a' d' none) same_owner)
                    ] in
                (decided, λ open_. rw open_ (lost _ same_owner))
          ]
