-- ===== src/App/Closing.antt =====
-- The life cycle of the adapters: what was started is closed.
use soffortmcp.Prelude.{List, [], ◌∷◌, ◌++◌, ◌≡◌, refl, sym, subst, Result, ok, err}
use soffortmcp.App.{
  Adapter, verifier, store, push, disclosure, Adapters, Event, closed, nothing_started, start_all,
  close_all, lifespan,
}

-- The adapters that start, up to the first that raises; the last first.
abbrev started_from : Adapters → List Adapter → List Adapter → List Adapter
started_from adapters done [] = done
started_from adapters done (a ∷ rest) = elim (adapters.start a) [
  | ok _ ↦ started_from adapters (a ∷ done) rest
  | err e ↦ done
]

abbrev pub running : Adapters → List Adapter
running adapters = started_from adapters [] (verifier ∷ store ∷ push ∷ disclosure ∷ [])

abbrev pub closes : List Event → List Adapter
closes [] = []
closes (closed a ∷ l) = closes l ++ a ∷ []
closes (_ ∷ l) = closes l

-- The adapters of a list whose closes return, up to the first that raises.
abbrev pub closed_until : Adapters → List Adapter → List Adapter
closed_until adapters [] = []
closed_until adapters (a ∷ rest) = elim (adapters.close a) [
  | ok _ ↦ a ∷ closed_until adapters rest
  | err e ↦ []
]

abbrev Outcomes : Type 0
Outcomes = Result (Unit {0}) × Result (Unit {0}) × Result (Unit {0}) × Result (Unit {0})

abbrev row : Outcomes → Adapter → Result (Unit {0})
row (r1, r2, r3, r4) verifier = r1
row (r1, r2, r3, r4) store = r2
row (r1, r2, r3, r4) push = r3
row (r1, r2, r3, r4) disclosure = r4

-- Adapters given by what their starts and closes return.
abbrev table : Outcomes → Outcomes → Adapters
table starts ends = record { start = row starts; close = row ends }

-- The statement for a table.
abbrev Closes : Adapters → Result (Unit {0}) → Type 0
Closes adapters outcome =
    closes (lifespan adapters outcome nothing_started).1.events
    ≡ closed_until adapters (running adapters)

table_closing :
    (r1 r2 r3 r4 c4 c3 c2 c1 outcome : Result (Unit {0}))
    → Closes (table (r1, r2, r3, r4) (c1, c2, c3, c4)) outcome
unfolding lifespan start_all close_all
table_closing (err d) r2 r3 r4 c4 c3 c2 c1 outcome = refl
table_closing (ok _) (err d) r3 r4 c4 c3 c2 (err e) outcome = refl
table_closing (ok _) (err d) r3 r4 c4 c3 c2 (ok _) outcome = refl
table_closing (ok _) (ok _) (err d) r4 c4 c3 (err e) c1 outcome = refl
table_closing (ok _) (ok _) (err d) r4 c4 c3 (ok _) (err e) outcome = refl
table_closing (ok _) (ok _) (err d) r4 c4 c3 (ok _) (ok _) outcome = refl
table_closing (ok _) (ok _) (ok _) (err d) c4 (err e) c2 c1 outcome = refl
table_closing (ok _) (ok _) (ok _) (err d) c4 (ok _) (err e) c1 outcome = refl
table_closing (ok _) (ok _) (ok _) (err d) c4 (ok _) (ok _) (err e) outcome = refl
table_closing (ok _) (ok _) (ok _) (err d) c4 (ok _) (ok _) (ok _) outcome = refl
table_closing (ok _) (ok _) (ok _) (ok _) (err e) c3 c2 c1 outcome = refl
table_closing (ok _) (ok _) (ok _) (ok _) (ok _) (err e) c2 c1 outcome = refl
table_closing (ok _) (ok _) (ok _) (ok _) (ok _) (ok _) (err e) c1 outcome = refl
table_closing (ok _) (ok _) (ok _) (ok _) (ok _) (ok _) (ok _) (err e) outcome = refl
table_closing (ok _) (ok _) (ok _) (ok _) (ok _) (ok _) (ok _) (ok _) outcome = refl

abbrev outcomes : (Adapter → Result (Unit {0})) → Outcomes
outcomes f = (f verifier, f store, f push, f disclosure)

same_row : (f : Adapter → Result (Unit {0})) (a : Adapter) → f a ≡ row (outcomes f) a
same_row f verifier = refl
same_row f store = refl
same_row f push = refl
same_row f disclosure = refl

as_table :
    (adapters : Adapters) → adapters ≡ table (outcomes adapters.start) (outcomes adapters.close)
as_table adapters = λ i. record {
  start = λ a. same_row adapters.start a i;
  close = λ a. same_row adapters.close a i;
}

-- Whether a start raised, the application raised or it ended: the end of the life cycle closes the
-- adapters that had started, all of them and no other, in the reverse order, up to the first whose
-- close raises; those after it stay open.
pub lifespan-closes :
    (adapters : Adapters) (outcome : Result (Unit {0}))
    → closes (lifespan adapters outcome nothing_started).1.events
      ≡ closed_until adapters (running adapters)
lifespan-closes adapters outcome =
    subst (λ s. Closes s outcome) (sym (as_table adapters)) (table_closing _ _ _ _ _ _ _ _ outcome)
