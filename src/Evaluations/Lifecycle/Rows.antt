-- ===== src/Evaluations/Lifecycle/Rows.antt =====
-- The histories of the table of evaluation runs: rows are inserted, and rows that a query found take a
-- step. What every such history keeps.
use aiagent.Evaluations.Rows.{EvaluationRun}
use aiagent.Evaluations.Lifecycle.{RunStep, RunOk, RunStep-id, RunStep-is_open, RunStep-RunOk}
use aiagent.Evaluations.Execution.{is_open}
use aiagent.Prelude.{
  ℕ, List, Bool, ◌==◌, update, ◌∷◌, All, find, ◌≢◌, ◌≡◌, find-All, [], some, arith, if◌then◌else◌,
  update-All, subst, false, Bool-cases, inl, inr, sym, ◌∙◌, true, true-false, find-update_other,
}
use aiagent.Errors.{some_injective}

abbrev pub has_id : ℕ → EvaluationRun → Bool
has_id id run = run.id == id

-- The rows with the id of a row are written.
abbrev pub saved : EvaluationRun → List EvaluationRun → List EvaluationRun
saved run rows = update (has_id run.id) (λ _. run) rows

-- No two rows have one id.
abbrev pub AreDistinct : List EvaluationRun → Type 0
AreDistinct [] = Unit
AreDistinct (a ∷ rows) = All (λ b. b.id ≢ a.id) rows × AreDistinct rows

pub data Life (rows : List EvaluationRun) : List EvaluationRun → Type 0 where
  still : Life rows rows
  insert :
      {xs : List EvaluationRun} (run : EvaluationRun)
      → Life rows xs
      → All (λ b. b.id ≢ run.id) xs
      → RunOk run
      → Life rows (run ∷ xs)
  change :
      {xs : List EvaluationRun} (run run' : EvaluationRun)
      → Life rows xs
      → find (has_id run.id) xs ≡ some run
      → RunStep run run'
      → Life rows (saved run' xs)

-- The table after a history that follows another one.
pub followed_by : {xs ys zs : List EvaluationRun} → Life xs ys → Life ys zs → Life xs zs
followed_by l still = l
followed_by l (insert run k new ok) = insert run (followed_by l k) new ok
followed_by l (change run run' k e s) = change run run' (followed_by l k) e s

saved_ids :
    (i : ℕ) (run : EvaluationRun) (rows : List EvaluationRun)
    → All (λ b. b.id ≢ i) rows
    → All (λ b. b.id ≢ i) (saved run rows)
saved_ids i run [] h = tt
saved_ids i run (x ∷ rows) h = (ground (arith, h.0), saved_ids i run rows h.1)

saved-AreDistinct :
    (run : EvaluationRun) (rows : List EvaluationRun)
    → AreDistinct rows
    → AreDistinct (saved run rows)
saved-AreDistinct run [] h = tt
saved-AreDistinct run (x ∷ rows) h = (
  subst (λ i. All (λ b. b.id ≢ i) (saved run rows)) kept (saved_ids x.id run rows h.0),
  saved-AreDistinct run rows h.1,
)
  where
    kept : x.id ≡ (if x.id == run.id then run else x).id
    kept = ground arith

pub Life-AreDistinct : {xs ys : List EvaluationRun} → AreDistinct xs → Life xs ys → AreDistinct ys
Life-AreDistinct h still = h
Life-AreDistinct h (insert run l new ok) = (new, Life-AreDistinct h l)
Life-AreDistinct h (change {xs} run run' l e s) = saved-AreDistinct run' xs (Life-AreDistinct h l)

pub Life-RunOk : {xs ys : List EvaluationRun} → All RunOk xs → Life xs ys → All RunOk ys
Life-RunOk h still = h
Life-RunOk h (insert run l new ok) = (ok, Life-RunOk h l)
Life-RunOk h (change {xs} run run' l e s) =
    let rest = Life-RunOk h l in
    let ok = (find-All RunOk (has_id run.id) xs rest e).0 in
    update-All RunOk (has_id run'.id) (λ _. run') xs rest (λ _ _ _. RunStep-RunOk s ok)

-- A row that is found by its id and is over is found so ever after.
pub Life-closed :
    {xs ys : List EvaluationRun} (id : ℕ) {run : EvaluationRun}
    → find (has_id id) xs ≡ some run
    → is_open run.status ≡ false
    → Life xs ys
    → find (has_id id) ys ≡ some run
Life-closed id e over still = e
Life-closed id {run} e over (insert {xs} new l fresh ok) =
    let h = Life-closed id e over l in
    let (other, same) = find-All (λ b. b.id ≢ new.id) (has_id id) xs {a = run} fresh h in
    ground (arith, h, other)
Life-closed id {run} e over (change {xs} old new l found_old s) =
    let h = Life-closed id e over l in
    elim (Bool-cases (new.id == id)) [
      | inl this ↦
          let same : old.id ≡ id = ground (arith, RunStep-id s) in
          let at_id : find (has_id id) xs ≡ some old =
            subst (λ i. find (has_id i) xs ≡ some old) same found_old in
          let one : run ≡ old = some_injective (sym h ∙ at_id) in
          let moves : is_open run.status ≡ true = rw one (RunStep-is_open s) in
          absurd (true-false (sym moves ∙ over))
      | inr other ↦
          find-update_other (has_id id) (has_id new.id) new xs other (λ x k. ground (arith, k)) ∙ h
    ]

-- In a table without a repeated id, a row that a stricter query found is the row of its id.
pub find-id :
    (p : EvaluationRun → Bool) (rows : List EvaluationRun) {run : EvaluationRun}
    → AreDistinct rows
    → find p rows ≡ some run
    → find (has_id run.id) rows ≡ some run
find-id p [] h e = cc
find-id p (x ∷ rows) {run} h e = elim (Bool-cases (p x)) [
  | inl yes_x ↦
      let same : x ≡ run = ground arith in
      subst (λ (y : EvaluationRun). find (has_id y.id) (x ∷ rows) ≡ some y) same (ground arith)
  | inr no_x ↦
      let e' : find p rows ≡ some run = ground arith in
      let other = (find-All (λ b. b.id ≢ x.id) p rows {a = run} h.0 e').0 in
      ground (arith, other, find-id p rows {run = run} h.1 e')
]
