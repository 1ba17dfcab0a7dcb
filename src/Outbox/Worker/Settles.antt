-- ===== src/Outbox/Worker/Settles.antt =====
-- No row is left half-way by a batch whose database calls succeed.
use saas_forge.Base.{
  ℕ, ◌+◌, ◌≡◌, refl, sym, ◌∙◌, Bool, true, false, List, [], ◌∷◌, ◌||◌, not, some, none, All,
  contains, nat_eq, arith,
}
use mathlib.Core.Path.{subst}
use saas_forge.Outbox.Table.{
  Row, claim_ids, claim_rows, claimed_rows, mark_done, mark_failed, is_processing,
}
use saas_forge.Outbox.Worker.{
  Downstream, Worker, World, Outcome, deliver, process_row, process_rows, process_batch,
}
use saas_forge.Outbox.Worker.Batch.{settled, process_row-rows}

abbrev row_ids : List Row → List ℕ
row_ids [] = []
row_ids (r ∷ rows) = r.id ∷ row_ids rows

-- The rows in processing are among these.
abbrev IsCovered : List ℕ → List Row → Type 0
IsCovered ids rows = All (λ r. (not (is_processing r) || contains ids r.id) ≡ true) rows

IsCovered-weaken :
    (i : ℕ) (ids : List ℕ) (rows : List Row) → IsCovered ids rows → IsCovered (i ∷ ids) rows
IsCovered-weaken i ids [] h = tt
IsCovered-weaken i ids (r ∷ rows) h = ground (arith, IsCovered-weaken i ids rows h.1)

claim_rows-IsCovered :
    (now : ℕ) (ids : List ℕ) (rows : List Row)
    → All (λ r. is_processing r ≡ false) rows
    → IsCovered (row_ids (claimed_rows now ids rows)) (claim_rows now ids rows)
unfolding claim_rows claimed_rows
claim_rows-IsCovered now ids [] h = tt
claim_rows-IsCovered now ids (r ∷ rows) h = ground (
  arith,
  claim_rows-IsCovered now ids rows h.1,
  IsCovered-weaken r.id (row_ids (claimed_rows now ids rows)) (claim_rows now ids rows),
)

settled-IsCovered :
    (now max_retries id : ℕ) (outcome : Outcome) (ids : List ℕ) (rows : List Row)
    → IsCovered (id ∷ ids) rows
    → IsCovered ids (settled now max_retries id outcome rows)
unfolding settled mark_done mark_failed
settled-IsCovered now max_retries id none ids [] h = tt
settled-IsCovered now max_retries id (some message) ids [] h = tt
settled-IsCovered now max_retries id none ids (r ∷ rows) h =
    ground (arith, settled-IsCovered now max_retries id none ids rows h.1)
settled-IsCovered now max_retries id (some message) ids (r ∷ rows) h =
    ground (arith, settled-IsCovered now max_retries id (some message) ids rows h.1)

IsCovered-none : (rows : List Row) → IsCovered [] rows → All (λ r. is_processing r ≡ false) rows
IsCovered-none [] h = tt
IsCovered-none (r ∷ rows) h = ground (arith, IsCovered-none rows h.1)

module _ (d : Downstream) (wk : Worker) (fails : ℕ → Bool) (now : ℕ)
    (reliable : (n : ℕ) → fails n ≡ false) where
  process_row-settled :
      (row : Row) (w : World)
      → (process_row d wk fails now row w).rows
        ≡ settled now wk.max_retries row.id (deliver d row w).0 w.rows
  process_row-settled row w =
      process_row-rows d wk fails now row w ∙ rw (reliable (deliver d row w).1.calls) refl

  process_rows-IsCovered :
      (rows : List Row) (w : World)
      → IsCovered (row_ids rows) w.rows
      → IsCovered [] (process_rows d wk fails now rows w).rows
  unfolding process_rows
  process_rows-IsCovered [] w h = h
  process_rows-IsCovered (row ∷ rows) w h =
      process_rows-IsCovered rows (process_row d wk fails now row w) (
        subst (IsCovered (row_ids rows)) (sym (process_row-settled row w))
          (settled-IsCovered now wk.max_retries row.id (deliver d row w).0 (row_ids rows) w.rows h))

  -- If no row is in processing when a batch starts and every database call answers, none is in
  -- processing when it ends.
  pub process_batch-settled :
      (locked : ℕ → Bool) (w : World)
      → All (λ r. is_processing r ≡ false) w.rows
      → All (λ r. is_processing r ≡ false) (process_batch d wk fails now locked w).rows
  unfolding process_batch
  process_batch-settled locked w h =
      let ids = claim_ids locked wk.limit w.rows in
      rw (reliable w.calls) (
        IsCovered-none
          (process_rows d wk fails now (claimed_rows now ids w.rows)
            (record w { rows = claim_rows now ids w.rows; calls = w.calls + 1 })).rows
          (process_rows-IsCovered (claimed_rows now ids w.rows)
            (record w { rows = claim_rows now ids w.rows; calls = w.calls + 1 })
            (claim_rows-IsCovered now ids w.rows h)))
