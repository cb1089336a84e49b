-- ===== src/MergeQueue/Once.antt =====
-- Enqueuing again.
use open_tiger.Prelude.{
  Bool-cases, Option-cases, any, find_first, ℕ, ◌≡◌, refl, sym, subst, inl, inr, Bool, true, false,
  none, some, List, [], ◌∷◌, ◌++◌, arith,
}
use open_tiger.MergeQueue.Rows.{pending, Row, enqueued, MergeDb, record_event, MergeConfig}
use open_tiger.MergeQueue.Enqueue.{
  EnqueueParams, EnqueueResult, queued_as, existing_active_queue, active_for,
  get_active_queue_by_pr_number, get_queue_by_source_pair, unique_violation, new_row, existing_row,
  or_insert_failed, insert_row, enqueue_merge_queue_item,
}

abbrev is_queued : EnqueueResult → Bool
is_queued (queued_as id) = true
is_queued _ = false

existing_row-is_queued :
    (p : EnqueueParams) (rows : List Row)
    → is_queued (or_insert_failed (existing_row p rows)) ≡ false
unfolding existing_row
existing_row-is_queued p rows =
    elim (Option-cases (get_active_queue_by_pr_number p.pr_number rows)) [
      | inl e ↦ elim (Option-cases (get_queue_by_source_pair p.task_id p.run_id rows)) [
        | inl f ↦ rw (existing_row, e, f) refl
        | inr (x, f) ↦ rw (existing_row, e, f) refl
      ]
      | inr (x, e) ↦ rw (existing_row, e) refl
    ]

find_first-snoc :
    (q : Row → Bool) (rs : List Row) (r : Row)
    → any q rs ≡ false
    → q r ≡ true
    → find_first q (rs ++ r ∷ []) ≡ some r
find_first-snoc q [] r h e = rw e refl
find_first-snoc q (x ∷ rs) r h e =
    let off : q x ≡ false = ground arith in rw (off, find_first-snoc q rs r (ground arith) e) refl

enqueue-existing :
    (c : MergeConfig) (now fresh : ℕ) (between : MergeDb → MergeDb) (p : EnqueueParams)
    (db : MergeDb) (found : EnqueueResult)
    → existing_row p db.rows ≡ some found
    → enqueue_merge_queue_item c now fresh between p db ≡ (db, found)
unfolding enqueue_merge_queue_item
enqueue-existing c now fresh between p db found e = rw (enqueue_merge_queue_item, e) refl

enqueue-missing :
    (c : MergeConfig) (now fresh : ℕ) (between : MergeDb → MergeDb) (p : EnqueueParams)
    (db : MergeDb)
    → existing_row p db.rows ≡ none
    → enqueue_merge_queue_item c now fresh between p db
      ≡ insert_row (new_row c now fresh p) p (between db)
unfolding enqueue_merge_queue_item
enqueue-missing c now fresh between p db e = rw (enqueue_merge_queue_item, e) refl

active-existing :
    (p : EnqueueParams) (rows : List Row) (r : Row)
    → find_first (active_for p.pr_number) rows ≡ some r
    → existing_row p rows ≡ some (existing_active_queue r.id r.status)
unfolding existing_row get_active_queue_by_pr_number
active-existing p rows r e = rw (existing_row, get_active_queue_by_pr_number, e) refl

module _ (r : Row) (p : EnqueueParams) (db : MergeDb) where
  insert-violated :
      unique_violation r db.rows ≡ true
      → insert_row r p db ≡ (db, or_insert_failed (existing_row p db.rows))
  unfolding insert_row
  insert-violated e = rw e refl

  insert-new :
      unique_violation r db.rows ≡ false
      → insert_row r p db
        ≡ (record_event enqueued r (record db { rows = db.rows ++ r ∷ [] }), queued_as r.id)
  unfolding insert_row
  insert-new e = rw e refl

queued_as_injective : {a b : ℕ} → queued_as a ≡ queued_as b → a ≡ b
queued_as_injective e = cc

inserted-twice :
    (c : MergeConfig) (now fresh id : ℕ) (p q : EnqueueParams) (db : MergeDb)
    → q.pr_number ≡ p.pr_number
    → (insert_row (new_row c now fresh p) p db).1 ≡ queued_as id
    → existing_row q (insert_row (new_row c now fresh p) p db).0.rows
      ≡ some (existing_active_queue id pending)
inserted-twice c now fresh id p q db same h =
    elim (Bool-cases (unique_violation (new_row c now fresh p) db.rows)) [
      | inl e ↦
          let refused =
            subst (λ x. x.1 ≡ queued_as id) (insert-violated (new_row c now fresh p) p db e) h in
          let no = subst (λ x. is_queued x ≡ false) refused (existing_row-is_queued p db.rows) in
          cc no
      | inr e ↦
          let new = insert-new (new_row c now fresh p) p db e in
          let same_id : fresh ≡ id = queued_as_injective (subst (λ x. x.1 ≡ queued_as id) new h) in
          let free : any (active_for p.pr_number) db.rows ≡ false = ground arith in
          let found : find_first (active_for q.pr_number) (db.rows ++ new_row c now fresh p ∷ [])
              ≡ some (new_row c now fresh p) =
            find_first-snoc (active_for q.pr_number) db.rows (new_row c now fresh p)
              (subst (λ n. any (active_for n) db.rows ≡ false) (sym same) free)
              (rw same (ground arith)) in
          rw (new, ← same_id) (active-existing q _ _ found)
    ]

-- Once a pull request has been queued, queuing it again writes nothing and answers the row that
-- the first call made: whatever the second call's task, run, id or time, and whatever others do
-- between the look-ups and the insert of either call, as long as none writes between the calls.
pub enqueue-twice :
    (c c' : MergeConfig) (now now' fresh fresh' id : ℕ) (between between' : MergeDb → MergeDb)
    (p q : EnqueueParams) (db : MergeDb)
    → q.pr_number ≡ p.pr_number
    → (enqueue_merge_queue_item c now fresh between p db).1 ≡ queued_as id
    → enqueue_merge_queue_item c' now' fresh' between' q
        (enqueue_merge_queue_item c now fresh between p db).0
      ≡ ((enqueue_merge_queue_item c now fresh between p db).0, existing_active_queue id pending)
enqueue-twice c c' now now' fresh fresh' id between between' p q db same h =
    elim (Option-cases (existing_row p db.rows)) [
      | inl e ↦
          let made = enqueue-missing c now fresh between p db e in
          let h' = subst (λ x. x.1 ≡ queued_as id) made h in
          rw made (
            enqueue-existing c' now' fresh' between' q _ _
              (inserted-twice c now fresh id p q (between db) same h'))
      | inr (found, e) ↦
          let answered =
            subst (λ x. x.1 ≡ queued_as id) (enqueue-existing c now fresh between p db found e) h in
          let no = existing_row-is_queued p db.rows in
          let no' = subst (λ o. is_queued (or_insert_failed o) ≡ false) e no in
          let no'' = subst (λ x. is_queued x ≡ false) answered no' in cc no''
    ]
