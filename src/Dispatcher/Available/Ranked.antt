-- ===== src/Dispatcher/Available/Ranked.antt =====
-- The order of getAvailableTasks (apps/dispatcher/src/scheduler/priority.ts).
use open_tiger.Prelude.{
  leb→le, Bool-cases, if_both, filterb, count_if, All, has_id, All-imp, ℤ, ◌≤ℤ◌, leb_ℤ, ℕ, ◌≡◌,
  refl, ◌∙◌, inl, inr, Bool, false, not, ◌&&◌, List, [], ◌∷◌, map, arith,
}
use open_tiger.Store.{Task, Db}
use open_tiger.Dispatcher.Lanes.{AvailableTask}
use open_tiger.Dispatcher.Available.{
  PriorityEnv, has_judge_backlog, is_queued, misqueued_ids, return_misqueued, passes,
  calculate_priority_score, insert_ranked, rank_tasks, to_available, dispatchable_queued,
  get_available_tasks,
}

-- No task stands before one with a higher score.
abbrev pub IsRanked : (Task → ℤ) → List Task → Type 0
IsRanked score [] = Unit {0}
IsRanked score (t ∷ ts) = All (λ x. score x ≤ℤ score t) ts × IsRanked score ts

insert_ranked-All {κ} :
    (P : Task → Type κ) (score : Task → ℤ) (t : Task) (xs : List Task)
    → P t
    → All P xs
    → All P (insert_ranked score t xs)
insert_ranked-All P score t [] p h = (p, tt)
insert_ranked-All P score t (x ∷ xs) p h =
    if_both (All P) (leb_ℤ (score x) (score t)) (t ∷ x ∷ xs) _ (λ e. (p, h))
      (λ e. (h.0, insert_ranked-All P score t xs p h.1))

insert_ranked-IsRanked :
    (score : Task → ℤ) (t : Task) (xs : List Task)
    → IsRanked score xs
    → IsRanked score (insert_ranked score t xs)
insert_ranked-IsRanked score t [] h = (tt, tt)
insert_ranked-IsRanked score t (x ∷ xs) h =
    if_both (IsRanked score) (leb_ℤ (score x) (score t)) (t ∷ x ∷ xs) _
      (λ e.
        let le : score x ≤ℤ score t = leb→le _ _ e in
        ((le, All-imp (λ y k. omega (arith, k, le)) xs h.0), h))
      (λ e.
        let le : score t ≤ℤ score x = ground arith in
        (
          insert_ranked-All (λ y. score y ≤ℤ score x) score t xs le h.0,
          insert_ranked-IsRanked score t xs h.1,
        ))

insert_ranked-count :
    (p : Task → Bool) (score : Task → ℤ) (t : Task) (xs : List Task)
    → count_if p (insert_ranked score t xs) ≡ count_if p (t ∷ xs)
insert_ranked-count p score t [] = refl
insert_ranked-count p score t (x ∷ xs) = elim (Bool-cases (leb_ℤ (score x) (score t))) [
  | inl e ↦ rw e
  | inr e ↦ rw e (omega (arith, insert_ranked-count p score t xs))
]

rank_tasks-IsRanked : (score : Task → ℤ) (ts : List Task) → IsRanked score (rank_tasks score ts)
unfolding rank_tasks
rank_tasks-IsRanked score [] = tt
rank_tasks-IsRanked score (t ∷ ts) =
    insert_ranked-IsRanked score t (rank_tasks score ts) (rank_tasks-IsRanked score ts)

rank_tasks-count :
    (p : Task → Bool) (score : Task → ℤ) (ts : List Task)
    → count_if p (rank_tasks score ts) ≡ count_if p ts
unfolding rank_tasks
rank_tasks-count p score [] = refl
rank_tasks-count p score (t ∷ ts) =
    insert_ranked-count p score t (rank_tasks score ts) ∙ omega (arith, rank_tasks-count p score ts)

pub rank_tasks-All {κ} :
    (P : Task → Type κ) (score : Task → ℤ) (ts : List Task) → All P ts → All P (rank_tasks score ts)
unfolding rank_tasks
rank_tasks-All P score [] h = tt
rank_tasks-All P score (t ∷ ts) h =
    insert_ranked-All P score t (rank_tasks score ts) h.0 (rank_tasks-All P score ts h.1)

count_if-filterb {ℓ} :
    {A : Type ℓ} (p q : A → Bool) (xs : List A)
    → count_if q (filterb p xs) ≡ count_if (λ x. p x && q x) xs
count_if-filterb p q [] = refl
count_if-filterb p q (x ∷ xs) = elim (Bool-cases (p x)) [
  | inl e ↦ rw e (omega (arith, count_if-filterb p q xs))
  | inr e ↦ rw e (omega (arith, count_if-filterb p q xs))
]

-- What is selected: the tasks `ts`, in order of their score, each as often as it stands in the
-- table among those that are queued, are not for the judge only, and pass the filter.
pub record SelectsRanked (io : PriorityEnv) (now : ℕ) (db : Db) (r : Db × List AvailableTask)
    : Type 0 where
  pub ts : List Task
  pub shown : r.1 ≡ map (to_available io) ts
  pub ranked : IsRanked (calculate_priority_score now) ts
  pub complete :
      (p : Task → Bool)
      → count_if p ts
        ≡ count_if
            (λ t.
              is_queued t
              && (not (has_id (misqueued_ids db.tasks) t.id)
                  && (passes io now (return_misqueued now db) t && p t)))
            db.tasks

-- Unless the judge's backlog blocks it, the selection is exactly the queued tasks that are not for
-- the judge only and pass the filter, none of them before one with a higher score.
pub get_available_tasks-SelectsRanked :
    (io : PriorityEnv) (now : ℕ) (db : Db)
    → (io.block_on_awaiting_judge && has_judge_backlog io db) ≡ false
    → SelectsRanked io now db (get_available_tasks io now db)
unfolding get_available_tasks
get_available_tasks-SelectsRanked io now db gate =
    let score = calculate_priority_score now in
    let ok = passes io now (return_misqueued now db) in
    let fresh : Task → Bool = λ t. not (has_id (misqueued_ids db.tasks) t.id) in
    let queue = filterb ok (dispatchable_queued db.tasks) in
    rw (gate, get_available_tasks)
      (record {
        ts = rank_tasks score queue;
        shown = refl;
        ranked = rank_tasks-IsRanked score queue;
        complete = λ p.
            rank_tasks-count p score queue
            ∙ count_if-filterb ok p (dispatchable_queued db.tasks)
            ∙ count_if-filterb fresh (λ t. ok t && p t) (filterb is_queued db.tasks)
            ∙ count_if-filterb is_queued (λ t. fresh t && (ok t && p t)) db.tasks;
      })
