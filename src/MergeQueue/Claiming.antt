-- ===== src/MergeQueue/Claiming.antt =====
-- Enqueuing and claiming keep the invariant.
use open_tiger.Prelude.{
  if◌then◌else◌, Bool-cases, Option-cases, &&_parts, some_injective, filterb, find_first, All, ℕ,
  ◌<◌, String, ◌≡◌, refl, subst, inl, inr, Bool, true, Option, none, some, List, [], ◌∷◌, arith,
}
use open_tiger.MergeQueue.Rows.{pending, Row, MergeDb, is_active, MergeConfig, resolve_max_attempts}
use open_tiger.MergeQueue.Enqueue.{
  EnqueueParams, unique_violation, new_row, existing_row, insert_row, enqueue_merge_queue_item,
}
use open_tiger.MergeQueue.Claims.{
  due, first_row, claimed_by, claimed_row, claimable, claim_by_id, claim_round, claim_rounds,
}
use open_tiger.MergeQueue.Invariant.{RowOk, IsConsistent, OneActive-snoc, UniqueKeys-snoc, All-snoc}
use open_tiger.MergeQueue.Steps.{
  resolve_max_attempts-pos, update-IsConsistent, is_pending→eq, attempts_left, some-ne-none,
}

abbrev pub Keeps : MergeConfig → (MergeDb → MergeDb) → Type 0
Keeps c f = (db : MergeDb) → IsConsistent c db → IsConsistent c (f db)

insert-IsConsistent :
    (c : MergeConfig) (now fresh : ℕ) (p : EnqueueParams) (db : MergeDb)
    → IsConsistent c db
    → IsConsistent c (insert_row (new_row c now fresh p) p db).0
unfolding insert_row
insert-IsConsistent c now fresh p db h =
    elim (Bool-cases (unique_violation (new_row c now fresh p) db.rows)) [
      | inl e ↦ rw e h
      | inr e ↦ rw e (record {
        rows_ok =
            All-snoc (resolve_max_attempts c) db.rows (new_row c now fresh p) h.rows_ok (record {
              claim_ok = (refl, refl, refl);
              attempts_ok = resolve_max_attempts-pos c;
              same_max = refl;
            });
        one_active = OneActive-snoc db.rows (new_row c now fresh p) h.one_active (ground arith);
        unique_keys = UniqueKeys-snoc db.rows (new_row c now fresh p) h.unique_keys (ground arith);
      })
    ]

pub enqueue-IsConsistent :
    (c : MergeConfig) (now fresh : ℕ) (between : MergeDb → MergeDb) (p : EnqueueParams)
    → Keeps c between
    → Keeps c (λ db. (enqueue_merge_queue_item c now fresh between p db).0)
unfolding enqueue_merge_queue_item
enqueue-IsConsistent c now fresh between p keeps db h =
    elim (Option-cases (existing_row p db.rows)) [
      | inl e ↦
          rw (enqueue_merge_queue_item, e)
            (insert-IsConsistent c now fresh p (between db) (keeps db h))
      | inr (found, e) ↦ rw (enqueue_merge_queue_item, e) h
    ]

pub find_first-Ok :
    (n : ℕ) (q : Row → Bool) (rs : List Row) (r : Row)
    → All (RowOk n) rs
    → find_first q rs ≡ some r
    → RowOk n r × (q r ≡ true)
find_first-Ok n q [] r h e = cc e
find_first-Ok n q (x ∷ rs) r h e = elim (Bool-cases (q x)) [
  | inl t ↦
      let same =
        some_injective (subst (λ b. (if b then some x else find_first q rs) ≡ some r) t e) in
      (subst (λ y. RowOk n y) same h.0, subst (λ y. q y ≡ true) same t)
  | inr t ↦
      find_first-Ok n q rs r h.1 (subst (λ b. (if b then some x else find_first q rs) ≡ some r) t e)
]

-- What a worker knows of the row that it has claimed.
abbrev pub Attemptable : MergeConfig → Row → Type 0
Attemptable c r =
    (r.attempt_count < resolve_max_attempts c) × (r.max_attempts ≡ resolve_max_attempts c)

claimed-RowOk :
    (c : MergeConfig) (now token : ℕ) (agent_id : String) (id : ℕ) (r : Row)
    → claimable now id r ≡ true
    → RowOk (resolve_max_attempts c) r
    → RowOk (resolve_max_attempts c) (claimed_by c now token agent_id r)
claimed-RowOk c now token agent_id id r e h =
    let waits = is_pending→eq r.status (&&_parts _ _ (&&_parts _ _ e).1).0 in
    record {
      claim_ok = (some-ne-none _, some-ne-none _, some-ne-none _);
      attempts_ok = attempts_left (resolve_max_attempts c) r pending waits h;
      same_max = h.same_max;
    }

pending-active : (r : Row) → r.status ≡ pending → is_active r.status ≡ true
pending-active r e = rw e refl

module _ (c : MergeConfig) (now token : ℕ) (agent_id : String) where
  claim_by_id-IsConsistent : (id : ℕ) → Keeps c (λ db. (claim_by_id c now agent_id token id db).0)
  unfolding claim_by_id
  claim_by_id-IsConsistent id db h =
      update-IsConsistent c (claimable now id) (claimed_by c now token agent_id)
        (record {
          same_id = λ r. refl;
          same_pr = λ r. refl;
          was_active =
              λ r t. pending-active r (is_pending→eq r.status (&&_parts _ _ (&&_parts _ _ t).1).0);
        })
        (λ r t ok. claimed-RowOk c now token agent_id id r t ok) db h

  claim_by_id-Attemptable :
      (id : ℕ) (db : MergeDb) (r : Row)
      → IsConsistent c db
      → (claim_by_id c now agent_id token id db).1 ≡ some r
      → Attemptable c r
  unfolding claim_by_id
  claim_by_id-Attemptable id db r h e =
      elim (Option-cases (find_first (claimable now id) db.rows)) [
        | inl f ↦ cc (subst (λ o. claimed_row c now token agent_id o ≡ some r) f e)
        | inr (x, f) ↦
            let (ok, t) =
              find_first-Ok (resolve_max_attempts c) (claimable now id) db.rows x h.rows_ok f in
            let mine = claimed-RowOk c now token agent_id id x t ok in
            let same =
              some_injective (subst (λ o. claimed_row c now token agent_id o ≡ some r) f e) in
            subst (λ y. Attemptable c y) same (mine.attempts_ok, mine.same_max)
      ]

  claim_round-none :
      (between : MergeDb → MergeDb) (db : MergeDb)
      → first_row (filterb (due now) db.rows) ≡ none
      → claim_round c now agent_id token between db ≡ (db, none)
  unfolding claim_round
  claim_round-none between db e = rw (claim_round, e) refl

  claim_round-some :
      (between : MergeDb → MergeDb) (db : MergeDb) (x : Row)
      → first_row (filterb (due now) db.rows) ≡ some x
      → claim_round c now agent_id token between db ≡ (
        (claim_by_id c now agent_id token x.id (between db)).0,
        some (claim_by_id c now agent_id token x.id (between db)).1,
      )
  unfolding claim_round
  claim_round-some between db x e = rw (claim_round, e) refl

-- A claim's outcome: the invariant holds, and a row that it answers can be attempted.
abbrev pub ClaimKept : MergeConfig → MergeDb × Option Row → Type 0
ClaimKept c r = IsConsistent c r.0 × ((x : Row) → r.1 ≡ some x → Attemptable c x)

abbrev pub OthersKeep : MergeConfig → List (ℕ × (MergeDb → MergeDb)) → Type 0
OthersKeep c others = All (λ o. Keeps c o.1) others

pub claim_rounds-kept :
    (c : MergeConfig) (now : ℕ) (agent_id : String) (others : List (ℕ × (MergeDb → MergeDb)))
    → OthersKeep c others
    → (db : MergeDb) → IsConsistent c db
    → ClaimKept c (claim_rounds c now agent_id others db)
unfolding claim_rounds
claim_rounds-kept c now agent_id [] keep db h = (h, λ x e. cc e)
claim_rounds-kept c now agent_id ((token, between) ∷ others) keep db h =
    let later = claim_rounds-kept c now agent_id others keep.1 in
    elim (Option-cases (first_row (filterb (due now) db.rows))) [
      | inl e ↦
          let q = claim_round-none c now token agent_id between db e in
          rw (claim_rounds, q) (rw q (h, λ x e. cc e))
      | inr (x, e) ↦
          let q = claim_round-some c now token agent_id between db x e in
          let next =
            claim_by_id-IsConsistent c now token agent_id x.id (between db) (keep.0 db h) in
          elim (Option-cases ((claim_by_id c now agent_id token x.id (between db)).1)) [
            | inl f ↦ rw (claim_rounds, q, f) (rw q (later _ next))
            | inr (r, f) ↦
                rw (claim_rounds, q, f)
                  (rw q (
                    next,
                    λ y g.
                        subst (λ z. Attemptable c z) (some_injective g)
                          (claim_by_id-Attemptable c now token agent_id x.id (between db) r
                            (keep.0 db h) f),
                  ))
          ]
    ]
