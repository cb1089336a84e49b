-- ===== src/Dispatcher/Leases/Recovery.antt =====
-- cleanupDanglingLeases against what it is for.
use open_tiger.Store.Updates.{delete-delete, delete-congr, delete_none}
use open_tiger.Prelude.{
  ◌==◌, Bool-cases, length, filterb, any, Within, here, there, has_id, DistinctIds, ℕ, ◌+◌, ◌≡◌,
  refl, sym, ap, ◌∙◌, inl, inr, Bool, false, ◌||◌, List, [], ◌∷◌, arith,
}
use open_tiger.Store.{Lease, Db, delete_where}
use open_tiger.Dispatcher.Leases.{reclaim, dangling, reclaim_dangling, cleanup_dangling_leases}

abbrev pub lease_ids : List Lease → List ℕ
lease_ids [] = []
lease_ids (l ∷ ls) = l.id ∷ lease_ids ls

abbrev pub named_in : List Lease → Lease → Bool
named_in ls l = any (λ m. m.id == l.id) ls

-- A lease is judged by the tasks and the runs alone.
dangling-reclaim : (now : ℕ) (m : Lease) (db : Db) → dangling (reclaim now m db) ≡ dangling db
unfolding dangling
dangling-reclaim now m db = refl

pub reclaimed_one :
    (m l : Lease) (ls : List Lease) → ((l.id == m.id) || named_in ls l) ≡ named_in (m ∷ ls) l
reclaimed_one m l ls = ground arith

reclaim_dangling-leases :
    (now : ℕ) (ls : List Lease) (db : Db) (n : ℕ)
    → ((reclaim_dangling now ls db n).0).leases
      ≡ delete_where (named_in (filterb (dangling db) ls)) db.leases
unfolding reclaim_dangling
reclaim_dangling-leases now [] db n = sym (delete_none (named_in []) db.leases (λ l. refl))
reclaim_dangling-leases now (m ∷ ls) db n = elim (Bool-cases (dangling db m)) [
  | inl e ↦
      rw (e, reclaim_dangling)
        (reclaim_dangling-leases now ls (reclaim now m db) (n + 1)
          ∙ rw (dangling-reclaim now m db) (
              delete-delete (λ l. l.id == m.id) (named_in (filterb (dangling db) ls))
                (named_in (m ∷ filterb (dangling db) ls)) (λ l. reclaimed_one m l _) db.leases))
  | inr e ↦ rw (e, reclaim_dangling) (reclaim_dangling-leases now ls db n)
]

reclaim_dangling-rest :
    (now : ℕ) (ls : List Lease) (db : Db) (n : ℕ)
    → (((reclaim_dangling now ls db n).0).tasks ≡ db.tasks)
      × (((reclaim_dangling now ls db n).0).runs ≡ db.runs)
      × ((reclaim_dangling now ls db n).1 ≡ n + length (filterb (dangling db) ls))
unfolding reclaim_dangling
reclaim_dangling-rest now [] db n = (refl, refl, omega arith)
reclaim_dangling-rest now (m ∷ ls) db n =
    let skip = reclaim_dangling-rest now ls db n in
    let took = reclaim_dangling-rest now ls (reclaim now m db) (n + 1) in
    elim (Bool-cases (dangling db m)) [
      | inl e ↦
          rw (e, reclaim_dangling)
            (
              took.0,
              took.1,
              omega (arith, took.2, ap (λ d. length (filterb d ls)) (dangling-reclaim now m db)),
            )
      | inr e ↦ rw (e, reclaim_dangling) skip
    ]

-- The tables after the clean-up, whatever the ids of the leases.
pub cleanup_dangling_leases-tables :
    (now : ℕ) (db : Db)
    → ((cleanup_dangling_leases now db).0.leases
        ≡ delete_where (named_in (filterb (dangling db) db.leases)) db.leases)
      × ((cleanup_dangling_leases now db).0.tasks ≡ db.tasks)
      × ((cleanup_dangling_leases now db).0.runs ≡ db.runs)
unfolding cleanup_dangling_leases
cleanup_dangling_leases-tables now db =
    let rest = reclaim_dangling-rest now db.leases db 0 in
    (reclaim_dangling-leases now db.leases db 0, rest.0, rest.1)

-- With distinct ids, a lease is named by the reclaimed ones exactly if it is reclaimed.
not_named :
    (p : Lease → Bool) (l : Lease) (ls : List Lease)
    → has_id (lease_ids ls) l.id ≡ false
    → named_in (filterb p ls) l ≡ false
not_named p l [] h = refl
not_named p l (m ∷ ls) h = ground (arith, not_named p l ls)

other_id :
    (x : ℕ) (l : Lease) (ls : List Lease)
    → has_id (lease_ids ls) x ≡ false
    → Within l ls
    → (x == l.id) ≡ false
other_id x l [] h w = elim w [ ]
other_id x l (m ∷ ls) h here = ground arith
other_id x l (m ∷ ls) h (there w) = ground (arith, other_id x l ls (ground arith) w)

pub named_iff :
    (p : Lease → Bool) (l : Lease) (ls : List Lease)
    → DistinctIds (lease_ids ls)
    → Within l ls
    → named_in (filterb p ls) l ≡ p l
named_iff p l [] d w = elim w [ ]
named_iff p l (m ∷ ls) d here = ground (arith, not_named p l ls d.0)
named_iff p l (m ∷ ls) d (there w) =
    ground (arith, other_id m.id l ls d.0 w, named_iff p l ls d.1 w)

-- What the clean-up of dangling leases leaves, and its answer.
pub record ReclaimsDangling (db : Db) (r : Db × ℕ) : Type 0 where
  pub leases : (r.0).leases ≡ delete_where (dangling db) db.leases
  pub tasks : (r.0).tasks ≡ db.tasks
  pub runs : (r.0).runs ≡ db.runs
  pub counted : r.1 ≡ length (filterb (dangling db) db.leases)

-- Exactly the dangling leases, whose task is gone or is queued without a run in progress, are
-- deleted; tasks and runs do not change; and the answer is how many there were. Lease ids are
-- the table's key.
pub cleanup_dangling_leases-ReclaimsDangling :
    (now : ℕ) (db : Db)
    → DistinctIds (lease_ids db.leases)
    → ReclaimsDangling db (cleanup_dangling_leases now db)
unfolding cleanup_dangling_leases
cleanup_dangling_leases-ReclaimsDangling now db d =
    let rest = reclaim_dangling-rest now db.leases db 0 in
    record {
      leases =
          reclaim_dangling-leases now db.leases db 0
          ∙ delete-congr (named_in (filterb (dangling db) db.leases)) (dangling db) db.leases
              (λ l w. named_iff (dangling db) l db.leases d w);
      tasks = rest.0;
      runs = rest.1;
      counted = omega (arith, rest.2);
    }
