-- ===== src/Dispatcher/Leases/Kept.antt =====
-- What the lease functions leave alone: leases through deletes and updates, the task and the lease
-- of a run in progress.
use open_tiger.Prelude.{
  ◌==◌, ==→eq, Bool-cases, filterb, any, find_first, All, ℕ, ◌≡◌, refl, sym, subst, inl, inr, Bool,
  true, false, Option, none, some, List, [], ◌∷◌, ◌++◌, arith,
}
use open_tiger.Store.{Task, Lease, Db, update_where, delete_where, requeued, has_active_run}
use open_tiger.Dispatcher.Leases.{task_exists, idle_holder, dangling}
use open_tiger.Dispatcher.Leases.Orphans.{orphaned, one_of}

pub any-kept :
    (p q : Lease → Bool) (ls : List Lease)
    → ((l : Lease) → p l ≡ true → q l ≡ false)
    → any p ls ≡ true
    → any p (delete_where q ls) ≡ true
any-kept p q [] spares h = h
any-kept p q (l ∷ ls) spares h = elim (Bool-cases (p l)) [
  | inl e ↦ rw (spares l e) (rw e refl)
  | inr e ↦
      let rest = any-kept p q ls spares (rw e at h) in
      elim (Bool-cases (q l)) [ inl f ↦ rw f rest | inr f ↦ rw (f, e) rest ]
]

pub any-update_kept :
    (p q : Lease → Bool) (f : Lease → Lease) (ls : List Lease)
    → ((l : Lease) → p l ≡ true → q l ≡ true → p (f l) ≡ true)
    → any p ls ≡ true
    → any p (update_where q f ls) ≡ true
any-update_kept p q f [] keeps h = h
any-update_kept p q f (l ∷ ls) keeps h = elim (Bool-cases (p l)) [
  | inl e ↦ elim (Bool-cases (q l)) [ inl g ↦ rw (g, keeps l e g) refl | inr g ↦ rw (g, e) refl ]
  | inr e ↦ let rest = any-update_kept p q f ls keeps (rw e at h) in rw rest (ground arith)
]

pub any-more : (p : Lease → Bool) (ls ms : List Lease) → any p ls ≡ true → any p (ls ++ ms) ≡ true
any-more p [] ms h = cc h
any-more p (l ∷ ls) ms h = ground (arith, any-more p ls ms)

pub All-delete :
    (P : Lease → Type 0) (q : Lease → Bool) (ls : List Lease) → All P ls → All P (delete_where q ls)
All-delete P q [] h = tt
All-delete P q (l ∷ ls) h =
    let rest = All-delete P q ls h.1 in
    elim (Bool-cases (q l)) [ inl e ↦ rw e rest | inr e ↦ rw e (h.0, rest) ]

pub All-update :
    (P : Lease → Type 0) (q : Lease → Bool) (f : Lease → Lease) (ls : List Lease)
    → ((l : Lease) → P l → P (f l))
    → All P ls
    → All P (update_where q f ls)
All-update P q f [] keeps h = tt
All-update P q f (l ∷ ls) keeps h =
    let rest = All-update P q f ls keeps h.1 in
    elim (Bool-cases (q l)) [ inl e ↦ rw e (keeps l h.0, rest) | inr e ↦ rw e (h.0, rest) ]

pub task_exists-requeued :
    (now task_id : ℕ) (p : Task → Bool) (ts : List Task)
    → task_exists task_id (update_where p (requeued now) ts) ≡ task_exists task_id ts
task_exists-requeued now task_id p [] = refl
task_exists-requeued now task_id p (t ∷ ts) =
    let rest = task_exists-requeued now task_id p ts in
    elim (Bool-cases (p t)) [ inl e ↦ rw (e, rest) refl | inr e ↦ rw (e, rest) refl ]

pub idle_holder-rest :
    (now : ℕ) (o : Option Lease) (db : Db)
    → ((idle_holder now o db).leases ≡ db.leases)
      × ((idle_holder now o db).tasks ≡ db.tasks)
      × ((idle_holder now o db).runs ≡ db.runs)
unfolding idle_holder
idle_holder-rest now none db = (refl, refl, refl)
idle_holder-rest now (some l) db = ground arith

exists-found :
    (task_id : ℕ) (ts : List Task)
    → task_exists task_id ts ≡ true
    → (t : Task) × (find_first (λ x. x.id == task_id) ts ≡ some t)
exists-found task_id [] h = cc h
exists-found task_id (t ∷ ts) h = elim (Bool-cases (t.id == task_id)) [
  | inl e ↦ (t, rw e refl)
  | inr e ↦ let (u, found) = exists-found task_id ts (rw e at h) in (u, rw e found)
]

pub not_dangling :
    (db : Db) (l : Lease)
    → has_active_run db l.task_id ≡ true
    → task_exists l.task_id db.tasks ≡ true
    → dangling db l ≡ false
unfolding dangling
not_dangling db l works known =
    let (t, found) = exists-found l.task_id db.tasks known in rw (works, found) (ground arith)

pub not_orphaned :
    (now grace_ms task_id : ℕ) (db : Db) (ts : List Task)
    → has_active_run db task_id ≡ true
    → one_of (filterb (orphaned now grace_ms db) ts) task_id ≡ false
not_orphaned now grace_ms task_id db [] works = refl
not_orphaned now grace_ms task_id db (t ∷ ts) works =
    let rest = not_orphaned now grace_ms task_id db ts works in
    elim (Bool-cases (t.id == task_id)) [
      | inl e ↦
          let busy : has_active_run db t.id ≡ true =
            subst (λ i. has_active_run db i ≡ true) (sym (==→eq t.id task_id e)) works in
          let off : orphaned now grace_ms db t ≡ false = rw busy (ground arith) in rw off rest
      | inr e ↦ elim (Bool-cases (orphaned now grace_ms db t)) [
        | inl o ↦ rw (o, e) rest
        | inr o ↦ rw o rest
      ]
    ]
