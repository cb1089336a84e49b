-- ===== src/MergeQueue/Laws.antt =====
-- What one call of the merge queue does.
use open_tiger.MergeQueue.Recover.{update_absent, key-apart}
use open_tiger.Store.{update_where}
use open_tiger.MergeQueue.Enqueue.{has_key}
use open_tiger.MergeQueue.Invariant.{UniqueKeys}
use open_tiger.Prelude.{
  ◌==◌, if◌then◌else◌, ==_refl, Bool-cases, Option-cases, filterb, any, find_first, Within, here,
  there, All, ℕ, String, ◌≡◌, refl, sym, subst, ◌⊎◌, inl, inr, Bool, true, false, ◌&&◌, Option,
  none, some, List, [], ◌∷◌, arith,
}
use open_tiger.MergeQueue.Rows.{Row, MergeDb, MergeConfig}
use open_tiger.MergeQueue.Claims.{
  due, before, first_of_two, first_row, claimed_by, claim_by_id, claim_round,
}

before_trans : (a b d : Row) → before a b ≡ true → before b d ≡ true → before a d ≡ true
unfolding before
before_trans a b d h k = ground arith

before-total : (a b : Row) → before a b ≡ false → before b a ≡ true
unfolding before
before-total a b h = ground arith

before_refl : (a : Row) → before a a ≡ true
unfolding before
before_refl a = ground arith

-- The first row of the select comes before every other, and is one of them.
abbrev pub IsFirst : List Row → Option Row → Type 0
IsFirst rs none = rs ≡ []
IsFirst rs (some b) = Within b rs × All (λ r. before b r ≡ true) rs

All-before :
    (a b : Row) (rs : List Row)
    → before a b ≡ true
    → All (λ r. before b r ≡ true) rs
    → All (λ r. before a r ≡ true) rs
All-before a b [] h k = tt
All-before a b (r ∷ rs) h k = (before_trans a b r h k.0, All-before a b rs h k.1)

two-IsFirst :
    (r : Row) (rs : List Row) (o : Option Row) → IsFirst rs o → IsFirst (r ∷ rs) (first_of_two r o)
two-IsFirst r rs none h =
    (here, (before_refl r, subst (λ x. All (λ y. before r y ≡ true) x) (sym h) tt))
two-IsFirst r rs (some b) h = elim (Bool-cases (before r b)) [
  | inl e ↦ rw e (here, (before_refl r, All-before r b rs e h.1))
  | inr e ↦ rw e (there h.0, (before-total r b e, h.1))
]

pub first_row-IsFirst : (rs : List Row) → IsFirst rs (first_row rs)
unfolding first_row
first_row-IsFirst [] = refl
first_row-IsFirst (r ∷ rs) = two-IsFirst r rs (first_row rs) (first_row-IsFirst rs)

Within-cases : (b r : Row) (rs : List Row) → Within b (r ∷ rs) → (r ≡ b) ⊎ Within b rs
Within-cases b r rs here = inl refl
Within-cases b r rs (there w) = inr w

Within-filterb :
    (q : Row → Bool) (b : Row) (rs : List Row)
    → Within b (filterb q rs)
    → Within b rs × (q b ≡ true)
Within-filterb q b [] w = elim w [ ]
Within-filterb q b (r ∷ rs) w =
    let later = Within-filterb q b rs in
    elim (Bool-cases (q r)) [
      | inl e ↦
          elim (Within-cases b r (filterb q rs)
            (subst (λ x. Within b (if x then r ∷ filterb q rs else filterb q rs)) e w)) [
              | inl same ↦
                  (subst (λ x. Within x (r ∷ rs)) same here, subst (λ x. q x ≡ true) same e)
              | inr v ↦ let (u, k) = later v in (there u, k)
            ]
      | inr e ↦
          let (u, k) =
            later (subst (λ x. Within b (if x then r ∷ filterb q rs else filterb q rs)) e w) in
          (there u, k)
    ]

none-and :
    (q : Row → Bool) (id : ℕ) (rs : List Row)
    → any (has_key id) rs ≡ false
    → any (λ r. has_key id r && q r) rs ≡ false
none-and q id [] h = refl
none-and q id (r ∷ rs) h = ground (arith, none-and q id rs)

-- The row with a key is found by it.
find_first-key :
    (q : Row → Bool) (b : Row) (rs : List Row)
    → UniqueKeys rs
    → Within b rs
    → q b ≡ true
    → find_first (λ r. has_key b.id r && q r) rs ≡ some b
find_first-key q b [] u w k = elim w [ ]
find_first-key q b (r ∷ rs) u here k = rw (==_refl r.id, k) refl
find_first-key q b (r ∷ rs) u (there w) k =
    let apart : (r.id == b.id) ≡ false = key-apart b r rs u.0 w in
    rw (apart, find_first-key q b rs u.1 w k) refl

update-key :
    (q : Row → Bool) (f : Row → Row) (b : Row) (rs : List Row)
    → UniqueKeys rs
    → Within b rs
    → q b ≡ true
    → update_where (λ r. has_key b.id r && q r) f rs ≡ update_where (has_key b.id) f rs
update-key q f b [] u w k = elim w [ ]
update-key q f b (r ∷ rs) u here k =
    rw
      (
        ==_refl r.id,
        k,
        update_absent (λ x. has_key r.id x && q x) f rs (none-and q r.id rs u.0),
        update_absent (has_key r.id) f rs u.0,
      )
      refl
update-key q f b (r ∷ rs) u (there w) k =
    let apart : (r.id == b.id) ≡ false = key-apart b r rs u.0 w in
    rw (apart, update-key q f b rs u.1 w k) refl

-- What an undisturbed round answers and writes: no row and no write when none is due, and else
-- the first of the due rows, claimed, and written in its place.
abbrev pub ClaimsFirstDue :
    MergeConfig → ℕ → String → ℕ → MergeDb → MergeDb × Option (Option Row) → Type 0
ClaimsFirstDue c now agent_id token db (db', none) = (db' ≡ db) × (filterb (due now) db.rows ≡ [])
ClaimsFirstDue c now agent_id token db (db', some none) = ⊥
ClaimsFirstDue c now agent_id token db (db', some (some x)) =
    (b : Row) × Within b db.rows
    × (due now b ≡ true)
    × All (λ r. before b r ≡ true) (filterb (due now) db.rows)
    × (x ≡ claimed_by c now token agent_id b)
    × (db'.rows ≡ update_where (has_key b.id) (claimed_by c now token agent_id) db.rows)

-- With no other writer between the select and the update, and ids unique, a claim round takes the
-- first due row: of the highest priority, then the earliest next attempt, then the earliest
-- creation; it answers none, and writes nothing, only if no row is due.
pub claim_round-ClaimsFirstDue :
    (c : MergeConfig) (now : ℕ) (agent_id : String) (token : ℕ) (db : MergeDb)
    → UniqueKeys db.rows
    → ClaimsFirstDue c now agent_id token db (claim_round c now agent_id token (λ x. x) db)
unfolding claim_round claim_by_id
claim_round-ClaimsFirstDue c now agent_id token db u =
    let first = first_row-IsFirst (filterb (due now) db.rows) in
    elim (Option-cases (first_row (filterb (due now) db.rows))) [
      | inl e ↦
          rw (claim_round, e) (refl, subst (λ o. IsFirst (filterb (due now) db.rows) o) e first)
      | inr (b, e) ↦
          let (w, best) : IsFirst (filterb (due now) db.rows) (some b) =
            subst (λ o. IsFirst (filterb (due now) db.rows) o) e first in
          let (v, k) = Within-filterb (due now) b db.rows w in
          rw (claim_round, e, find_first-key (due now) b db.rows u v k)
            (
              b,
              v,
              k,
              best,
              refl,
              update-key (due now) (claimed_by c now token agent_id) b db.rows u v k,
            )
    ]
