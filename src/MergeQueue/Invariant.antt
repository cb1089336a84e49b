-- ===== src/MergeQueue/Invariant.antt =====
-- The invariant of the merge queue, and what keeps it.
use open_tiger.Prelude.{
  Bool-cases, any, All, ℕ, ◌≤◌, ◌<◌, ◌≡◌, refl, ◌≢◌, inl, inr, Bool, true, false, ◌&&◌, none, List,
  [], ◌∷◌, ◌++◌, arith,
}
use open_tiger.Store.{update_where}
use open_tiger.MergeQueue.Rows.{
  MergeQueueStatus, pending, processing, Row, MergeDb, is_active, MergeConfig, resolve_max_attempts,
}
use open_tiger.MergeQueue.Enqueue.{active_for, has_key}

-- A row in process is claimed, with an owner, a token and an expiry; any other row is not.
abbrev pub ClaimOk : MergeQueueStatus → Row → Type 0
ClaimOk processing r = (r.claim_owner ≢ none) × (r.claim_token ≢ none) × (r.claim_expires_at ≢ none)
ClaimOk _ r = (r.claim_owner ≡ none) × (r.claim_token ≡ none) × (r.claim_expires_at ≡ none)

-- Of n attempts, a row that may still be merged has one left, and no row has used more.
abbrev pub AttemptsOk : ℕ → MergeQueueStatus → ℕ → Type 0
AttemptsOk n pending attempt_count = attempt_count < n
AttemptsOk n processing attempt_count = attempt_count < n
AttemptsOk n _ attempt_count = attempt_count ≤ n

pub record RowOk (n : ℕ) (r : Row) : Type 0 where
  pub claim_ok : ClaimOk r.status r
  pub attempts_ok : AttemptsOk n r.status r.attempt_count
  pub same_max : r.max_attempts ≡ n

-- At most one pending or processing row for each pull request.
abbrev pub OneActive : List Row → Type 0
OneActive [] = Unit {0}
OneActive (r ∷ rs) =
    ((is_active r.status && any (active_for r.pr_number) rs) ≡ false) × OneActive rs

-- No two rows share an id.
abbrev pub UniqueKeys : List Row → Type 0
UniqueKeys [] = Unit {0}
UniqueKeys (r ∷ rs) = (any (has_key r.id) rs ≡ false) × UniqueKeys rs

pub record IsConsistent (c : MergeConfig) (db : MergeDb) : Type 0 where
  pub rows_ok : All (RowOk (resolve_max_attempts c)) db.rows
  pub one_active : OneActive db.rows
  pub unique_keys : UniqueKeys db.rows

pub All-update :
    (n : ℕ) (q : Row → Bool) (f : Row → Row) (rs : List Row)
    → ((r : Row) → q r ≡ true → RowOk n r → RowOk n (f r))
    → All (RowOk n) rs
    → All (RowOk n) (update_where q f rs)
All-update n q f [] keep h = tt
All-update n q f (r ∷ rs) keep h =
    let rest = All-update n q f rs keep h.1 in
    elim (Bool-cases (q r)) [ inl e ↦ rw e (keep r e h.0, rest) | inr e ↦ rw e (h.0, rest) ]

no_key-update :
    (q : Row → Bool) (f : Row → Row)
    → ((r : Row) → (f r).id ≡ r.id)
    → (id : ℕ) (rs : List Row) → any (has_key id) rs ≡ false
    → any (has_key id) (update_where q f rs) ≡ false
no_key-update q f same id [] h = refl
no_key-update q f same id (r ∷ rs) h =
    let rest = no_key-update q f same id rs (ground arith) in
    elim (Bool-cases (q r)) [
      | inl e ↦ rw (e, same r) (ground (arith, rest))
      | inr e ↦ rw e (ground (arith, rest))
    ]

pub UniqueKeys-update :
    (q : Row → Bool) (f : Row → Row)
    → ((r : Row) → (f r).id ≡ r.id)
    → (rs : List Row) → UniqueKeys rs
    → UniqueKeys (update_where q f rs)
UniqueKeys-update q f same [] h = tt
UniqueKeys-update q f same (r ∷ rs) h =
    let rest = UniqueKeys-update q f same rs h.1 in
    let none_later = no_key-update q f same r.id rs h.0 in
    elim (Bool-cases (q r)) [
      | inl e ↦ rw (e, same r) (none_later, rest)
      | inr e ↦ rw e (none_later, rest)
    ]

still_single :
    (a a' : Bool) {b b' : Bool}
    → (a && b) ≡ false
    → (b ≡ false → b' ≡ false)
    → (a' ≡ true → a ≡ true)
    → (a' && b') ≡ false
still_single a false h later was = refl
still_single true true h later was = later h
still_single false true h later was = cc (was refl)

-- An update that keeps ids and pull requests and makes no row active that was not.
pub record Calm (q : Row → Bool) (f : Row → Row) : Type 0 where
  pub same_id : (r : Row) → (f r).id ≡ r.id
  pub same_pr : (r : Row) → (f r).pr_number ≡ r.pr_number
  pub was_active : (r : Row) → q r ≡ true → is_active r.status ≡ true

module _ (q : Row → Bool) (f : Row → Row) (calm : Calm q f) where
  any-update :
      (pr : ℕ) (rs : List Row)
      → any (active_for pr) rs ≡ false
      → any (active_for pr) (update_where q f rs) ≡ false
  any-update pr [] h = refl
  any-update pr (r ∷ rs) h =
      let rest = any-update pr rs (ground arith) in
      elim (Bool-cases (q r)) [
        | inl e ↦ rw (e, calm.same_pr r) (ground (arith, calm.was_active r e, rest))
        | inr e ↦ rw e (ground (arith, rest))
      ]

  pub OneActive-update : (rs : List Row) → OneActive rs → OneActive (update_where q f rs)
  OneActive-update [] h = tt
  OneActive-update (r ∷ rs) h =
      let rest = OneActive-update rs h.1 in
      let none_later = any-update r.pr_number rs in
      elim (Bool-cases (q r)) [
        | inl e ↦
            rw (e, calm.same_pr r)
              (
                still_single (is_active r.status) (is_active (f r).status) h.0 none_later
                    (λ active. calm.was_active r e),
                rest,
              )
        | inr e ↦ rw e (
          still_single (is_active r.status) (is_active r.status) h.0 none_later (λ active. active),
          rest,
        )
      ]

any-snoc :
    (pr : ℕ) (rs : List Row) (r : Row)
    → any (active_for pr) rs ≡ false
    → active_for pr r ≡ false
    → any (active_for pr) (rs ++ r ∷ []) ≡ false
any-snoc pr [] r h e = ground arith
any-snoc pr (x ∷ rs) r h e = ground (arith, any-snoc pr rs r)

pub OneActive-snoc :
    (rs : List Row) (r : Row)
    → OneActive rs
    → any (active_for r.pr_number) rs ≡ false
    → OneActive (rs ++ r ∷ [])
OneActive-snoc [] r h e = (ground arith, tt)
OneActive-snoc (x ∷ rs) r h e = (
  elim (Bool-cases (is_active x.status)) [
    | inl a ↦ let apart = any-snoc x.pr_number rs r (ground arith) (ground arith) in ground arith
    | inr a ↦ ground arith
  ],
  OneActive-snoc rs r h.1 (ground arith),
)

no_key-snoc :
    (id : ℕ) (rs : List Row) (r : Row)
    → any (has_key id) rs ≡ false
    → has_key id r ≡ false
    → any (has_key id) (rs ++ r ∷ []) ≡ false
no_key-snoc id [] r h e = ground arith
no_key-snoc id (x ∷ rs) r h e = ground (arith, no_key-snoc id rs r)

pub UniqueKeys-snoc :
    (rs : List Row) (r : Row)
    → UniqueKeys rs
    → any (has_key r.id) rs ≡ false
    → UniqueKeys (rs ++ r ∷ [])
UniqueKeys-snoc [] r h e = (refl, tt)
UniqueKeys-snoc (x ∷ rs) r h e = (
  let apart = no_key-snoc x.id rs r h.0 (ground arith) in apart,
  UniqueKeys-snoc rs r h.1 (ground arith),
)

pub All-snoc :
    (n : ℕ) (rs : List Row) (r : Row) → All (RowOk n) rs → RowOk n r → All (RowOk n) (rs ++ r ∷ [])
All-snoc n [] r h e = (e, tt)
All-snoc n (x ∷ rs) r h e = (h.0, All-snoc n rs r h.1 e)
