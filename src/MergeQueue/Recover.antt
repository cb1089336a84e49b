-- ===== src/MergeQueue/Recover.antt =====
-- recoverExpiredClaims: the update by id is the update of the expired rows.
use open_tiger.Prelude.{
  ◌==◌, if◌then◌else◌, ==→eq, Bool-cases, &&_parts, filterb, any, count_if, Within, here, there,
  All, List-cases, ne-nil→is_empty, ℕ, ◌≤◌, ◌≡◌, refl, sym, subst, ◌≢◌, inl, inr, Bool, true, false,
  Option, none, List, [], ◌∷◌, arith,
}
use open_tiger.Store.{update_where}
use open_tiger.MergeQueue.Rows.{pending, Row, MergeDb, MergeConfig}
use open_tiger.MergeQueue.Enqueue.{active_for, has_key}
use open_tiger.MergeQueue.Claims.{
  claim_expired, back_to_pending, id_in, reactivates, recovered_rows, recover_expired_claims,
}
use open_tiger.MergeQueue.Invariant.{OneActive, UniqueKeys}

module _ (q : Row → Bool) where
  id_in-none :
      (id : ℕ) (rs : List Row) → any (has_key id) rs ≡ false → id_in (filterb q rs) id ≡ false
  id_in-none id [] h = refl
  id_in-none id (r ∷ rs) h =
      let rest = id_in-none id rs (ground arith) in
      elim (Bool-cases (q r)) [ inl e ↦ rw e (ground (arith, rest)) | inr e ↦ rw e rest ]

  abbrev Picked : List Row → Row → Type 0
  Picked rs r = id_in (filterb q rs) r.id ≡ q r

  later-Picked :
      (x : Row) (rs later : List Row)
      → any (has_key x.id) later ≡ false
      → All (Picked rs) later
      → All (Picked (x ∷ rs)) later
  later-Picked x rs [] h ok = tt
  later-Picked x rs (r ∷ later) h ok = (
    elim (Bool-cases (q x)) [ inl e ↦ rw e (ground (arith, ok.0)) | inr e ↦ rw e (ok.0) ],
    later-Picked x rs later (ground arith) ok.1,
  )

  All-Picked : (rs : List Row) → UniqueKeys rs → All (Picked rs) rs
  All-Picked [] h = tt
  All-Picked (r ∷ rs) h = (
    elim (Bool-cases (q r)) [ inl e ↦ rw e (ground arith) | inr e ↦ rw e (id_in-none r.id rs h.0) ],
    later-Picked r rs rs h.0 (All-Picked rs h.1),
  )

update-congr :
    (p q : Row → Bool) (f : Row → Row) (rs : List Row)
    → All (λ r. p r ≡ q r) rs
    → update_where p f rs ≡ update_where q f rs
update-congr p q f [] h = refl
update-congr p q f (r ∷ rs) h = let rest = update-congr p q f rs h.1 in rw (h.0, rest) refl

update-filterb :
    (q : Row → Bool) (f : Row → Row) (rs : List Row)
    → UniqueKeys rs
    → update_where (λ r. id_in (filterb q rs) r.id) f rs ≡ update_where q f rs
update-filterb q f rs h = update-congr (λ r. id_in (filterb q rs) r.id) q f rs (All-Picked q rs h)

update-none :
    (q : Row → Bool) (f : Row → Row) (rs : List Row) → filterb q rs ≡ [] → update_where q f rs ≡ rs
update-none q f [] h = refl
update-none q f (r ∷ rs) h = elim (Bool-cases (q r)) [
  | inl e ↦ cc (subst (λ b. (if b then r ∷ filterb q rs else filterb q rs) ≡ []) e h)
  | inr e ↦
      let rest =
        update-none q f rs (subst (λ b. (if b then r ∷ filterb q rs else filterb q rs) ≡ []) e h) in
      rw (e, rest) refl
]

-- A row whose claim has expired is active already, so nothing is made active again.
none_reactivated :
    (now : ℕ) (expired rows' rs : List Row)
    → All (λ r. id_in expired r.id ≡ claim_expired now r) rs
    → any (reactivates expired rows') rs ≡ false
none_reactivated now expired rows' [] h = refl
none_reactivated now expired rows' (r ∷ rs) h =
    let rest = none_reactivated now expired rows' rs h.1 in
    let off : reactivates expired rows' r ≡ false = ground (arith, h.0) in rw (off, rest) refl

pub recover-rows :
    (c : MergeConfig) (now : ℕ) (db : MergeDb)
    → UniqueKeys db.rows
    → (recover_expired_claims c now (λ d. d) db).0.rows
      ≡ update_where (claim_expired now) (back_to_pending c now) db.rows
unfolding recover_expired_claims
recover-rows c now db h =
    let expired = filterb (claim_expired now) db.rows in
    elim (List-cases expired) [
      | inl e ↦ rw e (sym (update-none (claim_expired now) (back_to_pending c now) db.rows e))
      | inr e ↦
          rw
            (
              ne-nil→is_empty expired e,
              none_reactivated now expired (recovered_rows c now expired db.rows) db.rows
                  (All-Picked (claim_expired now) db.rows h),
            )
            (update-filterb (claim_expired now) (back_to_pending c now) db.rows h)
    ]

pub update_absent :
    (q : Row → Bool) (f : Row → Row) (rs : List Row) → any q rs ≡ false → update_where q f rs ≡ rs
update_absent q f [] h = refl
update_absent q f (r ∷ rs) h =
    let rest = update_absent q f rs (ground arith) in
    let off : q r ≡ false = ground arith in rw (off, rest) refl

pub any-key : (b : Row) (rs : List Row) → Within b rs → any (has_key b.id) rs ≡ true
any-key b [] w = elim w [ ]
any-key b (r ∷ rs) here = ground arith
any-key b (r ∷ rs) (there w) = ground (arith, any-key b rs w)

pub key-apart :
    (b r : Row) (rs : List Row)
    → any (has_key r.id) rs ≡ false
    → Within b rs
    → (r.id == b.id) ≡ false
key-apart b r rs h w = elim (Bool-cases (r.id == b.id)) [
  | inl e ↦
      let found =
        subst (λ i. any (has_key i) rs ≡ true) (sym (==→eq r.id b.id e)) (any-key b rs w) in
      cc (found, h)
  | inr e ↦ e
]

id_in-Within :
    (q : Row → Bool) (r : Row) (rs : List Row)
    → Within r rs
    → q r ≡ true
    → id_in (filterb q rs) r.id ≡ true
id_in-Within q r [] w e = elim w [ ]
id_in-Within q r (x ∷ rs) here e = rw e (ground arith)
id_in-Within q r (x ∷ rs) (there w) e =
    let later = id_in-Within q r rs w e in
    elim (Bool-cases (q x)) [ inl f ↦ rw f (ground (arith, later)) | inr f ↦ rw f later ]

-- Every row with the id is pending and unclaimed.
abbrev pub PendingWith : ℕ → List Row → Type 0
PendingWith id rs =
    All (λ x. has_key id x ≡ true → (x.status ≡ pending) × (x.claim_token ≡ none)) rs

update-PendingWith :
    (c : MergeConfig) (now id : ℕ) (expired rs : List Row)
    → id_in expired id ≡ true
    → PendingWith id (update_where (λ x. id_in expired x.id) (back_to_pending c now) rs)
update-PendingWith c now id expired [] h = tt
update-PendingWith c now id expired (x ∷ rs) h =
    let rest = update-PendingWith c now id expired rs h in
    elim (Bool-cases (id_in expired x.id)) [
      | inl e ↦ rw e (λ k. (refl, refl), rest)
      | inr e ↦
          rw e (λ k. cc (e, subst (λ i. id_in expired i ≡ true) (sym (==→eq x.id id k)) h), rest)
    ]

filterb-ne-nil :
    (q : Row → Bool) (r : Row) (rs : List Row) → Within r rs → q r ≡ true → filterb q rs ≢ []
filterb-ne-nil q r rs w e none_left =
    cc (subst (λ xs. id_in xs r.id ≡ true) none_left (id_in-Within q r rs w e))

none_active :
    (pr : ℕ) (rs : List Row) → any (active_for pr) rs ≡ false → count_if (active_for pr) rs ≡ 0
none_active pr [] h = refl
none_active pr (r ∷ rs) h = ground (arith, none_active pr rs)

OneActive-count : (pr : ℕ) (rs : List Row) → OneActive rs → count_if (active_for pr) rs ≤ 1
OneActive-count pr [] h = omega arith
OneActive-count pr (r ∷ rs) h = elim (Bool-cases (active_for pr r)) [
  | inl e ↦
      let (same, active) = &&_parts _ _ e in
      let alone : any (active_for pr) rs ≡ false =
        subst (λ n. any (active_for n) rs ≡ false) (==→eq r.pr_number pr same)
          (let both = h.0 in ground arith) in
      rw e (omega (arith, none_active pr rs alone))
  | inr e ↦ rw e (omega (arith, OneActive-count pr rs h.1))
]

not_reactivated :
    (expired rows' rs : List Row) → OneActive rows' → any (reactivates expired rows') rs ≡ false
not_reactivated expired rows' [] h = refl
not_reactivated expired rows' (r ∷ rs) h =
    let rest = not_reactivated expired rows' rs h in
    let few = OneActive-count r.pr_number rows' h in
    let off : reactivates expired rows' r ≡ false = ground (arith, few) in rw (off, rest) refl

-- What recovery leaves, of the rows `rows'` that it means to write.
pub record RecoverOutcome (id : ℕ) (rows' : List Row) (others : MergeDb)
    (result : MergeDb × Option ℕ) : Type 0 where
  pub written : result.1 ≢ none → PendingWith id result.0.rows
  pub failed : result.1 ≡ none → result.0 ≡ others
  pub works : OneActive rows' → result.1 ≢ none

-- Recovery does not look again before it writes. Take a row whose claim had expired when it read.
-- Where the call returns, the row is pending and unclaimed afterwards, whatever others wrote in
-- between, even if that was the row's merge or its failure, or a new claim. Where it throws, the
-- tables are as the others left them. It returns whenever the rows that it means to write, those
-- of the others with each expired one made pending, have no pull request with two active rows.
pub recover_overwrites :
    (c : MergeConfig) (now : ℕ) (between : MergeDb → MergeDb) (db : MergeDb) (r : Row)
    → Within r db.rows
    → claim_expired now r ≡ true
    → RecoverOutcome r.id
        (recovered_rows c now (filterb (claim_expired now) db.rows) (between db).rows)
        (between db)
        (recover_expired_claims c now between db)
unfolding recover_expired_claims
recover_overwrites c now between db r w e =
    let expired = filterb (claim_expired now) db.rows in
    let rows' = recovered_rows c now expired (between db).rows in
    let some_expired = ne-nil→is_empty expired (filterb-ne-nil (claim_expired now) r db.rows w e) in
    elim (Bool-cases (any (reactivates expired rows') (between db).rows)) [
      | inl clash ↦
          rw (some_expired, clash)
            (record {
              written = λ returned. absurd (returned refl);
              failed = λ threw. refl;
              works = λ one. cc (clash, not_reactivated expired rows' (between db).rows one);
            })
      | inr fits ↦
          rw (some_expired, fits)
            (record {
              written = λ returned.
                  update-PendingWith c now r.id expired (between db).rows
                    (id_in-Within (claim_expired now) r db.rows w e);
              failed = λ threw. cc threw;
              works = λ one threw. cc threw;
            })
    ]
