-- ===== src/MergeQueue/Steps.antt =====
-- Each operation of the merge queue keeps the invariant.
use open_tiger.Prelude.{
  Option-cases, &&_parts, All, ℕ, ◌+◌, ◌<◌, String, ◌≡◌, refl, sym, subst, ◌≢◌, inl, inr, Bool,
  true, false, Option, none, some, arith,
}
use open_tiger.Store.{update_where}
use open_tiger.MergeQueue.Rows.{
  MergeQueueStatus, pending, processing, merged, failed, cancelled, Row, MergeDb, is_pending,
  is_processing, is_active, MergeConfig, resolve_claim_ttl_ms, resolve_max_attempts,
}
use open_tiger.MergeQueue.Claims.{
  claim_expired, back_to_pending, recover_expired_claims, held_by, renew_claim_lease, finalized,
  finalize_queue_item, owned_processing, release_merge_queue_claims_by_owner,
}
use open_tiger.MergeQueue.Recover.{recover-rows}
use open_tiger.MergeQueue.Invariant.{
  ClaimOk, AttemptsOk, RowOk, OneActive, UniqueKeys, IsConsistent, All-update, UniqueKeys-update,
  Calm, OneActive-update,
}

pub resolve_max_attempts-pos : (c : MergeConfig) → 0 < resolve_max_attempts c
unfolding resolve_max_attempts
resolve_max_attempts-pos c = elim (Option-cases c.max_attempts) [
  | inl e ↦ rw e (omega arith)
  | inr (n, e) ↦ rw e (ground arith)
]

-- An update of the claims: only rows in process change, and each keeps what the invariant reads.
module _ (c : MergeConfig) (q : Row → Bool) (f : Row → Row) where
  pub update-IsConsistent :
      Calm q f
      → ((r : Row)
          → q r ≡ true
          → RowOk (resolve_max_attempts c) r
          → RowOk (resolve_max_attempts c) (f r))
      → (db : MergeDb) → IsConsistent c db
      → IsConsistent c (record db { rows = update_where q f db.rows })
  update-IsConsistent calm keep db h = record {
    rows_ok = All-update (resolve_max_attempts c) q f db.rows keep h.rows_ok;
    one_active = OneActive-update q f calm db.rows h.one_active;
    unique_keys = UniqueKeys-update q f calm.same_id db.rows h.unique_keys;
  }

is_processing→eq : (s : MergeQueueStatus) → is_processing s ≡ true → s ≡ processing
is_processing→eq processing h = refl
is_processing→eq pending h = cc h
is_processing→eq merged h = cc h
is_processing→eq failed h = cc h
is_processing→eq cancelled h = cc h

pub is_pending→eq : (s : MergeQueueStatus) → is_pending s ≡ true → s ≡ pending
is_pending→eq pending h = refl
is_pending→eq processing h = cc h
is_pending→eq merged h = cc h
is_pending→eq failed h = cc h
is_pending→eq cancelled h = cc h

-- A row in process has an attempt left, and so has a pending one.
pub attempts_left :
    (n : ℕ) (r : Row) (s : MergeQueueStatus)
    → r.status ≡ s
    → RowOk n r
    → AttemptsOk n s r.attempt_count
attempts_left n r s e h = subst (λ x. AttemptsOk n x r.attempt_count) e h.attempts_ok

back_to_pending-RowOk :
    (c : MergeConfig) (now n : ℕ) (r : Row)
    → r.status ≡ processing
    → RowOk n r
    → RowOk n (back_to_pending c now r)
back_to_pending-RowOk c now n r e h = record {
  claim_ok = (refl, refl, refl);
  attempts_ok = attempts_left n r processing e h;
  same_max = h.same_max;
}

pub processing-active : (r : Row) → r.status ≡ processing → is_active r.status ≡ true
processing-active r e = rw e refl

pub release-IsConsistent :
    (c : MergeConfig) (now : ℕ) (owner : String) (db : MergeDb)
    → IsConsistent c db
    → IsConsistent c (release_merge_queue_claims_by_owner c now owner db).0
unfolding release_merge_queue_claims_by_owner
release-IsConsistent c now owner db h =
    let in_process : (r : Row) → owned_processing owner r ≡ true → r.status ≡ processing =
      λ r e. is_processing→eq r.status (&&_parts _ _ e).0 in
    update-IsConsistent c (owned_processing owner) (back_to_pending c now)
      (record {
        same_id = λ r. refl;
        same_pr = λ r. refl;
        was_active = λ r e. processing-active r (in_process r e);
      })
      (λ r e ok. back_to_pending-RowOk c now (resolve_max_attempts c) r (in_process r e) ok) db h

pub recover-IsConsistent :
    (c : MergeConfig) (now : ℕ) (db : MergeDb)
    → IsConsistent c db
    → IsConsistent c (recover_expired_claims c now (λ d. d) db).0
recover-IsConsistent c now db h =
    let in_process : (r : Row) → claim_expired now r ≡ true → r.status ≡ processing =
      λ r e. is_processing→eq r.status (&&_parts _ _ e).0 in
    let ok =
      update-IsConsistent c (claim_expired now) (back_to_pending c now)
        (record {
          same_id = λ r. refl;
          same_pr = λ r. refl;
          was_active = λ r e. processing-active r (in_process r e);
        })
        (λ r e ok. back_to_pending-RowOk c now (resolve_max_attempts c) r (in_process r e) ok) db
        h in
    let e = recover-rows c now db h.unique_keys in
    record {
      rows_ok = subst (λ x. All (RowOk (resolve_max_attempts c)) x) (sym e) ok.rows_ok;
      one_active = subst (λ x. OneActive x) (sym e) ok.one_active;
      unique_keys = subst (λ x. UniqueKeys x) (sym e) ok.unique_keys;
    }

pub some-ne-none {ℓ} : {A : Type ℓ} (a : A) → some a ≢ none
some-ne-none a e = cc

renewed-RowOk :
    (c : MergeConfig) (now n : ℕ) (r : Row)
    → r.status ≡ processing
    → RowOk n r
    → RowOk n
        (record r { claim_expires_at = some (now + resolve_claim_ttl_ms c); updated_at = now })
renewed-RowOk c now n r e h =
    let claim = subst (λ s. ClaimOk s r) e h.claim_ok in
    record {
      claim_ok =
          subst
            (λ s. ClaimOk s (record r {
              claim_expires_at = some (now + resolve_claim_ttl_ms c);
              updated_at = now;
            }))
            (sym e) (claim.0, claim.1, some-ne-none _);
      attempts_ok = h.attempts_ok;
      same_max = h.same_max;
    }

held-processing :
    (queue_id token : ℕ) (owner : String) (r : Row)
    → held_by queue_id token owner r ≡ true
    → r.status ≡ processing
held-processing queue_id token owner r e =
    is_processing→eq r.status (&&_parts _ _ (&&_parts _ _ e).1).0

pub renew-IsConsistent :
    (c : MergeConfig) (now queue_id token : ℕ) (owner : String) (db : MergeDb)
    → IsConsistent c db
    → IsConsistent c (renew_claim_lease c now queue_id token owner db)
unfolding renew_claim_lease
renew-IsConsistent c now queue_id token owner db h =
    update-IsConsistent c (held_by queue_id token owner)
      (λ r. record r { claim_expires_at = some (now + resolve_claim_ttl_ms c); updated_at = now })
      (record {
        same_id = λ r. refl;
        same_pr = λ r. refl;
        was_active = λ r e. processing-active r (held-processing queue_id token owner r e);
      })
      (λ r e ok.
        renewed-RowOk c now (resolve_max_attempts c) r (held-processing queue_id token owner r e)
          ok)
      db h

idle_claim :
    (status : MergeQueueStatus) (r : Row)
    → is_processing status ≡ false
    → r.claim_owner ≡ none
    → r.claim_token ≡ none
    → r.claim_expires_at ≡ none
    → ClaimOk status r
idle_claim pending r h o t e = (o, t, e)
idle_claim processing r h o t e = cc h
idle_claim merged r h o t e = (o, t, e)
idle_claim failed r h o t e = (o, t, e)
idle_claim cancelled r h o t e = (o, t, e)

pub finalize-IsConsistent :
    (c : MergeConfig) (now queue_id token : ℕ) (owner : String) (status : MergeQueueStatus)
    (attempt_count next_attempt_at : ℕ) (last_error : Option String) (db : MergeDb)
    → is_processing status ≡ false
    → AttemptsOk (resolve_max_attempts c) status attempt_count
    → IsConsistent c db
    → IsConsistent c
        (finalize_queue_item now queue_id token owner status attempt_count next_attempt_at
          last_error db).0
unfolding finalize_queue_item finalized
finalize-IsConsistent c now queue_id token owner status attempt_count next_attempt_at last_error db
      idle allowed h =
    update-IsConsistent c (held_by queue_id token owner)
      (finalized now status attempt_count next_attempt_at last_error)
      (record {
        same_id = λ r. refl;
        same_pr = λ r. refl;
        was_active = λ r e. processing-active r (held-processing queue_id token owner r e);
      })
      (λ r e ok. record {
        claim_ok =
            idle_claim status (finalized now status attempt_count next_attempt_at last_error r) idle
              refl refl refl;
        attempts_ok = allowed;
        same_max = ok.same_max;
      })
      db h
