-- ===== src/Retry/Rework/Parents.antt =====
-- The chain of parents in the notes of a rework task
-- (apps/cycle-manager/src/cleaners/cleanup-retry/requeue-blocked.ts): what is written is read back.
use open_tiger.Retry.Context.{context_field}
use package.text.Mathlib.Text.{get?}
use package.text.Mathlib.TextPositions.{starts_with-append, get?-append_middle, len-append}
use package.text.Mathlib.TextLemmas.{append-nil, append-eq-nil_iff}
use Prim.Native.String.{len, ◌++◌ as then_text}
use open_tiger.Retry.Lines.{split_lines, lines_of, split_lines-join}
use open_tiger.Prelude.{
  ◌===◌, ===→eq, ===_refl, Bool-cases, filterb, Within, here, there, has_text, ne-nil→is_empty,
  Within-ne-nil, ℕ, ◌+◌, String, ◌≡◌, refl, sym, ap, ◌∙◌, subst, inl, inr, Bool, true, false, not,
  ◌||◌, Option, some, List, [], ◌∷◌, ◌++◌, arith,
}
use open_tiger.Json.{Json, text, Fields, end, field}
use open_tiger.Store.{Task}
use open_tiger.Failure.Classify.{TextFunctions, get_field}
use open_tiger.Retry.Rework.{
  VerifyReworkMeta, ReworkFunctions, auto_rework_parent_marker_prefix, or_blank, after_prefix,
  task_notes, extract_verify_rework_meta, strip_verify_rework_markers, parent_of_line,
  parents_of_lines, distinct_texts, extract_auto_rework_parents, failed_command_of, verify_summary,
  rework_notes, set_field, rework_context, rework_task,
}

abbrev pub marker_line : ReworkFunctions → Task → String
marker_line rs t = then_text auto_rework_parent_marker_prefix (rs.id_text t.id)

-- The id of the task is written as a text that is not empty, has no line break, and no space at its
-- ends.
pub record WritesId (fs : TextFunctions) (rs : ReworkFunctions) (t : Task) : Type 0 where
  pub one_line : split_lines (marker_line rs t) ≡ marker_line rs t ∷ []
  pub trimmed_line : fs.trim (marker_line rs t) ≡ marker_line rs t
  pub trimmed_id : fs.trim (rs.id_text t.id) ≡ rs.id_text t.id
  pub not_blank : (rs.id_text t.id === "") ≡ false

get_field-set_field :
    (name : String) (value : Json) (fields : Fields)
    → get_field name (set_field name value fields) ≡ some value
get_field-set_field name value end = rw (===_refl name)
get_field-set_field name value (field other x fields) = elim (Bool-cases (other === name)) [
  | inl same ↦ rw (same, ===_refl name)
  | inr different ↦ rw (different, get_field-set_field name value fields) (rw different)
]

after_prefix-append : (p s : String) → after_prefix p (then_text p s) ≡ s
after_prefix-append p s =
    let found =
      subst (λ u. get? (then_text p u) (len p) (len p + len s) ≡ some s) (append-nil s)
        (get?-append_middle p s "") in
    ap or_blank (subst (λ k. get? (then_text p s) (len p) k ≡ some s) (sym (len-append p s)) found)

append_nested {ℓ} : {A : Type ℓ} (xs ys zs : List A) → xs ++ (ys ++ zs) ≡ (xs ++ ys) ++ zs
append_nested [] ys zs = refl
append_nested (x ∷ xs) ys zs = ap (◌∷◌ x) (append_nested xs ys zs)

has_text-append :
    (xs ys : List String) (x : String) → has_text (xs ++ ys) x ≡ (has_text xs x || has_text ys x)
has_text-append [] ys x = refl
has_text-append (z ∷ xs) ys x = ground (arith, has_text-append xs ys x)

parents_of_lines-append :
    (fs : TextFunctions) (xs ys : List String)
    → parents_of_lines fs (xs ++ ys) ≡ parents_of_lines fs xs ++ parents_of_lines fs ys
parents_of_lines-append fs [] ys = refl
parents_of_lines-append fs (x ∷ xs) ys =
    ap (λ l. parent_of_line fs x ++ l) (parents_of_lines-append fs xs ys)
    ∙ append_nested (parent_of_line fs x) (parents_of_lines fs xs) (parents_of_lines fs ys)

has_text-distinct :
    (seen xs : List String) (x : String)
    → has_text xs x ≡ true
    → (has_text seen x || has_text (distinct_texts seen xs) x) ≡ true
has_text-distinct seen [] x h = cc
has_text-distinct seen (y ∷ ys) x h = elim (Bool-cases (x === y)) [
  | inl same ↦ elim (Bool-cases (has_text seen y)) [
    | inl before ↦
        let known = subst (λ z. has_text seen z ≡ true) (sym (===→eq x y same)) before in
        rw (before, known)
    | inr new ↦ rw new (rw same (ground arith))
  ]
  | inr other ↦
      let rest = has_text-distinct (y ∷ seen) ys x (rw other at h) in
      let kept = (rw other at rest) in
      elim (Bool-cases (has_text seen y)) [
        | inl before ↦ rw before kept
        | inr new ↦ rw new (rw other kept)
      ]
]

-- A line of one part is a line of all of them.
part_of-lines :
    (fs : TextFunctions) (s x : String) (parts : List String)
    → Within s parts
    → has_text (parents_of_lines fs (split_lines s)) x ≡ true
    → has_text (parents_of_lines fs (lines_of parts)) x ≡ true
part_of-lines fs s x [] w h = elim w [ ]
part_of-lines fs s x (p ∷ parts) here h = rw (
  parents_of_lines-append fs (split_lines s) (lines_of parts),
  has_text-append (parents_of_lines fs (split_lines s)) (parents_of_lines fs (lines_of parts)) x,
  h,
)
part_of-lines fs s x (p ∷ parts) (there w) h =
    let rest = part_of-lines fs s x parts w h in
    rw
      (
        parents_of_lines-append fs (split_lines p) (lines_of parts),
        has_text-append (parents_of_lines fs (split_lines p)) (parents_of_lines fs (lines_of parts))
            x,
        rest,
      )
      (ground arith)

into_filterb {ℓ} :
    {A : Type ℓ} (p : A → Bool) (x : A) (xs : List A)
    → p x ≡ true
    → Within x xs
    → Within x (filterb p xs)
into_filterb p x [] h w = elim w [ ]
into_filterb p x (y ∷ ys) h here = rw h here
into_filterb p x (y ∷ ys) h (there w) = elim (Bool-cases (p y)) [
  | inl kept ↦ rw kept (there (into_filterb p x ys h w))
  | inr out ↦ rw out (into_filterb p x ys h w)
]

module _ (fs : TextFunctions) (rs : ReworkFunctions) (t : Task) (writes : WritesId fs rs t) where
  marker-parents : parents_of_lines fs (split_lines (marker_line rs t)) ≡ rs.id_text t.id ∷ []
  marker-parents = rw (
    writes.one_line,
    writes.trimmed_line,
    starts_with-append auto_rework_parent_marker_prefix (rs.id_text t.id),
    after_prefix-append auto_rework_parent_marker_prefix (rs.id_text t.id),
    writes.trimmed_id,
    writes.not_blank,
  )

  marker_not_blank : (marker_line rs t === "") ≡ false
  marker_not_blank = elim (Bool-cases (marker_line rs t === "")) [
    | inl blank ↦
        let none_left =
          (append-eq-nil_iff {p = auto_rework_parent_marker_prefix} {q = rs.id_text t.id}).0
            (===→eq (marker_line rs t) "" blank) in
        absurd (cc)
    | inr full ↦ full
  ]

  rework_notes-parents :
      (m : Option VerifyReworkMeta)
      → has_text (extract_auto_rework_parents fs rs (rework_notes fs rs t m)) (rs.id_text t.id)
        ≡ true
  unfolding rework_notes extract_auto_rework_parents
  rework_notes-parents m =
      let present : String → Bool = λ s. not (s === "") in
      let all_parts =
        strip_verify_rework_markers fs rs (task_notes t)
        ∷ verify_summary m (failed_command_of m)
        ∷ marker_line rs t
        ∷ [] in
      let parts = filterb present all_parts in
      let inside : Within (marker_line rs t) parts =
        into_filterb present (marker_line rs t) all_parts (rw marker_not_blank)
          (there (there here)) in
      let own : has_text (parents_of_lines fs (split_lines (marker_line rs t))) (rs.id_text t.id)
          ≡ true =
        rw (marker-parents, ===_refl (rs.id_text t.id)) in
      let listed = part_of-lines fs (marker_line rs t) (rs.id_text t.id) parts inside own in
      let full = ne-nil→is_empty parts (Within-ne-nil inside) in
      subst (λ ls. has_text (distinct_texts [] (parents_of_lines fs ls)) (rs.id_text t.id) ≡ true)
        (sym (split_lines-join parts full))
        (has_text-distinct [] (parents_of_lines fs (lines_of parts)) (rs.id_text t.id) listed)

  -- Reading the notes of the rework task that replaces a task gives that task among its parents,
  -- whatever the notes of the parent were, if the parent's id is written as a text that is not
  -- empty, has no line break, and no space at its ends.
  pub rework_task-parents :
      (now fresh : ℕ)
      → has_text
          (extract_auto_rework_parents fs rs (task_notes (rework_task fs rs now fresh t)))
          (rs.id_text t.id)
        ≡ true
  unfolding rework_task rework_context context_field
  rework_task-parents now fresh =
      let m = extract_verify_rework_meta fs rs (split_lines (task_notes t)) in
      rw (get_field-set_field "notes" (text (rework_notes fs rs t m)) _) (rework_notes-parents m)
