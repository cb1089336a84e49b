-- ===== src/Plugins/Loader/Order.antt =====
-- The order in which the loader of packages/plugin-sdk/src/loader.ts enables plugins: what
-- topologicalSort keeps while it visits, and that it ends.
use open_tiger.Store.{delete_where}
use open_tiger.Prelude.{
  ◌===◌, ===→eq, ===_refl, Bool-cases, All, has_text, DistinctTexts, ===_sym, DistinctTexts-snoc,
  All-imp, String, ◌≡◌, refl, sym, ap, subst, inl, inr, Bool, true, false, ◌||◌, List, [], ◌∷◌,
  ◌++◌, arith,
}
use open_tiger.Plugins.Loader.{
  Manifest, LoadError, SortState, has_error, set_error, required, enter, leave, unsorted,
}

abbrev pub manifest_ids : List Manifest → List String
manifest_ids [] = []
manifest_ids (m ∷ ms) = m.id ∷ manifest_ids ms

-- Every plugin stands after all that it requires; `before` are the ids that stand before the list.
abbrev pub IsOrdered : List String → List Manifest → Type 0
IsOrdered before [] = Unit {0}
IsOrdered before (m ∷ ms) =
    All (λ d. has_text before d ≡ true) (required m.requires) × IsOrdered (m.id ∷ before) ms

IsOrdered-snoc :
    (before : List String) (ms : List Manifest) (p : Manifest)
    → IsOrdered before ms
    → All (λ d. (has_text before d || has_text (manifest_ids ms) d) ≡ true) (required p.requires)
    → IsOrdered before (ms ++ p ∷ [])
IsOrdered-snoc before [] p o h = (All-imp (λ d e. ground arith) _ h, tt)
IsOrdered-snoc before (m ∷ ms) p o h =
    (o.0, IsOrdered-snoc (m.id ∷ before) ms p o.1 (All-imp (λ d e. ground arith) _ h))

manifest_ids-snoc :
    (ms : List Manifest) (p : Manifest) → manifest_ids (ms ++ p ∷ []) ≡ manifest_ids ms ++ p.id ∷ []
manifest_ids-snoc [] p = refl
manifest_ids-snoc (m ∷ ms) p = ap (◌∷◌ m.id) (manifest_ids-snoc ms p)

has_text-last :
    (xs : List String) (x y : String) → has_text (xs ++ y ∷ []) x ≡ (has_text xs x || (x === y))
has_text-last [] x y = ground arith
has_text-last (z ∷ xs) x y = ground (arith, has_text-last xs x y)

abbrev pub in_order : SortState → String → Bool
in_order s id = has_text (manifest_ids s.sorted) id

-- What holds between two statements of the search.
pub record IsSearch (s : SortState) : Type 0 where
  pub ordered : IsOrdered [] s.sorted
  pub distinct : DistinctTexts (manifest_ids s.sorted)
  pub placed :
      (id : String)
      → has_text s.permanent id ≡ true
      → has_error s.errors id ≡ false
      → in_order s id ≡ true
  pub clean : (id : String) → in_order s id ≡ true → has_error s.errors id ≡ false
  pub unplaced : (id : String) → has_text s.temporary id ≡ true → in_order s id ≡ false
  pub finished : (id : String) → in_order s id ≡ true → has_text s.permanent id ≡ true

pub IsSearch-unsorted : IsSearch unsorted
IsSearch-unsorted = record {
  ordered = tt;
  distinct = tt;
  placed = λ id p e. p;
  clean = λ id p. refl;
  unplaced = λ id p. refl;
  finished = λ id p. p;
}

pub IsSearch-set_error :
    (q : String) (e : LoadError) (s : SortState)
    → has_text s.temporary q ≡ true
    → IsSearch s
    → IsSearch (set_error q e s)
IsSearch-set_error q e s t i = record {
  ordered = i.ordered;
  distinct = i.distinct;
  placed = λ id p h. i.placed id p (ground arith);
  clean = λ id p. elim (Bool-cases (q === id)) [
    | inl same ↦
        let closed =
          i.unplaced id (subst (λ x. has_text s.temporary x ≡ true) (===→eq q id same) t) in
        cc
    | inr other ↦ rw other (i.clean id p)
  ];
  unplaced = i.unplaced;
  finished = i.finished;
}

pub IsSearch-enter :
    (p : String) (s : SortState)
    → has_text s.permanent p ≡ false
    → IsSearch s
    → IsSearch (enter p s)
IsSearch-enter p s fresh i = record {
  ordered = i.ordered;
  distinct = i.distinct;
  placed = i.placed;
  clean = i.clean;
  unplaced = λ id t. elim (Bool-cases (in_order s id)) [
    | inl sorted ↦ elim (Bool-cases (id === p)) [
      | inl same ↦
          let both =
            subst (λ x. has_text s.permanent x ≡ true) (===→eq id p same) (i.finished id sorted) in
          cc
      | inr other ↦ let closed = i.unplaced id (rw other at t) in cc
    ]
    | inr away ↦ away
  ];
  finished = i.finished;
}

pub delete_absent :
    (p : String) (xs : List String) → has_text xs p ≡ false → delete_where (λ t. t === p) xs ≡ xs
delete_absent p [] h = refl
delete_absent p (x ∷ xs) h =
    let other = ===_sym p x (ground arith) in
    rw other (ap (◌∷◌ x) (delete_absent p xs (ground arith)))

pub delete_self :
    (p : String) (xs : List String)
    → has_text xs p ≡ false
    → delete_where (λ t. t === p) (p ∷ xs) ≡ xs
delete_self p xs h = rw (===_refl p) (delete_absent p xs h)

has_text-delete :
    (p id : String) (xs : List String)
    → has_text (delete_where (λ t. t === p) xs) id ≡ true
    → (has_text xs id ≡ true) × ((id === p) ≡ false)
has_text-delete p id [] h = cc
has_text-delete p id (x ∷ xs) h = elim (Bool-cases (x === p)) [
  | inl gone ↦ let rest = has_text-delete p id xs (rw gone at h) in ground (arith, rest)
  | inr kept ↦ elim (Bool-cases (id === x)) [
    | inl same ↦ (rw same, subst (λ y. (y === p) ≡ false) (sym (===→eq id x same)) kept)
    | inr other ↦ let rest = has_text-delete p id xs (rw (kept, other) at h) in ground (arith, rest)
  ]
]

pub in_order-snoc :
    (s : SortState) (p : Manifest) (id : String)
    → has_text (manifest_ids (s.sorted ++ p ∷ [])) id ≡ (in_order s id || (id === p.id))
in_order-snoc s p id =
    rw (manifest_ids-snoc s.sorted p) (has_text-last (manifest_ids s.sorted) id p.id)

abbrev closed : Manifest → SortState → SortState
closed p s = record s {
  temporary = delete_where (λ t. t === p.id) s.temporary;
  permanent = p.id ∷ s.permanent;
}

IsSearch-closed :
    (p : Manifest) (s : SortState)
    → has_error s.errors p.id ≡ true
    → IsSearch s
    → IsSearch (closed p s)
IsSearch-closed p s bad i = record {
  ordered = i.ordered;
  distinct = i.distinct;
  placed = λ id h e. elim (Bool-cases (id === p.id)) [
    | inl same ↦ let good = subst (λ x. has_error s.errors x ≡ false) (===→eq id p.id same) e in cc
    | inr other ↦ i.placed id (rw other at h) e
  ];
  clean = i.clean;
  unplaced = λ id t. i.unplaced id (has_text-delete p.id id s.temporary t).0;
  finished = λ id h. ground (arith, i.finished id h);
}

IsSearch-placed :
    (p : Manifest) (s : SortState)
    → in_order s p.id ≡ false
    → has_error s.errors p.id ≡ false
    → All (λ d. in_order s d ≡ true) (required p.requires)
    → IsSearch s
    → IsSearch (record (closed p s) { sorted = s.sorted ++ p ∷ [] })
IsSearch-placed p s fresh good found i = record {
  ordered = IsOrdered-snoc [] s.sorted p i.ordered found;
  distinct =
      rw (manifest_ids-snoc s.sorted p)
        (DistinctTexts-snoc (manifest_ids s.sorted) p.id i.distinct fresh);
  placed = λ id h e. rw (in_order-snoc s p id) (elim (Bool-cases (id === p.id)) [
    | inl same ↦ rw same (ground arith)
    | inr other ↦ rw (other, i.placed id (rw other at h) e)
  ]);
  clean = λ id h. elim (Bool-cases (in_order s id)) [
    | inl before ↦ i.clean id before
    | inr away ↦
        let same = (rw (in_order-snoc s p id, away) at h) in
        subst (λ x. has_error s.errors x ≡ false) (sym (===→eq id p.id same)) good
  ];
  unplaced = λ id t.
      let (was, other) = has_text-delete p.id id s.temporary t in
      rw (in_order-snoc s p id, i.unplaced id was) other;
  finished = λ id h. elim (Bool-cases (id === p.id)) [
    | inl same ↦ rw same
    | inr other ↦
        rw other
          (i.finished id (let either = (rw (in_order-snoc s p id, other) at h) in ground arith))
  ];
}

pub IsSearch-leave :
    (p : Manifest) (s : SortState)
    → in_order s p.id ≡ false
    → (has_error s.errors p.id ≡ false → All (λ d. in_order s d ≡ true) (required p.requires))
    → IsSearch s
    → IsSearch (leave p s)
IsSearch-leave p s fresh found i = elim (Bool-cases (has_error s.errors p.id)) [
  | inl bad ↦ rw bad (IsSearch-closed p s bad i)
  | inr good ↦ rw good (IsSearch-placed p s fresh good (found good) i)
]
