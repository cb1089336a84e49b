-- ===== src/Dispatcher/Cycles/Rounds.antt =====
-- The rounds of detectCycles (apps/dispatcher/src/scheduler/priority.ts): what a search that finds
-- no cycle has seen, and that one that finds a cycle reports it.
use open_tiger.Prelude.{
  ==_refl, Bool-cases, some_injective, is_empty, All, has_id, ℕ, zero, suc, ◌≡◌, refl, ap, subst,
  ◌⊎◌, inl, inr, Bool, true, false, none, some, List, [], ◌∷◌, ◌++◌, arith,
}
use open_tiger.Dispatcher.Cycles.{
  Graph, deps_of, CycleSearch, slice_from, open_node, close_node, Answer, search_deps, dfs,
}
use open_tiger.Dispatcher.Cycles.Search.{
  over, Ranked, Searches, Searches-refl, Searches-trans, over_later, Ranked-open, delete_self,
  Followed, Ranked-close,
}

pub Answer-cases :
    (o : Answer)
    → (o ≡ none)
      ⊎ (((t : CycleSearch) × (o ≡ some (true, t))) ⊎ ((t : CycleSearch) × (o ≡ some (false, t))))
Answer-cases none = inl refl
Answer-cases (some (true, t)) = inr (inl (t, refl))
Answer-cases (some (false, t)) = inr (inr (t, refl))

-- Whether an answer found a cycle.
abbrev pub flag : Answer → Bool
flag none = false
flag (some r) = r.0

abbrev pub answer : Bool → CycleSearch → Answer
answer b s = some (b, s)

pub same_state : (b c : Bool) (s t : CycleSearch) → answer b s ≡ answer c t → s ≡ t
same_state b c s t e = ap (λ r. r.1) (some_injective e)

-- A search that leaves its node over.
abbrev pub Closes : Graph → ℕ → CycleSearch → CycleSearch → Type 0
Closes graph node s t = Searches graph s t × (over t node ≡ true)

module _ (graph : Graph) (again : ℕ → CycleSearch → Answer)
    (sound : (d : ℕ) (s t : CycleSearch)
      → Ranked graph s
      → has_id s.visited d ≡ false
      → again d s ≡ some (false, t)
      → Closes graph d s t) where
  pub search_deps-Searches :
      (ds : List ℕ) (s t : CycleSearch)
      → Ranked graph s
      → search_deps again ds s ≡ some (false, t)
      → Searches graph s t × All (λ d. over t d ≡ true) ds
  unfolding search_deps
  search_deps-Searches [] s t r e =
      (subst (Searches graph s) (same_state false false s t e) (Searches-refl graph s r), tt)
  search_deps-Searches (d ∷ ds) s t r e = elim (Bool-cases (has_id s.visited d)) [
    | inl seen ↦ elim (Bool-cases (has_id s.recursion_stack d)) [
      | inl cyclic ↦ let bad = ap flag (rw (seen, search_deps, cyclic) at e) in absurd (cc)
      | inr closed ↦
          let rest = search_deps-Searches ds s t r (rw (seen, search_deps, closed) at e) in
          (rest.0, (over_later graph s t d rest.0 (rw (seen, closed)), rest.1))
    ]
    | inr new ↦ elim (Answer-cases (again d s)) [
      | inl stops ↦ let bad = (rw (new, search_deps, stops) at e) in absurd (cc)
      | inr (inl (u, found)) ↦ let bad = ap flag (rw (new, search_deps, found) at e) in absurd (cc)
      | inr (inr (u, is_u)) ↦
          let first = sound d s u r new is_u in
          let rest =
            search_deps-Searches ds u t first.0.ranked (rw (new, search_deps, is_u) at e) in
          (
            Searches-trans graph s u t first.0 rest.0,
            (over_later graph u t d rest.0 first.1, rest.1),
          )
    ]
  ]

close-Closes :
    (graph : Graph) (node : ℕ) (s u : CycleSearch)
    → Ranked graph s
    → has_id s.visited node ≡ false
    → Searches graph (open_node node s) u × All (λ d. over u d ≡ true) (deps_of graph node)
    → Closes graph node s (close_node node u)
close-Closes graph node s u r new inside =
    let fresh = r.opened node new in
    let seen = inside.0.visited node (rw (==_refl node)) in
    let followed : Followed graph node s.recursion_stack u = record {
      ranked = inside.0.ranked;
      top = inside.0.stack;
      fresh = fresh;
      seen = seen;
      deps_over = inside.1;
    } in
    let stack : (close_node node u).recursion_stack ≡ s.recursion_stack =
      rw (inside.0.stack) (delete_self node s.recursion_stack fresh) in
    (
      record {
        ranked = Ranked-close graph node s.recursion_stack u followed;
        stack = stack;
        cycles = inside.0.cycles;
        visited = λ n h. inside.0.visited n (ground arith);
      },
      rw (seen, stack, fresh),
    )

pub dfs-Closes :
    (fuel : ℕ) (graph : Graph) (node : ℕ) (s t : CycleSearch)
    → Ranked graph s
    → has_id s.visited node ≡ false
    → dfs fuel graph node s ≡ some (false, t)
    → Closes graph node s t
unfolding dfs
dfs-Closes zero graph node s t r new e = cc
dfs-Closes (suc fuel) graph node s t r new e =
    elim (Answer-cases (search_deps (dfs fuel graph) (deps_of graph node) (open_node node s))) [
      | inl stops ↦ let bad = (rw (stops, dfs) at e) in absurd (cc)
      | inr (inl (u, found)) ↦ let bad = ap flag (rw (found, dfs) at e) in absurd (cc)
      | inr (inr (u, is_u)) ↦
          let inside =
            search_deps-Searches graph (dfs fuel graph)
              (λ d v w q f h. dfs-Closes fuel graph d v w q f h) (deps_of graph node)
              (open_node node s) u (Ranked-open graph node s new r) is_u in
          subst (Closes graph node s) (same_state false false _ t (rw (is_u, dfs) at e))
            (close-Closes graph node s u r new inside)
    ]

-- An answer that reports a cycle has recorded one, and what was recorded or visited stays.
pub record Marks (s : CycleSearch) (r : Bool × CycleSearch) : Type 0 where
  pub reported : r.0 ≡ true → is_empty (r.1).cycles ≡ false
  pub kept : is_empty s.cycles ≡ false → is_empty (r.1).cycles ≡ false
  pub visits : (n : ℕ) → has_id s.visited n ≡ true → has_id (r.1).visited n ≡ true

snoc-ne-nil {ℓ} : {A : Type ℓ} (xs : List A) (x : A) → is_empty (xs ++ x ∷ []) ≡ false
snoc-ne-nil [] x = refl
snoc-ne-nil (y ∷ ys) x = refl

search_deps-Marks :
    (again : ℕ → CycleSearch → Answer)
    → ((d : ℕ) (s : CycleSearch) (r : Bool × CycleSearch) → again d s ≡ some r → Marks s r)
    → (ds : List ℕ) (s : CycleSearch) (r : Bool × CycleSearch) → search_deps again ds s ≡ some r
    → Marks s r
unfolding search_deps
search_deps-Marks again marks [] s r e =
    subst (Marks s) (some_injective e)
      (record { reported = λ h. cc; kept = λ h. h; visits = λ n h. h })
search_deps-Marks again marks (d ∷ ds) s r e = elim (Bool-cases (has_id s.visited d)) [
  | inl seen ↦ elim (Bool-cases (has_id s.recursion_stack d)) [
    | inl cyclic ↦
        let nonempty = snoc-ne-nil s.cycles (slice_from d s.path) in
        subst (Marks s) (some_injective (rw (seen, search_deps, cyclic) at e))
          (record { reported = λ h. nonempty; kept = λ h. nonempty; visits = λ n h. h })
    | inr closed ↦ search_deps-Marks again marks ds s r (rw (seen, search_deps, closed) at e)
  ]
  | inr new ↦ elim (Answer-cases (again d s)) [
    | inl stops ↦ let bad = (rw (new, search_deps, stops) at e) in absurd (cc)
    | inr (inl (u, found)) ↦
        subst (Marks s) (some_injective (rw (new, search_deps, found) at e)) (marks d s _ found)
    | inr (inr (u, is_u)) ↦
        let first = marks d s _ is_u in
        let rest = search_deps-Marks again marks ds u r (rw (new, search_deps, is_u) at e) in
        record {
          reported = rest.reported;
          kept = λ h. rest.kept (first.kept h);
          visits = λ n h. rest.visits n (first.visits n h);
        }
  ]
]

pub dfs-Marks :
    (fuel : ℕ) (graph : Graph) (node : ℕ) (s : CycleSearch) (r : Bool × CycleSearch)
    → dfs fuel graph node s ≡ some r
    → Marks s r
unfolding dfs
dfs-Marks zero graph node s r e = cc
dfs-Marks (suc fuel) graph node s r e =
    let inner =
      search_deps-Marks (dfs fuel graph) (λ d v q f. dfs-Marks fuel graph d v q f)
        (deps_of graph node) (open_node node s) in
    elim (Answer-cases (search_deps (dfs fuel graph) (deps_of graph node) (open_node node s))) [
      | inl stops ↦ let bad = (rw (stops, dfs) at e) in absurd (cc)
      | inr (inl (u, found)) ↦
          let m = inner _ found in
          subst (Marks s) (some_injective (rw (found, dfs) at e)) (record {
            reported = m.reported;
            kept = m.kept;
            visits = λ n h. m.visits n (ground arith);
          })
      | inr (inr (u, is_u)) ↦
          let m = inner _ is_u in
          subst (Marks s) (some_injective (rw (is_u, dfs) at e)) (record {
            reported = λ h. cc;
            kept = m.kept;
            visits = λ n h. m.visits n (ground arith);
          })
    ]
