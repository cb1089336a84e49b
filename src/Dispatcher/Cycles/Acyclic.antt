-- ===== src/Dispatcher/Cycles/Acyclic.antt =====
-- detectCycles of apps/dispatcher/src/scheduler/priority.ts against what it is for: it reports
-- nothing exactly if the dependencies can be put in order.
use open_tiger.Prelude.{
  ◌==◌, ==→eq, Bool-cases, Option-cases, some_injective, length, is_empty, All, has_id, All-imp, ℕ,
  zero, suc, ◌+◌, ◌≤◌, ◌<◌, ◌≡◌, refl, sym, ap, ◌∙◌, subst, ◌↔◌, inl, inr, Bool, true, false, some,
  List, [], ◌∷◌, arith,
}
use open_tiger.Dispatcher.Cycles.{
  Graph, deps_of, CycleSearch, open_node, search_deps, dfs, search_roots, unsearched, detect_cycles,
}
use open_tiger.Dispatcher.Cycles.Search.{
  over, Ranked, Searches, Searches-refl, Searches-trans, over_later, Ranked-open,
}
use open_tiger.Dispatcher.Cycles.Rounds.{Answer-cases, dfs-Closes, dfs-Marks}
use open_tiger.Dispatcher.Cycles.Ends.{keys, no_row, search_roots_returns}

-- The ids can be ranked so that every task ranks above the tasks it depends on.
pub record IsAcyclic (graph : Graph) : Type 0 where
  pub rank : ℕ → ℕ
  pub lower : (n : ℕ) → All (λ d. rank d < rank n) (deps_of graph n)

has_id→All {κ} : (P : ℕ → Type κ) (xs : List ℕ) (x : ℕ) → All P xs → has_id xs x ≡ true → P x
has_id→All P [] x h w = cc
has_id→All P (y ∷ ys) x h w = elim (Bool-cases (x == y)) [
  | inl same ↦ subst P (sym (==→eq x y same)) h.0
  | inr other ↦ has_id→All P ys x h.1 (rw other at w)
]

search_roots-kept :
    (fuel : ℕ) (graph : Graph) (ns : List ℕ) (s t : CycleSearch)
    → search_roots fuel graph ns s ≡ some t
    → is_empty s.cycles ≡ false
    → is_empty t.cycles ≡ false
unfolding search_roots
search_roots-kept fuel graph [] s t e h =
    subst (λ x. is_empty x.cycles ≡ false) (some_injective e) h
search_roots-kept fuel graph (n ∷ ns) s t e h = elim (Bool-cases (has_id s.visited n)) [
  | inl seen ↦ search_roots-kept fuel graph ns s t (rw (seen, search_roots) at e) h
  | inr new ↦ elim (Option-cases (dfs fuel graph n s)) [
    | inl stops ↦ let bad = (rw (new, search_roots, stops) at e) in absurd (cc)
    | inr (r, is_r) ↦
        search_roots-kept fuel graph ns r.1 t (rw (new, search_roots, is_r) at e)
          ((dfs-Marks fuel graph n s r is_r).kept h)
  ]
]

-- A search of all roots that records no cycle leaves every root over.
search_roots-Searches :
    (fuel : ℕ) (graph : Graph) (ns : List ℕ) (s t : CycleSearch)
    → Ranked graph s
    → s.recursion_stack ≡ []
    → search_roots fuel graph ns s ≡ some t
    → is_empty t.cycles ≡ true
    → Searches graph s t × All (λ n. over t n ≡ true) ns
unfolding search_roots
search_roots-Searches fuel graph [] s t r o e clean =
    (subst (Searches graph s) (some_injective e) (Searches-refl graph s r), tt)
search_roots-Searches fuel graph (n ∷ ns) s t r o e clean = elim (Bool-cases (has_id s.visited n)) [
  | inl seen ↦
      let rest = search_roots-Searches fuel graph ns s t r o (rw (seen, search_roots) at e) clean in
      (rest.0, (over_later graph s t n rest.0 (rw (seen, o)), rest.1))
  | inr new ↦ elim (Answer-cases (dfs fuel graph n s)) [
    | inl stops ↦ let bad = (rw (new, search_roots, stops) at e) in absurd (cc)
    | inr (inl (u, found)) ↦
        let marked = (dfs-Marks fuel graph n s (true, u) found).reported refl in
        let still =
          search_roots-kept fuel graph ns u t (rw (new, search_roots, found) at e) marked in
        absurd (cc (still, clean))
    | inr (inr (u, is_u)) ↦
        let (first, closed) = dfs-Closes fuel graph n s u r new is_u in
        let rest =
          search_roots-Searches fuel graph ns u t first.ranked (first.stack ∙ o)
            (rw (new, search_roots, is_u) at e) clean in
        (Searches-trans graph s u t first rest.0, (over_later graph u t n rest.0 closed, rest.1))
  ]
]

Ranked-unsearched : (graph : Graph) → Ranked graph unsearched
Ranked-unsearched graph = record {
  rank = λ n. 0;
  bound = 0;
  below = λ n h. cc;
  lower = λ n h. cc;
  opened = λ n h. refl;
}

over→IsAcyclic :
    (graph : Graph) (t : CycleSearch)
    → Ranked graph t
    → All (λ n. over t n ≡ true) (keys graph)
    → IsAcyclic graph
over→IsAcyclic graph t r h = record {
  rank = r.rank;
  lower = λ n. elim (Bool-cases (has_id (keys graph) n)) [
    | inl row ↦
        All-imp (λ d p. p.1) (deps_of graph n)
          (r.lower n (has_id→All (λ m. over t m ≡ true) (keys graph) n h row))
    | inr away ↦ rw (no_row graph n away) tt
  ];
}

module _ (graph : Graph) (a : IsAcyclic graph) where
  not_stacked : (n : ℕ) (xs : List ℕ) → All (λ x. a.rank n < a.rank x) xs → has_id xs n ≡ false
  not_stacked n xs h = elim (Bool-cases (has_id xs n)) [
    | inl there_too ↦ absurd (omega (arith, has_id→All (λ x. a.rank n < a.rank x) xs n h there_too))
    | inr away ↦ away
  ]

  search_deps_finds_none :
      (fuel : ℕ)
      → ((d : ℕ) (s : CycleSearch) (r : Bool × CycleSearch)
          → Ranked graph s
          → has_id s.visited d ≡ false
          → All (λ x. a.rank d < a.rank x) s.recursion_stack
          → dfs fuel graph d s ≡ some r
          → r.0 ≡ false)
      → (node : ℕ) (ds : List ℕ) (s : CycleSearch) (r : Bool × CycleSearch) → Ranked graph s
      → All (λ d. a.rank d < a.rank node) ds
      → All (λ x. a.rank node ≤ a.rank x) s.recursion_stack
      → search_deps (dfs fuel graph) ds s ≡ some r
      → r.0 ≡ false
  unfolding search_deps
  search_deps_finds_none fuel none_deeper node [] s r k l h e =
      ap (λ q. q.0) (sym (some_injective e))
  search_deps_finds_none fuel none_deeper node (d ∷ ds) s r k l h e =
      let above = All-imp (λ x le. omega (arith, le, l.0)) s.recursion_stack h in
      elim (Bool-cases (has_id s.visited d)) [
        | inl seen ↦
            search_deps_finds_none fuel none_deeper node ds s r k l.1 h
              (rw (seen, search_deps, not_stacked d s.recursion_stack above) at e)
        | inr new ↦ elim (Answer-cases (dfs fuel graph d s)) [
          | inl stops ↦ let bad = (rw (new, search_deps, stops) at e) in absurd (cc)
          | inr (inl (u, found)) ↦
              let bad = none_deeper d s (true, u) k new above found in absurd (cc)
          | inr (inr (u, is_u)) ↦
              let first = (dfs-Closes fuel graph d s u k new is_u).0 in
              search_deps_finds_none fuel none_deeper node ds u r first.ranked l.1
                (rw (first.stack) h) (rw (new, search_deps, is_u) at e)
        ]
      ]

  dfs_finds_none :
      (fuel : ℕ) (node : ℕ) (s : CycleSearch) (r : Bool × CycleSearch)
      → Ranked graph s
      → has_id s.visited node ≡ false
      → All (λ x. a.rank node < a.rank x) s.recursion_stack
      → dfs fuel graph node s ≡ some r
      → r.0 ≡ false
  unfolding dfs
  dfs_finds_none zero node s r k new h e = cc
  dfs_finds_none (suc fuel) node s r k new h e =
      elim (Answer-cases (search_deps (dfs fuel graph) (deps_of graph node) (open_node node s))) [
        | inl stops ↦ let bad = (rw (stops, dfs) at e) in absurd (cc)
        | inr (inl (u, found)) ↦
            let bad =
              search_deps_finds_none fuel (λ d v q w f g p. dfs_finds_none fuel d v q w f g p) node
                (deps_of graph node) (open_node node s) (true, u) (Ranked-open graph node s new k)
                (a.lower node)
                (omega arith, All-imp (λ x lt. omega (arith, lt)) s.recursion_stack h) found in
            absurd (cc)
        | inr (inr (u, is_u)) ↦ ap (λ q. q.0) (sym (some_injective (rw (is_u, dfs) at e)))
      ]

  search_roots_finds_none :
      (fuel : ℕ) (ns : List ℕ) (s t : CycleSearch)
      → Ranked graph s
      → s.recursion_stack ≡ []
      → s.cycles ≡ []
      → search_roots fuel graph ns s ≡ some t
      → t.cycles ≡ []
  unfolding search_roots
  search_roots_finds_none fuel [] s t k o c e = ap (λ x. x.cycles) (sym (some_injective e)) ∙ c
  search_roots_finds_none fuel (n ∷ ns) s t k o c e = elim (Bool-cases (has_id s.visited n)) [
    | inl seen ↦ search_roots_finds_none fuel ns s t k o c (rw (seen, search_roots) at e)
    | inr new ↦ elim (Answer-cases (dfs fuel graph n s)) [
      | inl stops ↦ let bad = (rw (new, search_roots, stops) at e) in absurd (cc)
      | inr (inl (u, found)) ↦
          let empty = subst (All (λ x. a.rank n < a.rank x)) (sym o) tt in
          let bad = dfs_finds_none fuel n s (true, u) k new empty found in absurd (cc)
      | inr (inr (u, is_u)) ↦
          let first = (dfs-Closes fuel graph n s u k new is_u).0 in
          search_roots_finds_none fuel ns u t first.ranked (first.stack ∙ o) (first.cycles ∙ c)
            (rw (new, search_roots, is_u) at e)
    ]
  ]

-- The search for cycles reports none exactly if the tasks can be ranked above the tasks that they
-- depend on.
pub detect_cycles_iff : (graph : Graph) → (detect_cycles graph ≡ some []) ↔ IsAcyclic graph
unfolding detect_cycles
detect_cycles_iff graph =
    let (t, e) = search_roots_returns graph (keys graph) unsearched in
    (
      (λ none_found.
          let clean = some_injective (rw e at none_found) in
          let (searched, over_all) =
            search_roots-Searches (length graph + 1) graph (keys graph) unsearched t
              (Ranked-unsearched graph) refl e (rw clean) in
          over→IsAcyclic graph t searched.ranked over_all),
      (λ a. rw e (
          ap some (
            search_roots_finds_none graph a (length graph + 1) (keys graph) unsearched t
              (Ranked-unsearched graph) refl refl e))),
    )
