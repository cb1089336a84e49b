-- ===== src/Dispatcher/Cycles/Ends.antt =====
-- detectCycles of apps/dispatcher/src/scheduler/priority.ts ends on every graph.
use open_tiger.Dispatcher.Cycles.Rounds.{Answer-cases, dfs-Marks}
use open_tiger.Prelude.{
  ◌==◌, ==→eq, Bool-cases, length, count_if, count_if-le-length, has_id, ℕ, zero, suc, ◌+◌, ◌≤◌,
  ◌<◌, ◌≡◌, refl, subst, inl, inr, Bool, true, false, not, none, some, List, [], ◌∷◌, map, arith,
}
use open_tiger.Dispatcher.Cycles.{
  Graph, deps_of, CycleSearch, open_node, close_node, report_cycle, Answer, unless_found,
  search_deps, dfs, search_roots, unsearched, detect_cycles,
}

abbrev pub keys : Graph → List ℕ
keys graph = map (λ row. row.0) graph

-- The rows whose node has not been visited: a search opens at most so many more.
abbrev unvisited : Graph → List ℕ → ℕ
unvisited graph visited = count_if (λ row. not (has_id visited row.0)) graph

unvisited_le :
    (graph : Graph) (xs ys : List ℕ)
    → ((n : ℕ) → has_id xs n ≡ true → has_id ys n ≡ true)
    → unvisited graph ys ≤ unvisited graph xs
unvisited_le [] xs ys f = omega arith
unvisited_le (row ∷ rows) xs ys f = ground (arith, unvisited_le rows xs ys f, f row.0)

pub no_row : (graph : Graph) (n : ℕ) → has_id (keys graph) n ≡ false → deps_of graph n ≡ []
no_row [] n h = refl
no_row (row ∷ rows) n h =
    let other : (row.0 == n) ≡ false = ground arith in rw other (no_row rows n (ground arith))

unvisited_lt :
    (graph : Graph) (n : ℕ) (xs : List ℕ)
    → has_id (keys graph) n ≡ true
    → has_id xs n ≡ false
    → unvisited graph (n ∷ xs) < unvisited graph xs
unvisited_lt [] n xs k h = cc
unvisited_lt (row ∷ rows) n xs k h = elim (Bool-cases (n == row.0)) [
  | inl same ↦
      let le = unvisited_le rows xs (n ∷ xs) (λ m p. ground arith) in
      let new = subst (λ x. has_id xs x ≡ false) (==→eq n row.0 same) h in
      let back : (row.0 == n) ≡ true = ground arith in rw (back, new) (omega (arith, le))
  | inr other ↦
      let back : (row.0 == n) ≡ false = ground arith in
      let rest = unvisited_lt rows n xs (rw other at k) h in rw back (omega (arith, rest))
]

search_deps_returns :
    (fuel : ℕ) (graph : Graph)
    → ((d : ℕ) (s : CycleSearch)
        → has_id s.visited d ≡ false
        → unvisited graph s.visited < fuel
        → (r : Bool × CycleSearch) × (dfs fuel graph d s ≡ some r))
    → (ds : List ℕ) (s : CycleSearch) → unvisited graph s.visited < fuel
    → (r : Bool × CycleSearch) × (search_deps (dfs fuel graph) ds s ≡ some r)
unfolding search_deps
search_deps_returns fuel graph returns [] s f = ((false, s), refl)
search_deps_returns fuel graph returns (d ∷ ds) s f =
    let skip = search_deps_returns fuel graph returns ds s f in
    elim (Bool-cases (has_id s.visited d)) [
      | inl seen ↦ elim (Bool-cases (has_id s.recursion_stack d)) [
        | inl cyclic ↦ ((true, report_cycle d s), rw (seen, search_deps, cyclic))
        | inr closed ↦ (skip.0, rw (seen, search_deps, closed) (skip.1))
      ]
      | inr new ↦
          let (r, is_r) = returns d s new f in
          elim (Answer-cases (dfs fuel graph d s)) [
            | inl stops ↦ absurd (cc (stops, is_r))
            | inr (inl (u, found)) ↦ ((true, u), rw (new, search_deps, found))
            | inr (inr (u, is_u)) ↦
                let le =
                  unvisited_le graph s.visited u.visited
                    (dfs-Marks fuel graph d s (false, u) is_u).visits in
                let (q, is_q) =
                  search_deps_returns fuel graph returns ds u (omega (arith, le, f)) in
                (q, rw (new, search_deps, is_u) is_q)
          ]
    ]

after_deps :
    (node : ℕ) (o : Answer)
    → ((r : Bool × CycleSearch) × (o ≡ some r))
    → (r : Bool × CycleSearch) × (unless_found (λ t. some (false, close_node node t)) o ≡ some r)
after_deps node none (r, e) = cc
after_deps node (some (true, u)) h = ((true, u), refl)
after_deps node (some (false, u)) h = ((false, close_node node u), refl)

dfs_returns :
    (fuel : ℕ) (graph : Graph) (node : ℕ) (s : CycleSearch)
    → has_id s.visited node ≡ false
    → unvisited graph s.visited < fuel
    → (r : Bool × CycleSearch) × (dfs fuel graph node s ≡ some r)
unfolding dfs search_deps
dfs_returns zero graph node s new f = absurd (omega arith)
dfs_returns (suc fuel) graph node s new f =
    after_deps node _ (elim (Bool-cases (has_id (keys graph) node)) [
      | inl row ↦
          search_deps_returns fuel graph (λ d v n g. dfs_returns fuel graph d v n g)
            (deps_of graph node) (open_node node s)
            (omega (arith, unvisited_lt graph node s.visited row new, f))
      | inr away ↦ ((false, open_node node s), rw (no_row graph node away, search_deps))
    ])

pub search_roots_returns :
    (graph : Graph) (ns : List ℕ) (s : CycleSearch)
    → (t : CycleSearch) × (search_roots (length graph + 1) graph ns s ≡ some t)
unfolding search_roots
search_roots_returns graph [] s = (s, refl)
search_roots_returns graph (n ∷ ns) s = elim (Bool-cases (has_id s.visited n)) [
  | inl seen ↦ let (t, e) = search_roots_returns graph ns s in (t, rw (seen, search_roots) e)
  | inr new ↦
      let le = count_if-le-length (λ row. not (has_id s.visited row.0)) graph in
      let (r, is_r) = dfs_returns (length graph + 1) graph n s new (omega (arith, le)) in
      let (t, e) = search_roots_returns graph ns r.1 in (t, rw (new, search_roots, is_r) e)
]

-- The search for cycles ends on every graph: with the fuel that it is given it has an answer.
pub detect_cycles_returns :
    (graph : Graph) → (cycles : List (List ℕ)) × (detect_cycles graph ≡ some cycles)
unfolding detect_cycles
detect_cycles_returns graph =
    let (t, e) = search_roots_returns graph (keys graph) unsearched in (t.cycles, rw e)
