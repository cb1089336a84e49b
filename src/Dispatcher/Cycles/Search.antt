-- ===== src/Dispatcher/Cycles/Search.antt =====
-- What one search of detectCycles (apps/dispatcher/src/scheduler/priority.ts) does to its state.
use open_tiger.Store.{delete_where}
use open_tiger.Prelude.{
  ◌==◌, if◌then◌else◌, ==_refl, ==→eq, Bool-cases, &&_parts, All, has_id, All-imp, ℕ, ◌+◌, ◌<◌, ◌≡◌,
  refl, sym, ap, ◌∙◌, subst, inl, inr, Bool, true, false, not, ◌&&◌, List, [], ◌∷◌, arith,
}
use open_tiger.Dispatcher.Cycles.{Graph, deps_of, CycleSearch, open_node, close_node}

-- A node whose search is over.
abbrev pub over : CycleSearch → ℕ → Bool
over s n = has_id s.visited n && not (has_id s.recursion_stack n)

-- The nodes that are over have a rank above their dependencies', which are over too.
pub record Ranked (graph : Graph) (s : CycleSearch) : Type 0 where
  pub rank : ℕ → ℕ
  pub bound : ℕ
  pub below : (n : ℕ) → over s n ≡ true → rank n < bound
  pub lower :
      (n : ℕ) → over s n ≡ true → All (λ d. (over s d ≡ true) × (rank d < rank n)) (deps_of graph n)
  pub opened : (n : ℕ) → has_id s.visited n ≡ false → has_id s.recursion_stack n ≡ false

-- What a search that finds no cycle leaves.
pub record Searches (graph : Graph) (s t : CycleSearch) : Type 0 where
  pub ranked : Ranked graph t
  pub stack : t.recursion_stack ≡ s.recursion_stack
  pub cycles : t.cycles ≡ s.cycles
  pub visited : (n : ℕ) → has_id s.visited n ≡ true → has_id t.visited n ≡ true

pub Searches-refl : (graph : Graph) (s : CycleSearch) → Ranked graph s → Searches graph s s
Searches-refl graph s r = record { ranked = r; stack = refl; cycles = refl; visited = λ n h. h }

pub Searches-trans :
    (graph : Graph) (s t u : CycleSearch)
    → Searches graph s t
    → Searches graph t u
    → Searches graph s u
Searches-trans graph s t u a b = record {
  ranked = b.ranked;
  stack = b.stack ∙ a.stack;
  cycles = b.cycles ∙ a.cycles;
  visited = λ n h. b.visited n (a.visited n h);
}

-- What is over stays over.
pub over_later :
    (graph : Graph) (s t : CycleSearch) (n : ℕ)
    → Searches graph s t
    → over s n ≡ true
    → over t n ≡ true
over_later graph s t n a h =
    let (seen, closed) = &&_parts (has_id s.visited n) _ h in rw (a.visited n seen, a.stack) closed

-- Opening a new node ends no search.
over-open :
    (node : ℕ) (s : CycleSearch) (n : ℕ)
    → has_id s.visited node ≡ false
    → over (open_node node s) n ≡ over s n
over-open node s n fresh = elim (Bool-cases (n == node)) [
  | inl same ↦
      let unseen = subst (λ x. has_id s.visited x ≡ false) (sym (==→eq n node same)) fresh in
      rw (same, unseen)
  | inr other ↦ rw other
]

pub Ranked-open :
    (graph : Graph) (node : ℕ) (s : CycleSearch)
    → has_id s.visited node ≡ false
    → Ranked graph s
    → Ranked graph (open_node node s)
Ranked-open graph node s fresh r = record {
  rank = r.rank;
  bound = r.bound;
  below = λ n h. r.below n (rw (over-open node s n fresh) at h);
  lower = λ n h.
      All-imp (λ d p. (rw (over-open node s d fresh) p.0, p.1)) (deps_of graph n)
        (r.lower n (rw (over-open node s n fresh) at h));
  opened = λ n h. ground (arith, r.opened n);
}

delete_absent : (x : ℕ) (xs : List ℕ) → has_id xs x ≡ false → delete_where (λ n. n == x) xs ≡ xs
delete_absent x [] h = refl
delete_absent x (y ∷ ys) h =
    let other : (y == x) ≡ false = ground arith in
    rw other (ap (◌∷◌ y) (delete_absent x ys (ground arith)))

pub delete_self :
    (x : ℕ) (xs : List ℕ) → has_id xs x ≡ false → delete_where (λ n. n == x) (x ∷ xs) ≡ xs
delete_self x xs h = rw (==_refl x) (delete_absent x xs h)

-- A search of `node` that has followed all its dependencies.
pub record Followed (graph : Graph) (node : ℕ) (stack : List ℕ) (t : CycleSearch) : Type 0 where
  pub ranked : Ranked graph t
  pub top : t.recursion_stack ≡ node ∷ stack
  pub fresh : has_id stack node ≡ false
  pub seen : has_id t.visited node ≡ true
  pub deps_over : All (λ d. over t d ≡ true) (deps_of graph node)

-- The node is not over before it is closed.
not_node :
    (graph : Graph) (node : ℕ) (stack : List ℕ) (t : CycleSearch) (d : ℕ)
    → Followed graph node stack t
    → over t d ≡ true
    → (d == node) ≡ false
not_node graph node stack t d f h = elim (Bool-cases (d == node)) [
  | inl same ↦
      let (_, closed) = &&_parts (has_id t.visited d) _ h in
      let bad = (rw (f.top, same) at closed) in absurd (cc)
  | inr other ↦ other
]

over-close :
    (graph : Graph) (node : ℕ) (stack : List ℕ) (t : CycleSearch) (d : ℕ)
    → Followed graph node stack t
    → (d == node) ≡ false
    → over (close_node node t) d ≡ over t d
over-close graph node stack t d f other = rw (f.top, delete_self node stack f.fresh, other)

pub Ranked-close :
    (graph : Graph) (node : ℕ) (stack : List ℕ) (t : CycleSearch)
    → Followed graph node stack t
    → Ranked graph (close_node node t)
Ranked-close graph node stack t f =
    let r = f.ranked in
    let new_rank : ℕ → ℕ = λ n. if n == node then r.bound else r.rank n in
    let was : (d : ℕ) → (d == node) ≡ false → over (close_node node t) d ≡ true → over t d ≡ true =
      λ d other h. rw (over-close graph node stack t d f other) at h in
    let is_now : (d : ℕ) → over t d ≡ true → over (close_node node t) d ≡ true =
      λ d h. rw (over-close graph node stack t d f (not_node graph node stack t d f h)) h in
    record {
      rank = new_rank;
      bound = r.bound + 1;
      below = λ n h. elim (Bool-cases (n == node)) [
        | inl same ↦ rw same (omega arith)
        | inr other ↦ rw other (omega (arith, r.below n (was n other h)))
      ];
      lower = λ n h. elim (Bool-cases (n == node)) [
        | inl same ↦
            rw (==→eq n node same, ==_refl node)
              (All-imp (λ d p. (is_now d p, rw (not_node graph node stack t d f p) (r.below d p)))
                (deps_of graph node) f.deps_over)
        | inr other ↦ rw other (
            All-imp (λ d p. (is_now d p.0, rw (not_node graph node stack t d f p.0) p.1))
              (deps_of graph n) (r.lower n (was n other h)))
      ];
      opened = λ n h.
          rw (f.top, delete_self node stack f.fresh)
            (let e = rw (f.top) at (r.opened n h) in ground arith);
    }
