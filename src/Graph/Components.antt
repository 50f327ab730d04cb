-- ===== src/Graph/Components.antt =====
-- Proofs about csapex_core/src/model/graph/graph_impl.cpp, `buildConnectedComponents`: the invariant of
-- the search from one vertex.
use csapex.Base.{
  ℕ, ◌≡◌, refl, sym, ap, ◌∙◌, ◌==◌, ==_iff, ==_refl, true, false, List, ◌∷◌, none, some, elem,
  Bool-cases, Option-cases, inl, inr, ◌⊎◌, IsDistinct,
}
use mathlib.Core.Option.{some-injective}
use csapex.Graph.{Graph, Components, neighbors, erase}
use csapex.Graph.Search.{Reached, there, Visited, or_inr, elem_cons}
use csapex.Graph.Erase.{elem-erase, erase_other, erase_self, erase-IsDistinct}

-- Edges are known at both ends, and join vertices of the graph.
pub record IsUndirected (g : Graph) : Type 0 where
  pub symmetric : (v w : ℕ) → elem w (neighbors g v) ≡ true → elem v (neighbors g w) ≡ true
  pub inside : (v w : ℕ) → elem w (neighbors g v) ≡ true → elem w g.vertices ≡ true

-- In the search from `start`, which gives the component `k`.
pub record Searching (g : Graph) (k start : ℕ) (unmarked q : List ℕ) (comp : Components)
    : Type 0 where
  pub queue : (v : ℕ) → elem v q ≡ true → (comp v ≡ some k) × (elem v g.vertices ≡ true)
  pub from_start : (v : ℕ) → elem v g.vertices ≡ true → comp v ≡ some k → Reached g start v
  pub pending : (v : ℕ) → comp v ≡ some k → elem v unmarked ≡ true → elem v q ≡ true
  pub closed :
      (v j : ℕ)
      → elem v g.vertices ≡ true
      → elem v unmarked ≡ false
      → comp v ≡ some j
      → (w : ℕ) → elem w (neighbors g v) ≡ true
      → comp w ≡ some j
  pub open_ : (v : ℕ) → elem v unmarked ≡ true → (comp v ≡ none) ⊎ (comp v ≡ some k)
  pub marked :
      (v : ℕ) → elem v g.vertices ≡ true → elem v unmarked ≡ false → (j : ℕ) × (comp v ≡ some j)
  pub inside : (v : ℕ) → elem v unmarked ≡ true → elem v g.vertices ≡ true
  pub distinct : IsDistinct unmarked

module _ (g : Graph) (consistent : IsUndirected g) (k start front : ℕ) (unmarked q : List ℕ)
    (comp : Components) (I : Searching g k start unmarked (front ∷ q) comp) where
  front_component : comp front ≡ some k
  front_component = (I.queue front (rw (==_refl front) refl)).0

  in_queue : (v : ℕ) → elem v q ≡ true → elem v (front ∷ q) ≡ true
  in_queue v m = or_inr (v == front) (elem v q) m

  -- A vertex in the queue that is marked already is passed over.
  pub Searching-skip : elem front unmarked ≡ false → Searching g k start unmarked q comp
  Searching-skip gone = record {
    queue = λ v m. I.queue v (in_queue v m);
    from_start = I.from_start;
    pending = λ v c m. elim (elem_cons v front q (I.pending v c m)) [
      | inl p ↦ cc (m, gone, ap (λ u. elem u unmarked) p)
      | inr n ↦ n
    ];
    closed = I.closed;
    open_ = I.open_;
    marked = I.marked;
    inside = I.inside;
    distinct = I.distinct;
  }

  -- The component that a vertex had before its neighbors were visited, or has from them.
  own_component : (j : ℕ) → comp front ≡ some j → j ≡ k
  own_component j e = some-injective j k (sym e ∙ front_component)

  module _ (q' : List ℕ) (comp' : Components)
      (V : Visited k (neighbors g front) q q' comp comp') where
    same_component : (v i j : ℕ) → comp v ≡ some i → comp' v ≡ some j → comp v ≡ some j
    same_component v i j a b = a ∙ sym (V.extends.keeps v i a) ∙ b

    front_kept : comp' front ≡ some k
    front_kept = V.extends.keeps front k front_component

    -- Each neighbor of the vertex is in its component.
    front_closed :
        elem front g.vertices ≡ true
        → (w : ℕ) → elem w (neighbors g front) ≡ true
        → comp' w ≡ some k
    front_closed here_ w e = elim (Option-cases (comp w)) [
      | inl n ↦ elim (V.extends.adds w n) [
        | inl x ↦ let (j, y) = V.assigned w e in cc (x, y)
        | inr x ↦ x
      ]
      | inr (i, a) ↦ V.extends.keeps w k (a ∙ ap some (before w i a e))
    ]
      where
        before : (w i : ℕ) → comp w ≡ some i → elem w (neighbors g front) ≡ true → i ≡ k
        before w i a e = elim (Bool-cases (elem w unmarked)) [
          | inl m ↦ elim (I.open_ w m) [
            | inl n ↦ cc (a, n)
            | inr c ↦ some-injective i k (sym a ∙ c)
          ]
          | inr m ↦ own_component i (
              I.closed w i (consistent.inside front w e) m a front (consistent.symmetric front w e))
        ]

    pub Searching-visit :
        elem front unmarked ≡ true → Searching g k start (erase front unmarked) q' comp'
    Searching-visit m = record {
      queue = λ v n. elim (V.queued v n) [
        | inl o ↦ let (c, i) = I.queue v (in_queue v o) in (V.extends.keeps v k c, i)
        | inr (c, w) ↦ (c, consistent.inside front v w)
      ];
      from_start = λ v i c. elim (Option-cases (comp v)) [
        | inl n ↦
            let (w, x) = V.fresh v n c in
            there start front v (I.from_start front (I.inside front m) front_component) w
        | inr (j, a) ↦ I.from_start v i (same_component v j k a c)
      ];
      pending = λ v c n. elim (Option-cases (comp v)) [
        | inl x ↦ (V.fresh v x c).1
        | inr (j, a) ↦
            elim (elem_cons v front q
              (I.pending v (same_component v j k a c) (elem-erase front v unmarked n))) [
                | inl p ↦ cc (
                  n,
                  ap (λ u. elem u (erase front unmarked)) p,
                  erase_self front unmarked I.distinct,
                )
                | inr o ↦ V.kept v o
              ]
      ];
      closed = λ v j i n c w e. elim (Bool-cases (v == front)) [
        | inl p ↦
            let here_ = (==_iff v front).0 p in
            let is_k : j ≡ k = some-injective j k (sym c ∙ ap comp' here_ ∙ front_kept) in
            front_closed (I.inside front m) w (ap (λ u. elem w (neighbors g u)) (sym here_) ∙ e)
            ∙ ap some (sym is_k)
        | inr p ↦
            let out = sym (erase_other front v unmarked p) ∙ n in
            let (x, a) = I.marked v i out in
            V.extends.keeps w j (I.closed v j i out (same_component v x j a c) w e)
      ];
      open_ = λ v n. elim (I.open_ v (elem-erase front v unmarked n)) [
        | inl x ↦ V.extends.adds v x
        | inr c ↦ inr (V.extends.keeps v k c)
      ];
      marked = λ v i n. elim (Bool-cases (v == front)) [
        | inl p ↦ (k, ap comp' ((==_iff v front).0 p) ∙ front_kept)
        | inr p ↦
            let (x, a) = I.marked v i (sym (erase_other front v unmarked p) ∙ n) in
            (x, V.extends.keeps v x a)
      ];
      inside = λ v n. I.inside v (elem-erase front v unmarked n);
      distinct = erase-IsDistinct front unmarked I.distinct;
    }
