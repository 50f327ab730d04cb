-- ===== src/Graph/Labels.antt =====
-- Proofs about csapex_core/src/model/graph/graph_impl.cpp, `buildConnectedComponents`: two vertices get
-- the same component exactly if a path joins them.
use csapex.Base.{
  ℕ, suc, ◌<◌, ◌≡◌, refl, sym, ap, ◌∙◌, subst, ◌==◌, ==_iff, ==_refl, true, false, List, [], ◌∷◌,
  none, some, elem, update, Bool-cases, Option-cases, inl, inr, ◌⊎◌, IsDistinct, arith,
}
use mathlib.Core.Option.{some-injective}
use csapex.Graph.{Graph, Components, neighbors}
use csapex.Graph.Search.{Reached, here, Extends, elem_cons, update_cases, update_self}
use csapex.Graph.Components.{Searching}

-- Between two searches: the components below `k` are complete.
pub record Labelling (g : Graph) (k : ℕ) (unmarked : List ℕ) (comp : Components) : Type 0 where
  pub roots :
      (j : ℕ)
      → j < k
      → (s : ℕ) × ((v : ℕ) → elem v g.vertices ≡ true → comp v ≡ some j → Reached g s v)
  pub below : (v j : ℕ) → elem v g.vertices ≡ true → comp v ≡ some j → j < k
  pub open_ : (v : ℕ) → elem v unmarked ≡ true → comp v ≡ none
  pub closed :
      (v j : ℕ)
      → elem v g.vertices ≡ true
      → elem v unmarked ≡ false
      → comp v ≡ some j
      → (w : ℕ) → elem w (neighbors g v) ≡ true
      → comp w ≡ some j
  pub marked :
      (v : ℕ) → elem v g.vertices ≡ true → elem v unmarked ≡ false → (j : ℕ) × (comp v ≡ some j)
  pub inside : (v : ℕ) → elem v unmarked ≡ true → elem v g.vertices ≡ true
  pub distinct : IsDistinct unmarked

module _ (g : Graph) (k start : ℕ) (rest : List ℕ) (comp : Components)
    (L : Labelling g k (start ∷ rest) comp) where
  start_open : comp start ≡ none
  start_open = L.open_ start (rw (==_refl start) refl)

  start_inside : elem start g.vertices ≡ true
  start_inside = L.inside start (rw (==_refl start) refl)

  -- A vertex that has a component is not the start, and keeps its component.
  other_kept : (v j : ℕ) → comp v ≡ some j → update comp start (some k) v ≡ some j
  other_kept v j a = elim (update_cases comp start v (some k)) [
    | inl p ↦ cc (a, start_open, ap comp p)
    | inr u ↦ u.1 ∙ a
  ]

  -- What has component `k` at the start of the search is the start.
  only_start :
      (v : ℕ) → elem v g.vertices ≡ true → update comp start (some k) v ≡ some k → v ≡ start
  only_start v i c = elim (update_cases comp start v (some k)) [
    | inl p ↦ p
    | inr u ↦ absurd (omega (arith, L.below v k i (sym u.1 ∙ c)))
  ]

  outside_kept :
      (v j : ℕ)
      → elem v (start ∷ rest) ≡ false
      → update comp start (some k) v ≡ some j
      → comp v ≡ some j
  outside_kept v j n c = elim (update_cases comp start v (some k)) [
    | inl p ↦ cc (n, ap (λ u. elem u (start ∷ rest)) p, start_first)
    | inr u ↦ sym u.1 ∙ c
  ]
    where
      start_first : elem start (start ∷ rest) ≡ true
      start_first = rw (==_refl start) refl

  pub Searching-start : Searching g k start (start ∷ rest) (start ∷ []) (update comp start (some k))
  Searching-start = record {
    queue = λ v m. elim (elem_cons v start [] m) [
      | inl p ↦ (
        ap (update comp start (some k)) p ∙ update_self comp start (some k),
        ap (λ u. elem u g.vertices) p ∙ start_inside,
      )
      | inr x ↦ cc x
    ];
    from_start = λ v i c. subst (Reached g start) (sym (only_start v i c)) (here start);
    pending = λ v c m.
        ap (λ u. elem u (start ∷ [])) (only_start v (L.inside v m) c) ∙ rw (==_refl start) refl;
    closed = λ v j i n c w e. other_kept w j (L.closed v j i n (outside_kept v j n c) w e);
    open_ = λ v m. elim (update_cases comp start v (some k)) [
      | inl p ↦ inr (ap (update comp start (some k)) p ∙ update_self comp start (some k))
      | inr u ↦ inl (u.1 ∙ L.open_ v m)
    ];
    marked = λ v i n. let (j, a) = L.marked v i n in (j, other_kept v j a);
    inside = L.inside;
    distinct = L.distinct;
  }

  module _ (left : List ℕ) (found : Components) (S : Searching g k start left [] found)
      (E : Extends k (update comp start (some k)) found) where
    -- A component other than the new one was there before.
    earlier : (v j : ℕ) → found v ≡ some j → (j ≡ k) ⊎ (comp v ≡ some j)
    earlier v j c = elim (update_cases comp start v (some k)) [
      | inl p ↦
          let own = E.keeps start k (update_self comp start (some k)) in
          inl (some-injective j k (sym c ∙ ap found p ∙ own))
      | inr u ↦ elim (Option-cases (comp v)) [
        | inl n ↦ elim (E.adds v (u.1 ∙ n)) [
          | inl x ↦ cc (x, c)
          | inr x ↦ inl (some-injective j k (sym c ∙ x))
        ]
        | inr (i, a) ↦ inr (a ∙ ap some (some-injective i j (sym (E.keeps v i (u.1 ∙ a)) ∙ c)))
      ]
    ]

    pub Labelling-next : Labelling g (suc k) left found
    Labelling-next = record {
      roots = λ j lt. elim (Bool-cases (j == k)) [
        | inl p ↦ (start, λ v i c. S.from_start v i (c ∙ ap some ((==_iff j k).0 p)))
        | inr p ↦
            let (s, f) = L.roots j (ground (arith, lt, p)) in (s, λ v i c. f v i (not_new j p v c))
      ];
      below = λ v j i c. elim (earlier v j c) [
        | inl p ↦ omega (arith, p)
        | inr a ↦ omega (arith, L.below v j i a)
      ];
      open_ = λ v m. elim (S.open_ v m) [ inl n ↦ n | inr c ↦ cc (S.pending v c m) ];
      closed = S.closed;
      marked = S.marked;
      inside = S.inside;
      distinct = S.distinct;
    }
      where
        not_new : (j : ℕ) → (j == k) ≡ false → (v : ℕ) → found v ≡ some j → comp v ≡ some j
        not_new j p v c = elim (earlier v j c) [
          | inl e ↦ cc (p, ap (λ i. i == k) e, ==_refl k)
          | inr a ↦ a
        ]
