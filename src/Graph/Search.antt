-- ===== src/Graph/Search.antt =====
-- Proofs about csapex_core/src/model/graph/graph_impl.cpp, `buildConnectedComponents`: what the loop
-- over the neighbors of a vertex and the search from one vertex leave.
use csapex.Base.{
  ℕ, ◌≡◌, refl, sym, ap, ◌∙◌, ◌==◌, ==_iff, ==_refl, ==_not, Bool, true, false, List, [], ◌∷◌, ◌++◌,
  ◌||◌, Option, none, some, elem, update, Bool-cases, Option-cases, inl, inr, ◌⊎◌,
}
use csapex.Graph.{Graph, Components, neighbors, visit_neighbors}

-- Two vertices are joined by a path of edges, in whatever direction they point.
pub data Reached (g : Graph) : ℕ → ℕ → Type 0 where
  here : (v : ℕ) → Reached g v v
  there : (u v w : ℕ) → Reached g u v → elem w (neighbors g v) ≡ true → Reached g u w

-- `after` keeps all components of `before`, and gives others the component `k`.
pub record Extends (k : ℕ) (before after : Components) : Type 0 where
  pub keeps : (v j : ℕ) → before v ≡ some j → after v ≡ some j
  pub adds : (v : ℕ) → before v ≡ none → (after v ≡ none) ⊎ (after v ≡ some k)

-- What the loop over `ws` leaves: each of them has a component, and each vertex that got one is among
-- them and in the queue.
pub record Visited (k : ℕ) (ws q q' : List ℕ) (comp comp' : Components) : Type 0 where
  pub extends : Extends k comp comp'
  pub assigned : (w : ℕ) → elem w ws ≡ true → (j : ℕ) × (comp' w ≡ some j)
  pub kept : (v : ℕ) → elem v q ≡ true → elem v q' ≡ true
  pub fresh : (v : ℕ) → comp v ≡ none → comp' v ≡ some k → (elem v ws ≡ true) × (elem v q' ≡ true)
  pub queued :
      (v : ℕ) → elem v q' ≡ true → (elem v q ≡ true) ⊎ ((comp' v ≡ some k) × (elem v ws ≡ true))

or_assoc : (a b c : Bool) → a || (b || c) ≡ a || b || c
or_assoc true b c = refl
or_assoc false b c = refl

pub elem-append : (v : ℕ) (xs ys : List ℕ) → elem v (xs ++ ys) ≡ elem v xs || elem v ys
elem-append v [] ys = refl
elem-append v (x ∷ xs) ys = rw (elem-append v xs ys) (or_assoc (v == x) (elem v xs) (elem v ys))

pub or_inr : (a b : Bool) → b ≡ true → a || b ≡ true
or_inr true b e = refl
or_inr false b e = e

pub or_cases : (a b : Bool) → a || b ≡ true → (a ≡ true) ⊎ (b ≡ true)
or_cases true b e = inl refl
or_cases false b e = inr e

-- A member of a list with one more in front.
pub elem_cons : (v w : ℕ) (ws : List ℕ) → elem v (w ∷ ws) ≡ true → (v ≡ w) ⊎ (elem v ws ≡ true)
elem_cons v w ws e = elim (or_cases (v == w) (elem v ws) e) [
  | inl q ↦ inl ((==_iff v w).0 q)
  | inr m ↦ inr m
]

pub elem_snoc :
    (v w : ℕ) (ws : List ℕ) → elem v (ws ++ w ∷ []) ≡ true → (elem v ws ≡ true) ⊎ (v ≡ w)
elem_snoc v w ws e =
    elim (or_cases (elem v ws) (elem v (w ∷ [])) (sym (elem-append v ws (w ∷ [])) ∙ e)) [
      | inl m ↦ inl m
      | inr m ↦ elim (elem_cons v w [] m) [ inl q ↦ inr q | inr x ↦ cc x ]
    ]

pub elem-snoc : (v w : ℕ) (ws : List ℕ) → elem v ws ≡ true → elem v (ws ++ w ∷ []) ≡ true
elem-snoc v w ws e = elem-append v ws (w ∷ []) ∙ rw e refl

pub elem_last : (w : ℕ) (ws : List ℕ) → elem w (ws ++ w ∷ []) ≡ true
elem_last w ws =
    elem-append w ws (w ∷ []) ∙ or_inr (elem w ws) (elem w (w ∷ [])) (rw (==_refl w) refl)

pub update_self : (comp : Components) (w : ℕ) (x : Option ℕ) → update comp w x w ≡ x
update_self comp w x = rw (==_refl w) refl

-- A vertex and its component after an update: the same vertex, or untouched.
pub update_cases :
    (comp : Components) (w v : ℕ) (x : Option ℕ)
    → (v ≡ w) ⊎ (((v == w) ≡ false) × (update comp w x v ≡ comp v))
update_cases comp w v x = elim (Bool-cases (v == w)) [
  | inl q ↦ inl ((==_iff v w).0 q)
  | inr q ↦ inr (q, rw (==_not v w q) refl)
]

module _ (k w : ℕ) (ws q q' : List ℕ) (comp comp' : Components) where
  -- The vertex `w` had a component.
  Visited-old :
      (j : ℕ) → comp w ≡ some j → Visited k ws q q' comp comp' → Visited k (w ∷ ws) q q' comp comp'
  Visited-old j e V = record {
    extends = V.extends;
    assigned = λ u m. elim (elem_cons u w ws m) [
      | inl p ↦ (j, ap comp' p ∙ V.extends.keeps w j e)
      | inr n ↦ V.assigned u n
    ];
    kept = V.kept;
    fresh = λ v a b. let (m, n) = V.fresh v a b in (or_inr (v == w) (elem v ws) m, n);
    queued = λ v m. elim (V.queued v m) [
      | inl n ↦ inl n
      | inr (c, n) ↦ inr (c, or_inr (v == w) (elem v ws) n)
    ];
  }

  -- The vertex `w` gets the component.
  Visited-new :
      comp w ≡ none
      → Visited k ws (q ++ w ∷ []) q' (update comp w (some k)) comp'
      → Visited k (w ∷ ws) q q' comp comp'
  Visited-new e V = record {
    extends = record {
      keeps = λ v j a. elim (update_cases comp w v (some k)) [
        | inl p ↦ cc (e, a, ap comp p)
        | inr u ↦ V.extends.keeps v j (u.1 ∙ a)
      ];
      adds = λ v a. elim (update_cases comp w v (some k)) [
        | inl p ↦ inr (ap comp' p ∙ own)
        | inr u ↦ V.extends.adds v (u.1 ∙ a)
      ];
    };
    assigned =
        λ u m. elim (elem_cons u w ws m) [ inl p ↦ (k, ap comp' p ∙ own) | inr n ↦ V.assigned u n ];
    kept = λ v m. V.kept v (elem-snoc v w q m);
    fresh = λ v a b. elim (update_cases comp w v (some k)) [
      | inl p ↦ (
        ap (λ u. elem u (w ∷ ws)) p ∙ rw (==_refl w) refl,
        ap (λ u. elem u q') p ∙ V.kept w (elem_last w q),
      )
      | inr u ↦ let (m, n) = V.fresh v (u.1 ∙ a) b in (or_inr (v == w) (elem v ws) m, n)
    ];
    queued = λ v m. elim (V.queued v m) [
      | inr (c, x) ↦ inr (c, or_inr (v == w) (elem v ws) x)
      | inl n ↦ elim (elem_snoc v w q n) [
        | inl o ↦ inl o
        | inr p ↦ inr (ap comp' p ∙ own, ap (λ u. elem u (w ∷ ws)) p ∙ rw (==_refl w) refl)
      ]
    ];
  }
    where
      own : comp' w ≡ some k
      own = V.extends.keeps w k (update_self comp w (some k))

pub visit_neighbors-Visited :
    (k : ℕ) (ws q : List ℕ) (comp : Components)
    → let r = visit_neighbors k ws (q, comp) in Visited k ws q r.0 comp r.1
unfolding visit_neighbors
visit_neighbors-Visited k [] q comp = record {
  extends = record { keeps = λ v j e. e; adds = λ v e. inl e };
  assigned = λ w m. cc m;
  kept = λ v m. m;
  fresh = λ v a b. cc (a, b);
  queued = λ v m. inl m;
}
visit_neighbors-Visited k (w ∷ ws) q comp = elim (Option-cases (comp w)) [
  | inl e ↦
      rw (visit_neighbors, e)
        (Visited-new k w ws q _ comp _ e
          (visit_neighbors-Visited k ws (q ++ w ∷ []) (update comp w (some k))))
  | inr (j, e) ↦
      rw (visit_neighbors, e)
        (Visited-old k w ws q _ comp _ j e (visit_neighbors-Visited k ws q comp))
]
