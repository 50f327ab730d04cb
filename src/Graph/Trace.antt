-- ===== src/Graph/Trace.antt =====
-- Proofs about csapex_core/src/model/graph/graph_impl.cpp, `calculateDepths`: the search for the counterpart of a
-- vertex that joins streams ends, and finds only vertices that lead to it.
use csapex.Base.{
  ℕ, zero, suc, ◌≤◌, ◌≡◌, ◌⊎◌, refl, sym, ap, subst, fun_ext, ◌∙◌, ◌==◌, ==_iff, ==_refl, ==_not,
  Bool, true, false, ◌&&◌, List, [], ◌∷◌, ◌++◌, Option, some, elem, update, IsDistinct, Bool-cases,
  inl, inr, arith,
}
use csapex.Graph.{Graph}
use csapex.Graph.Search.{or_inr, elem_cons, elem_snoc}
use csapex.Graph.Edges.{IsConsistent}
use csapex.Graph.Linked.{snoc-IsDistinct}
use csapex.Graph.Spread.{ReachedFrom, step, unmarked, unmarked-update}
use csapex.Graph.Depths.{parents_of}
use csapex.Graph.Counterpart.{
  Tracing, insert, lower_depth, same_depth, is_positive, is_single, lower_minimum, enqueue,
  trace_parents, trace,
}

-- Sorting keeps the members, and how often each is listed.
pub record IsSort (sort : List ℕ → List ℕ) : Type 0 where
  pub members : (v : ℕ) (xs : List ℕ) → elem v (sort xs) ≡ elem v xs
  pub distinct : (xs : List ℕ) → IsDistinct xs → IsDistinct (sort xs)

-- A vertex from which a path of edges leads to `v`, or `v` itself.
abbrev pub LeadsTo : Graph → ℕ → ℕ → Type 0
LeadsTo g v = ReachedFrom (parents_of g) (λ s. s ≡ v)

elem-insert_cases :
    (u w : ℕ) (xs : List ℕ) → elem u (insert w xs) ≡ true → (u ≡ w) ⊎ (elem u xs ≡ true)
elem-insert_cases u w xs h = elim (Bool-cases (elem w xs)) [
  | inl q ↦ inr (rw q at h)
  | inr q ↦ elem_cons u w xs (rw q at h)
]

minimum_cases :
    (w u : ℕ) (level : Option ℕ) (s : Tracing)
    → elem u (lower_minimum w level s).minimum ≡ true
    → (u ≡ w) ⊎ (elem u s.minimum ≡ true)
minimum_cases w u level s h = elim (Bool-cases (lower_depth level s.min_level)) [
  | inl q ↦ elim (Bool-cases (same_depth level level)) [
    | inl e ↦ inl (let m : elem u (w ∷ []) ≡ true = rw (q, e) at h in ground (arith, m))
    | inr e ↦ let m : false ≡ true = rw (q, e) at h in cc m
  ]
  | inr q ↦ elim (Bool-cases (same_depth level s.min_level)) [
    | inl e ↦ elem-insert_cases u w s.minimum (rw (q, e) at h)
    | inr e ↦ inr (rw (q, e) at h)
  ]
]

module _ (sort : List ℕ → List ℕ) (S : IsSort sort) where
  enqueue_cases :
      (w u : ℕ) (q : List ℕ) → elem u (enqueue sort w q) ≡ true → (u ≡ w) ⊎ (elem u q ≡ true)
  enqueue_cases w u q h = elim (Bool-cases (elem w q)) [
    | inl y ↦ inr (rw y at h)
    | inr n ↦
        let h' : elem u (sort (q ++ w ∷ [])) ≡ true = rw n at h in
        elim (elem_snoc u w q (sym (S.members u (q ++ w ∷ [])) ∙ h')) [
          | inl m ↦ inr m
          | inr p ↦ inl p
        ]
  ]

  enqueue-IsDistinct : (w : ℕ) (q : List ℕ) → IsDistinct q → IsDistinct (enqueue sort w q)
  enqueue-IsDistinct w q d = elim (Bool-cases (elem w q)) [
    | inl y ↦ rw y d
    | inr n ↦ rw n (S.distinct (q ++ w ∷ []) (snoc-IsDistinct w q n d))
  ]

  module _ (g : Graph) (C : IsConsistent g) (depth : ℕ → Option ℕ) (v0 : ℕ) where
    -- What is queued is not done, and in the graph; what is found leads to the vertex.
    pub record Sound (s : Tracing) : Type 0 where
      pub fresh : (u : ℕ) → elem u s.queue ≡ true → elem u s.done ≡ false
      pub inside : (u : ℕ) → elem u s.queue ≡ true → elem u g.vertices ≡ true
      pub distinct : IsDistinct s.queue
      pub queued : (u : ℕ) → elem u s.queue ≡ true → LeadsTo g v0 u
      pub finished : (u : ℕ) → elem u s.done ≡ true → LeadsTo g v0 u
      pub lowest : (u : ℕ) → elem u s.minimum ≡ true → LeadsTo g v0 u

    parent-Sound :
        (top w : ℕ) (s : Tracing)
        → LeadsTo g v0 top
        → elem w (parents_of g top) ≡ true
        → elem w s.done ≡ false
        → Sound s
        → Sound (record (lower_minimum w (depth w) s) { queue = enqueue sort w s.queue })
    parent-Sound top w s a p n I =
        let here = step top w a p in
        record {
          fresh = λ u h. elim (enqueue_cases w u s.queue h) [
            | inl e ↦ ap (λ x. elem x s.done) e ∙ n
            | inr m ↦ I.fresh u m
          ];
          inside = λ u h. elim (enqueue_cases w u s.queue h) [
            | inl e ↦ ap (λ x. elem x g.vertices) e ∙ C.outside top w p
            | inr m ↦ I.inside u m
          ];
          distinct = enqueue-IsDistinct w s.queue I.distinct;
          queued = λ u h. elim (enqueue_cases w u s.queue h) [
            | inl e ↦ subst (LeadsTo g v0) (sym e) here
            | inr m ↦ I.queued u m
          ];
          finished = I.finished;
          lowest = λ u h. elim (minimum_cases w u (depth w) s h) [
            | inl e ↦ subst (LeadsTo g v0) (sym e) here
            | inr m ↦ I.lowest u m
          ];
        }

    trace_parents-Sound :
        (top : ℕ) (ws : List ℕ) (s : Tracing)
        → LeadsTo g v0 top
        → ((w : ℕ) → elem w ws ≡ true → elem w (parents_of g top) ≡ true)
        → Sound s
        → Sound (trace_parents sort depth ws s) × ((trace_parents sort depth ws s).done ≡ s.done)
    unfolding trace_parents
    trace_parents-Sound top [] s a sub I = (I, refl)
    trace_parents-Sound top (w ∷ ws) s a sub I =
        let sub' : (x : ℕ) → elem x ws ≡ true → elem x (parents_of g top) ≡ true =
          λ x h. sub x (or_inr (x == w) (elem x ws) h) in
        elim (Bool-cases (elem w s.done)) [
          | inl y ↦ rw (trace_parents, y) (trace_parents-Sound top ws s a sub' I)
          | inr n ↦
              rw (trace_parents, n)
                (trace_parents-Sound top ws _ a sub'
                  (parent-Sound top w s a (sub w (rw (==_refl w) refl)) n I))
        ]

    taken-Sound :
        (top : ℕ) (q : List ℕ) (s : Tracing)
        → Sound (record s { queue = top ∷ q })
        → Sound (record s { done = insert top s.done; queue = q })
    taken-Sound top q s I =
        let later : (u : ℕ) → elem u q ≡ true → elem u (top ∷ q) ≡ true =
          λ u h. or_inr (u == top) (elem u q) h in
        let not_done : elem top s.done ≡ false = I.fresh top (rw (==_refl top) refl) in
        record {
          fresh = λ u h. rw not_done (elim (Bool-cases (u == top)) [
            | inl e ↦ cc (ap (λ x. elem x q) ((==_iff u top).0 e), h, I.distinct.0)
            | inr n ↦ rw n (I.fresh u (later u h))
          ]);
          inside = λ u h. I.inside u (later u h);
          distinct = I.distinct.1;
          queued = λ u h. I.queued u (later u h);
          finished = λ u h. elim (elem-insert_cases u top s.done h) [
            | inl e ↦ subst (LeadsTo g v0) (sym e) (I.queued top (rw (==_refl top) refl))
            | inr m ↦ I.finished u m
          ];
          lowest = I.lowest;
        }

    -- One vertex fewer is left.
    fewer :
        (top : ℕ) (done : List ℕ)
        → elem top done ≡ false
        → elem top g.vertices ≡ true
        → suc (unmarked (λ u. elem u (insert top done)) g.vertices)
          ≤ unmarked (λ u. elem u done) g.vertices
    fewer top done n i =
        subst (λ f. suc (unmarked f g.vertices) ≤ unmarked (λ u. elem u done) g.vertices)
          (fun_ext λ u. same u) (unmarked-update (λ u. elem u done) top g.vertices i n)
      where
        same : (u : ℕ) → update (λ x. elem x done) top true u ≡ elem u (insert top done)
        same u = rw n (elim (Bool-cases (top == u)) [
          | inl e ↦ rw (e, sym ((==_iff top u).0 e), ==_refl top) refl
          | inr m ↦ rw (m, ==_not top u m) refl
        ])

    pub record Traced (o : Option (Tracing × Bool)) : Type 0 where
      pub after : Tracing
      pub closed : Bool
      pub returns : o ≡ some (after, closed)
      pub finished : (u : ℕ) → elem u after.done ≡ true → LeadsTo g v0 u
      pub lowest : (u : ℕ) → elem u after.minimum ≡ true → LeadsTo g v0 u
      pub single : closed ≡ true → is_single after.minimum ≡ true

    pub trace-Traced :
        (fuel : ℕ) (q : List ℕ) (s : Tracing)
        → Sound (record s { queue = q })
        → unmarked (λ u. elem u s.done) g.vertices ≤ fuel
        → Traced (trace fuel sort g depth q s)
    unfolding trace
    trace-Traced fuel [] s I le = record {
      after = s;
      closed = false;
      returns = refl;
      finished = I.finished;
      lowest = I.lowest;
      single = λ h. cc h;
    }
    trace-Traced zero (top ∷ q) s I le =
        let top_in : elem top (top ∷ q) ≡ true = rw (==_refl top) refl in
        absurd (omega (arith, le, fewer top s.done (I.fresh top top_in) (I.inside top top_in)))
    trace-Traced (suc fuel) (top ∷ q) s I le =
        let top_in : elem top (top ∷ q) ≡ true = rw (==_refl top) refl in
        let s1 : Tracing = record s { done = insert top s.done; queue = q } in
        let s2 = trace_parents sort depth (parents_of g top) s1 in
        let (I2, same) =
          trace_parents-Sound top (parents_of g top) s1 (I.queued top top_in) (λ w h. h)
            (taken-Sound top q s I) in
        let left = fewer top s.done (I.fresh top top_in) (I.inside top top_in) in
        elim (Bool-cases (is_positive s.min_level && is_single (top ∷ q) && is_single s.minimum)) [
          | inl c ↦
              rw (trace, c)
                (record {
                  after = s;
                  closed = true;
                  returns = refl;
                  finished = I.finished;
                  lowest = I.lowest;
                  single = λ h. ground (arith, c);
                })
          | inr c ↦
              rw (trace, c) (trace-Traced fuel s2.queue s2 I2 (rw same (omega (arith, left, le))))
        ]
