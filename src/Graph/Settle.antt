-- ===== src/Graph/Settle.antt =====
-- Proofs about csapex_core/src/model/graph/graph_impl.cpp, `calculateDepths`: what is known of the depths while
-- they are lowered.
use csapex.Base.{
  ℕ, suc, ◌≤◌, ◌<◌, ◌≡◌, ◌⊎◌, refl, sym, ap, subst, ◌∙◌, ◌==◌, ==_iff, true, false, ◌||◌, List, ◌∷◌,
  Option, some, elem, length, Bool-cases, Option-cases, inl, inr, arith,
}
use csapex.Graph.{Graph}
use csapex.Graph.Search.{or_inr, or_cases}
use csapex.Graph.Relax.{IsSmall, Relaxed, numbered_length}
use csapex.Graph.Depths.{children_of}

-- A path of edges, of the given length, from a source to a vertex.
pub data Walk (g : Graph) : ℕ → ℕ → Type 0 where
  from_source : (s : ℕ) → elem s g.sources ≡ true → Walk g 0 s
  along : (k u w : ℕ) → Walk g k u → elem w (children_of g u) ≡ true → Walk g (suc k) w

module _ (max : ℕ) (g : Graph) (few : length g.vertices < max)
    (inside : (u w : ℕ) → elem w (children_of g u) ≡ true → elem w g.vertices ≡ true) where
  -- The children have a depth of at most one more.
  abbrev pub IsDone : (ℕ → Option ℕ) → ℕ → ℕ → Type 0
  IsDone d u k = (w : ℕ) → elem w (children_of g u) ≡ true → (e : ℕ) × (d w ≡ some e) × (e ≤ suc k)

  -- The depths while vertices wait on the stack, or as sources that are to come.
  pub record Settling (q pending : List ℕ) (d : ℕ → Option ℕ) : Type 0 where
    pub sound : (v k : ℕ) → d v ≡ some k → (k ≡ max) ⊎ Walk g k v
    pub small : IsSmall max g.vertices d
    pub zero_at : (s : ℕ) → elem s g.sources ≡ true → d s ≡ some 0
    pub spreads :
        (u k w : ℕ) → d u ≡ some k → elem w (children_of g u) ≡ true → (e : ℕ) × (d w ≡ some e)
    pub closed :
        (u k : ℕ) → d u ≡ some k → (k ≡ max) ⊎ ((elem u q || elem u pending ≡ true) ⊎ IsDone d u k)
    pub queued : (v : ℕ) → elem v q ≡ true → (k : ℕ) × (d v ≡ some k) × ((k == max) ≡ false)

  module _ (q pending : List ℕ) (top kt : ℕ) (d : ℕ → Option ℕ) (q' : List ℕ) (d' : ℕ → Option ℕ)
      (I : Settling (top ∷ q) pending d) (at : d top ≡ some kt) (n : (kt == max) ≡ false)
      (R : Relaxed max g.vertices (suc kt) (children_of g top) q d q' d') where
    was : (v x : ℕ) → d' v ≡ some x → (e : ℕ) × (d v ≡ some e)
    was v x h = elim (Option-cases (d v)) [ inl e ↦ cc (R.unreached v e, h) | inr e ↦ e ]

    Walk-to : (v : ℕ) → elem v (children_of g top) ≡ true → Walk g (suc kt) v
    Walk-to v m = elim (I.sound top kt at) [
      | inl e ↦ ground (arith, e, n)
      | inr p ↦ along kt top v p m
    ]

    sound_after : (v x : ℕ) → d' v ≡ some x → (x ≡ max) ⊎ Walk g x v
    sound_after v x h =
        let (e, old) = was v x h in
        elim (R.lower v e old) [
          | inl s ↦
              let same : e ≡ x = cc (s, h) in
              subst (λ y. (y ≡ max) ⊎ Walk g y v) same (I.sound v e old)
          | inr l ↦
              let same : suc kt ≡ x = cc (l.0, h) in
              inr (subst (λ y. Walk g y v) same (Walk-to v l.2))
        ]

    IsDone-after : (u k : ℕ) → IsDone d u k → IsDone d' u k
    IsDone-after u k done w m =
        let (e, old, le) = done w m in
        elim (R.lower w e old) [
          | inl s ↦ (e, s, le)
          | inr l ↦ (suc kt, l.0, omega (arith, l.1, le))
        ]

    top-IsDone : IsDone d' top kt
    top-IsDone w m = let (e, old) = I.spreads top kt w at m in R.done w e m old

    waits : (u : ℕ) → elem u q || elem u pending ≡ true → elem u q' || elem u pending ≡ true
    waits u m = elim (or_cases (elem u q) (elem u pending) m) [
      | inl i ↦ rw (R.kept u i) refl
      | inr i ↦ or_inr (elem u q') (elem u pending) i
    ]

    closed_after :
        (u x : ℕ)
        → d' u ≡ some x
        → (x ≡ max) ⊎ ((elem u q' || elem u pending ≡ true) ⊎ IsDone d' u x)
    closed_after u x h =
        let (e, old) = was u x h in
        elim (R.lower u e old) [
          | inr l ↦ inr (inl (rw l.3 refl))
          | inl s ↦
              let same : e ≡ x = cc (s, h) in
              elim (I.closed u e old) [
                | inl m ↦ inl (sym same ∙ m)
                | inr (inr done) ↦
                    inr (inr (subst (λ y. IsDone d' u y) same (IsDone-after u e done)))
                | inr (inl on) ↦ elim (Bool-cases (u == top)) [
                  | inl t ↦
                      let is_top = (==_iff u top).0 t in
                      let kt_x : kt ≡ x = cc (at, old, ap d is_top, same) in
                      inr (
                        inr (
                          subst (λ y. IsDone d' u y) kt_x
                            (subst (λ z. IsDone d' z kt) (sym is_top) top-IsDone)))
                  | inr t ↦ inr (inl (waits u (rw t at on)))
                ]
              ]
        ]

    pub Settling-step : Settling q' pending d'
    Settling-step = record {
      sound = sound_after;
      small = R.small;
      zero_at = λ s m. elim (R.lower s 0 (I.zero_at s m)) [
        | inl h ↦ h
        | inr l ↦ absurd (omega (arith, l.1))
      ];
      spreads = λ u k w h m.
          let (e, old) = was u k h in
          let (x, was_w) = I.spreads u e w old m in
          elim (R.lower w x was_w) [ inl s ↦ (x, s) | inr l ↦ (suc kt, l.0) ];
      closed = closed_after;
      queued = λ v m.
          let k_below = I.small top kt at n in
          let fresh : (suc kt == max) ≡ false =
            ground (arith, k_below, numbered_length max g.vertices d g.vertices, few) in
          elim (R.queued v m) [
            | inr h ↦ (suc kt, h, fresh)
            | inl old ↦
                let (j, h, nm) = I.queued v (or_inr (v == top) (elem v q) old) in
                elim (R.lower v j h) [ inl s ↦ (j, s, nm) | inr l ↦ (suc kt, l.0, fresh) ]
          ];
    }
