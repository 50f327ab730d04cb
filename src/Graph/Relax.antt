-- ===== src/Graph/Relax.antt =====
-- Proofs about csapex_core/src/model/graph/graph_impl.cpp, `calculateDepths`: what the loop over the children
-- of a vertex does to the depths.
use csapex.Base.{
  ℕ, suc, ◌+◌, ◌≤◌, ◌<◌, ◌≡◌, ◌⊎◌, refl, sym, ap, ◌∙◌, ◌==◌, ==_iff, ==_refl, true, false, List, [],
  ◌∷◌, Option, none, some, elem, update, length, if◌then◌else◌, Bool-cases, Option-cases, inl, inr,
  arith,
}
use csapex.Graph.Search.{or_inr, elem_cons}
use csapex.Graph.Totals.{total, total_ge, total_lt, total_gt}
use csapex.Graph.Depths.{relax, lowers}

module _ (max : ℕ) (vs : List ℕ) where
  -- Whether a vertex has a depth other than the largest `int`.
  abbrev pub numbered_one : Option ℕ → ℕ
  numbered_one none = 0
  numbered_one (some k) = if k == max then 0 else 1

  abbrev pub weight : Option ℕ → ℕ
  weight none = 0
  weight (some k) = if k == max then suc (length vs) else k

  abbrev pub numbered : (ℕ → Option ℕ) → ℕ
  numbered d = total numbered_one d vs

  abbrev pub potential : (ℕ → Option ℕ) → ℕ
  potential d = total weight d vs

  -- Each depth is less than the number of vertices that have one.
  abbrev pub IsSmall : (ℕ → Option ℕ) → Type 0
  IsSmall d = (v k : ℕ) → d v ≡ some k → (k == max) ≡ false → suc k ≤ numbered d

  pub record Relaxed (k : ℕ) (ws q : List ℕ) (d : ℕ → Option ℕ) (q' : List ℕ) (d' : ℕ → Option ℕ)
      : Type 0 where
    pub lower :
        (v e : ℕ)
        → d v ≡ some e
        → (d' v ≡ some e) ⊎ ((d' v ≡ some k) × (k < e) × (elem v ws ≡ true) × (elem v q' ≡ true))
    pub unreached : (v : ℕ) → d v ≡ none → d' v ≡ none
    pub done : (w e : ℕ) → elem w ws ≡ true → d w ≡ some e → (e' : ℕ) × (d' w ≡ some e') × (e' ≤ k)
    pub kept : (v : ℕ) → elem v q ≡ true → elem v q' ≡ true
    pub queued : (v : ℕ) → elem v q' ≡ true → (elem v q ≡ true) ⊎ (d' v ≡ some k)
    pub small : IsSmall d'
    pub more : numbered d ≤ numbered d'
    pub smaller : length q' + potential d' ≤ length q + potential d

  pub numbered_length : (d : ℕ → Option ℕ) (us : List ℕ) → total numbered_one d us ≤ length us
  numbered_length d [] = omega arith
  numbered_length d (v ∷ us) = omega (arith, one (d v), numbered_length d us)
    where
      one : (o : Option ℕ) → numbered_one o ≤ 1
      one none = omega arith
      one (some k) = elim (Bool-cases (k == max)) [
        | inl q ↦ rw q (omega arith)
        | inr q ↦ rw q (omega arith)
      ]

  -- Setting one depth to `k`
  module _ (k w e : ℕ) (d : ℕ → Option ℕ) (below : k < max) (bound : k ≤ numbered d)
      (small : IsSmall d) (w_in : elem w vs ≡ true) (at : d w ≡ some e)
      (l : lowers max k (some e) ≡ true) where
    not_max : (k == max) ≡ false
    not_max = ground (arith, below)

    less : k < e
    less = elim (Bool-cases (e == max)) [
      | inl q ↦ ground (arith, q, below)
      | inr q ↦ ground (arith, q, l)
    ]

    more_numbered :
        (numbered d ≤ numbered (update d w (some k))) × (suc k ≤ numbered (update d w (some k)))
    more_numbered =
        let new : numbered_one (some k) ≡ 1 = rw not_max refl in
        elim (Bool-cases (e == max)) [
          | inl q ↦
              let old : numbered_one (d w) ≡ 0 = rw (at, q) refl in
              let grown = total_gt numbered_one d w (some k) vs w_in (omega (arith, old, new)) in
              (omega (arith, grown), omega (arith, grown, bound))
          | inr q ↦
              let old : numbered_one (d w) ≡ 1 = rw (at, q) refl in
              let same = total_ge numbered_one d w (some k) vs (omega (arith, old, new)) in
              (same, omega (arith, same, small w e at q, less))
        ]

    IsSmall-still : IsSmall (update d w (some k))
    IsSmall-still v j h n = elim (Bool-cases (w == v)) [
      | inl q ↦ let same : k ≡ j = cc (rw q at h) in omega (arith, same, more_numbered.1)
      | inr q ↦ omega (arith, small v j (rw q at h) n, more_numbered.0)
    ]

    less_potential : suc (potential (update d w (some k))) ≤ potential d
    less_potential =
        let new : weight (some k) ≡ k = rw not_max refl in
        total_lt weight d w (some k) vs w_in (elim (Bool-cases (e == max)) [
          | inl q ↦
              let old : weight (d w) ≡ suc (length vs) = rw (at, q) refl in
              omega (arith, old, new, bound, numbered_length d vs)
          | inr q ↦ let old : weight (d w) ≡ e = rw (at, q) refl in omega (arith, old, new, less)
        ])

  -- A child that keeps its depth
  Relaxed-skip :
      (k w : ℕ) (ws q q' : List ℕ) (d d' : ℕ → Option ℕ)
      → ((e : ℕ) → d w ≡ some e → e ≤ k)
      → Relaxed k ws q d q' d'
      → Relaxed k (w ∷ ws) q d q' d'
  Relaxed-skip k w ws q q' d d' high i = record {
    lower = λ v e h. elim (i.lower v e h) [
      | inl s ↦ inl s
      | inr l ↦ inr (l.0, l.1, or_inr (v == w) (elem v ws) l.2, l.3)
    ];
    unreached = i.unreached;
    done = λ u e m h. elim (elem_cons u w ws m) [
      | inr m' ↦ i.done u e m' h
      | inl p ↦ elim (i.lower u e h) [
        | inl s ↦ (e, s, high e (ap d (sym p) ∙ h))
        | inr l ↦ (k, l.0, omega arith)
      ]
    ];
    kept = i.kept;
    queued = i.queued;
    small = i.small;
    more = i.more;
    smaller = i.smaller;
  }

  -- A child whose depth becomes `k`
  Relaxed-set :
      (k w e : ℕ) (ws q q' : List ℕ) (d d' : ℕ → Option ℕ)
      → d w ≡ some e
      → k < e
      → numbered d ≤ numbered (update d w (some k))
      → suc (potential (update d w (some k))) ≤ potential d
      → Relaxed k ws (w ∷ q) (update d w (some k)) q' d'
      → Relaxed k (w ∷ ws) q d q' d'
  Relaxed-set k w e ws q q' d d' at less more potential_less i =
      let d1 = update d w (some k) in
      let w_at : d1 w ≡ some k = rw (==_refl w) refl in
      let final : (v : ℕ) → d1 v ≡ some k → d' v ≡ some k =
        λ v h. elim (i.lower v k h) [ inl s ↦ s | inr l ↦ l.0 ] in
      record {
        lower = λ v x h. elim (Bool-cases (w == v)) [
          | inl p ↦
              let same = (==_iff w v).0 p in
              let x_e : e ≡ x = cc (at, h, ap d same) in
              inr (
                final v (ap d1 (sym same) ∙ w_at),
                omega (arith, less, x_e),
                ground (arith, p),
                i.kept v (ground (arith, p)),
              )
          | inr p ↦ elim (i.lower v x (rw p h)) [
            | inl s ↦ inl s
            | inr l ↦ inr (l.0, l.1, or_inr (v == w) (elem v ws) l.2, l.3)
          ]
        ];
        unreached = λ v h. elim (Bool-cases (w == v)) [
          | inl p ↦ cc (at, h, ap d ((==_iff w v).0 p))
          | inr p ↦ i.unreached v (rw p h)
        ];
        done = λ u x m h. elim (elem_cons u w ws m) [
          | inl p ↦ (k, final u (ap d1 p ∙ w_at), omega arith)
          | inr m' ↦ elim (Bool-cases (w == u)) [
            | inl r ↦ i.done u k m' (rw r refl)
            | inr r ↦ i.done u x m' (rw r h)
          ]
        ];
        kept = λ v h. i.kept v (or_inr (v == w) (elem v q) h);
        queued = λ v h. elim (i.queued v h) [
          | inr n ↦ inr n
          | inl m ↦ elim (elem_cons v w q m) [
            | inl p ↦ inr (final v (ap d1 p ∙ w_at))
            | inr old ↦ inl old
          ]
        ];
        small = i.small;
        more = omega (arith, more, i.more);
        smaller = omega (arith, i.smaller, potential_less);
      }

  pub relax-Relaxed :
      (k : ℕ) (ws q : List ℕ) (d : ℕ → Option ℕ)
      → k < max
      → k ≤ numbered d
      → IsSmall d
      → ((w : ℕ) → elem w ws ≡ true → elem w vs ≡ true)
      → let r = relax max k ws (q, d) in Relaxed k ws q d r.0 r.1
  unfolding relax
  relax-Relaxed k [] q d below bound small inside = record {
    lower = λ v e h. inl h;
    unreached = λ v h. h;
    done = λ w e m h. cc m;
    kept = λ v h. h;
    queued = λ v h. inl h;
    small = small;
    more = omega arith;
    smaller = omega arith;
  }
  relax-Relaxed k (w ∷ ws) q d below bound small inside =
      let rest : (u : ℕ) → elem u ws ≡ true → elem u vs ≡ true =
        λ u m. inside u (or_inr (u == w) (elem u ws) m) in
      let kept = relax-Relaxed k ws q d below bound small rest in
      elim (Option-cases (d w)) [
        | inl e ↦ rw (relax, e) (Relaxed-skip k w ws q _ d _ (λ x h. cc (e, h)) kept)
        | inr (e, at) ↦ elim (Bool-cases (lowers max k (some e))) [
          | inr n ↦
              rw (relax, at, n)
                (Relaxed-skip k w ws q _ d _
                  (λ x h. let same : e ≡ x = cc (at, h) in ground (arith, n, same)) kept)
          | inl l ↦
              let w_in = inside w (rw (==_refl w) refl) in
              let d1 = update d w (some k) in
              let more = more_numbered k w e d below bound small w_in at l in
              let i =
                relax-Relaxed k ws (w ∷ q) d1 below (omega (arith, more.1))
                  (IsSmall-still k w e d below bound small w_in at l) rest in
              rw (relax, at, l)
                (Relaxed-set k w e ws q _ d _ at (less k w e d below bound small w_in at l) more.0
                  (less_potential k w e d below bound small w_in at l) i)
        ]
      ]
