-- ===== src/Graph/Streams.antt =====
-- Proofs about csapex_core/src/model/graph/graph_impl.cpp, `findVerticesThatJoinStreams`: which vertices get a
-- depth, and which one.
use csapex.Base.{
  ℕ, zero, suc, ◌≡◌, ◌⊎◌, refl, sym, ap, subst, fun_ext, ◌∙◌, ◌==◌, ==_iff, ==_refl, Bool, true,
  not, List, [], ◌∷◌, Option, none, some, elem, update, if◌then◌else◌, Bool-cases, Option-cases,
  inl, inr, arith,
}
use csapex.Graph.{Graph, is_none}
use csapex.Graph.Search.{or_inr, elem_cons}
use csapex.Graph.Depths.{
  visit_unmarked, spread, spread_all, children_of, Streams, visit_streams, follow_streams,
  follow_sources,
}

abbrev pub flags : (ℕ → Option ℕ) → ℕ → Bool
flags d v = not (is_none (d v))

flags-update : (d : ℕ → Option ℕ) (w k : ℕ) → flags (update d w (some k)) ≡ update (flags d) w true
flags-update d w k = fun_ext λ v. at_each v
  where
    at_each : (v : ℕ) → flags (update d w (some k)) v ≡ update (flags d) w true v
    at_each v = elim (Bool-cases (w == v)) [ inl q ↦ rw q refl | inr q ↦ rw q refl ]

module _ (next : ℕ → List ℕ) (fuel x : ℕ) (es : List ℕ) (m : ℕ → Bool) where
  spread_all-none :
      spread fuel next (x ∷ []) (update m x true) ≡ none → spread_all fuel next (x ∷ es) m ≡ none
  unfolding spread_all
  spread_all-none n = rw (spread_all, n) refl

  spread_all-some :
      (m1 : ℕ → Bool)
      → spread fuel next (x ∷ []) (update m x true) ≡ some m1
      → spread_all fuel next (x ∷ es) m ≡ spread_all fuel next es m1
  unfolding spread_all
  spread_all-some m1 n = rw (spread_all, n) refl

module _ (max : ℕ) where
  -- Depths stay, and new ones are the largest `int`.
  pub record Deepened (d d' : ℕ → Option ℕ) : Type 0 where
    pub keeps : (v e : ℕ) → d v ≡ some e → d' v ≡ some e
    pub values : (v e : ℕ) → d' v ≡ some e → (d v ≡ some e) ⊎ (e ≡ max)

  Deepened-refl : (d : ℕ → Option ℕ) → Deepened d d
  Deepened-refl d = record { keeps = λ v e h. h; values = λ v e h. inl h }

  Deepened-trans : (a b c : ℕ → Option ℕ) → Deepened a b → Deepened b c → Deepened a c
  Deepened-trans a b c D E = record {
    keeps = λ v e h. E.keeps v e (D.keeps v e h);
    values = λ v e h. elim (E.values v e h) [ inr x ↦ inr x | inl h' ↦ D.values v e h' ];
  }

  Deepened-update : (d : ℕ → Option ℕ) (w : ℕ) → d w ≡ none → Deepened d (update d w (some max))
  Deepened-update d w new = record {
    keeps = λ v e h. elim (Bool-cases (w == v)) [
      | inl q ↦ cc (new, h, ap d ((==_iff w v).0 q))
      | inr q ↦ rw q h
    ];
    values = λ v e h. elim (Bool-cases (w == v)) [
      | inl q ↦ inr (cc (rw q at h))
      | inr q ↦ inl (rw q at h)
    ];
  }

  -- The loop over the children marks as the one over the parents does.
  pub record SameMarks (r : List ℕ × Streams) (u : List ℕ × (ℕ → Bool)) (d : ℕ → Option ℕ)
      : Type 0 where
    pub stack : r.0 ≡ u.0
    pub marks : flags r.1.depth ≡ u.1
    pub deepened : Deepened d r.1.depth

  visit_streams-SameMarks :
      (ws q : List ℕ) (s : Streams)
      → SameMarks (visit_streams max ws (q, s)) (visit_unmarked ws (q, flags s.depth)) s.depth
  unfolding visit_streams visit_unmarked
  visit_streams-SameMarks [] q s = record {
    stack = refl;
    marks = refl;
    deepened = Deepened-refl s.depth;
  }
  visit_streams-SameMarks (w ∷ ws) q s = elim (Option-cases (s.depth w)) [
    | inr (k, e) ↦
        let i =
          visit_streams-SameMarks ws q
            (record s { joins = if elem w s.joins then s.joins else w ∷ s.joins }) in
        rw (visit_streams, visit_unmarked, e)
          (record { stack = i.stack; marks = i.marks; deepened = i.deepened })
    | inl e ↦
        let d1 = update s.depth w (some max) in
        let i = visit_streams-SameMarks ws (w ∷ q) (record s { depth = d1 }) in
        let same = flags-update s.depth w max in
        rw (visit_streams, visit_unmarked, e)
          (record {
            stack = i.stack ∙ ap (λ f. (visit_unmarked ws (w ∷ q, f)).0) same;
            marks = i.marks ∙ ap (λ f. (visit_unmarked ws (w ∷ q, f)).1) same;
            deepened = Deepened-trans s.depth d1 _ (Deepened-update s.depth w e) i.deepened;
          })
  ]

  module _ (g : Graph) where
    pub record Followed (o : Option Streams) (m : ℕ → Bool) (d : ℕ → Option ℕ) : Type 0 where
      pub after : Streams
      pub returns : o ≡ some after
      pub marks : flags after.depth ≡ m
      pub deepened : Deepened d after.depth

    follow_streams-Followed :
        (fuel : ℕ) (q : List ℕ) (s : Streams) (m : ℕ → Bool)
        → spread fuel (children_of g) q (flags s.depth) ≡ some m
        → Followed (follow_streams fuel max g q s) m s.depth
    unfolding spread follow_streams
    follow_streams-Followed fuel [] s m e = record {
      after = s;
      returns = refl;
      marks = cc e;
      deepened = Deepened-refl s.depth;
    }
    follow_streams-Followed zero (top ∷ q) s m e = cc e
    follow_streams-Followed (suc fuel) (top ∷ q) s m e =
        let r = visit_streams max (children_of g top) (q, s) in
        let i = visit_streams-SameMarks (children_of g top) q s in
        let f = follow_streams-Followed fuel r.0 r.1 m (rw (i.stack, i.marks) e) in
        record {
          after = f.after;
          returns = f.returns;
          marks = f.marks;
          deepened = Deepened-trans s.depth r.1.depth _ i.deepened f.deepened;
        }

    -- What is known of the depths after some of the sources.
    pub record Seeded (done : List ℕ) (d : ℕ → Option ℕ) : Type 0 where
      pub zero_at : (e : ℕ) → elem e done ≡ true → d e ≡ some 0
      pub values : (v e : ℕ) → d v ≡ some e → (e ≡ max) ⊎ ((e ≡ 0) × (elem v g.sources ≡ true))

    Seeded-start :
        (e : ℕ) (done : List ℕ) (d d' : ℕ → Option ℕ)
        → elem e g.sources ≡ true
        → Seeded done d
        → Deepened (update d e (some 0)) d'
        → Seeded (e ∷ done) d'
    Seeded-start e done d d' source S D = record {
      zero_at = λ u h. D.keeps u 0 (elim (Bool-cases (e == u)) [
        | inl q ↦ rw q refl
        | inr q ↦ rw q (S.zero_at u (ground (arith, h, q)))
      ]);
      values = λ v x h. elim (D.values v x h) [
        | inr m ↦ inl m
        | inl h' ↦ elim (Bool-cases (e == v)) [
          | inl q ↦
              let is_zero : 0 ≡ x = cc (rw q at h') in
              inr (sym is_zero, subst (λ u. elem u g.sources ≡ true) ((==_iff e v).0 q) source)
          | inr q ↦ S.values v x (rw q at h')
        ]
      ];
    }

    pub record FollowedAll (o : Option Streams) (m : ℕ → Bool) (es done : List ℕ) : Type 0 where
      pub after : Streams
      pub returns : o ≡ some after
      pub marks : flags after.depth ≡ m
      pub seeded : (e : ℕ) → (elem e es ≡ true) ⊎ (elem e done ≡ true) → after.depth e ≡ some 0
      pub values :
          (v e : ℕ) → after.depth v ≡ some e → (e ≡ max) ⊎ ((e ≡ 0) × (elem v g.sources ≡ true))

    pub follow_sources-FollowedAll :
        (fuel : ℕ) (es done : List ℕ) (s : Streams) (m : ℕ → Bool)
        → ((e : ℕ) → elem e es ≡ true → elem e g.sources ≡ true)
        → Seeded done s.depth
        → spread_all fuel (children_of g) es (flags s.depth) ≡ some m
        → FollowedAll (follow_sources fuel max g es s) m es done
    unfolding spread_all follow_sources
    follow_sources-FollowedAll fuel [] done s m inside S e = record {
      after = s;
      returns = refl;
      marks = cc e;
      seeded = λ u h. elim h [ inl x ↦ cc x | inr x ↦ S.zero_at u x ];
      values = S.values;
    }
    follow_sources-FollowedAll fuel (x ∷ es) done s m inside S e =
        let s1 : Streams = record s { depth = update s.depth x (some 0) } in
        let same = flags-update s.depth x 0 in
        let x_source = inside x (rw (==_refl x) refl) in
        elim (Option-cases (spread fuel (children_of g) (x ∷ []) (update (flags s.depth) x true))) [
          | inl n ↦ cc (sym (spread_all-none (children_of g) fuel x es (flags s.depth) n) ∙ e)
          | inr (m1, n) ↦
              let f = follow_streams-Followed fuel (x ∷ []) s1 m1 (rw same n) in
              let rest = sym (spread_all-some (children_of g) fuel x es (flags s.depth) m1 n) ∙ e in
              let S1 = Seeded-start x done s.depth f.after.depth x_source S f.deepened in
              let r =
                follow_sources-FollowedAll fuel es (x ∷ done) f.after m
                  (λ u h. inside u (or_inr (u == x) (elem u es) h)) S1 (rw f.marks rest) in
              record {
                after = r.after;
                returns = rw (follow_sources, f.returns) r.returns;
                marks = r.marks;
                seeded = λ u h. elim h [
                  | inr d ↦ r.seeded u (inr (or_inr (u == x) (elem u done) d))
                  | inl h' ↦ elim (elem_cons u x es h') [
                    | inl p ↦ r.seeded u (inr (ground (arith, p)))
                    | inr i ↦ r.seeded u (inl i)
                  ]
                ];
                values = r.values;
              }
        ]
