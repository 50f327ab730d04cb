-- ===== src/Graph/Classified.antt =====
-- Proofs about csapex_core/src/model/graph/graph_impl.cpp, `calculateDepths`: what the roles of vertices mean.
use csapex.Base.{
  ℕ, ◌≤◌, ◌≡◌, ◌⊎◌, refl, ap, subst, ◌∙◌, ◌==◌, ==_iff, ==_refl, Bool, true, false, ◌&&◌, ◌||◌,
  List, [], ◌∷◌, Option, some, elem, update, length, Bool-cases, inl, inr, if◌then◌else◌, arith,
}
use csapex.Graph.{Graph, erase}
use csapex.Graph.Search.{or_inr, or_cases}
use csapex.Graph.Erase.{elem-erase}
use csapex.Graph.Edges.{IsConsistent}
use csapex.Graph.Spread.{begin, unmarked}
use csapex.Graph.Marks.{unmarked-le-length}
use csapex.Graph.Counterpart.{
  Tracing, is_single, same_depth, Roles, no_roles, mark_others, head_or, assign_roles,
  find_counterparts,
}
use csapex.Graph.Trace.{IsSort, LeadsTo, Sound, trace-Traced}

mark_others_cases :
    (v u : ℕ) (xs : List ℕ) (m : ℕ → Bool)
    → mark_others v xs m u ≡ true
    → (m u ≡ true) ⊎ (elem u xs ≡ true)
mark_others_cases v u [] m h = inl h
mark_others_cases v u (x ∷ xs) m h =
    elim (mark_others_cases v u xs (if x == v then m else update m x true) h) [
      | inr i ↦ inr (or_inr (u == x) (elem u xs) i)
      | inl b ↦ elim (Bool-cases (x == v)) [
        | inl q ↦ inl (rw q at b)
        | inr q ↦ elim (Bool-cases (x == u)) [
          | inl e ↦ inr (rw ((==_iff x u).0 e, ==_refl u) refl)
          | inr n ↦ inl (rw (q, n) at b)
        ]
      ]
    ]

-- Marking more keeps what is marked less.
mark_others_le :
    (v : ℕ) (xs : List ℕ) (m n : ℕ → Bool)
    → ((u : ℕ) → m u ≡ true → n u ≡ true)
    → (u : ℕ) → mark_others v xs m u ≡ true
    → mark_others v xs n u ≡ true
mark_others_le v [] m n le u h = le u h
mark_others_le v (x ∷ xs) m n le u h = elim (Bool-cases (x == v)) [
  | inl q ↦ rw q (mark_others_le v xs m n le u (rw q at h))
  | inr q ↦ rw q (
      mark_others_le v xs (update m x true) (update n x true)
        (λ w i. elim (Bool-cases (x == w)) [ inl e ↦ rw e refl | inr d ↦ rw d (le w (rw d at i)) ])
        u (rw q at h))
]

mark_others_grows :
    (v : ℕ) (xs : List ℕ) (m : ℕ → Bool) (u : ℕ) → m u ≡ true → mark_others v xs m u ≡ true
mark_others_grows v [] m u h = h
mark_others_grows v (x ∷ xs) m u h = elim (Bool-cases (x == v)) [
  | inl q ↦ rw q (mark_others_grows v xs m u h)
  | inr q ↦ rw q (
      mark_others_grows v xs (update m x true) u
        (elim (Bool-cases (x == u)) [ inl e ↦ rw e refl | inr d ↦ rw d h ]))
]

single_head : (v : ℕ) (xs : List ℕ) → is_single xs ≡ true → elem (head_or v xs) xs ≡ true
single_head v [] h = cc h
single_head v (x ∷ []) h = rw (==_refl x) refl
single_head v (x ∷ y ∷ xs) h = cc h

-- A vertex leads to one of the vertices `js`.
abbrev pub LeadsToOne : Graph → List ℕ → ℕ → Type 0
LeadsToOne g js u = (j : ℕ) × (elem j js ≡ true) × LeadsTo g j u

-- The roles of vertices are right: counterparts, and what leads to joining vertices or is combined by them, lead
-- to one of these.
pub record IsJustified (g : Graph) (js : List ℕ) (r : Roles) : Type 0 where
  pub counterpart : (u : ℕ) → r.is_joining_vertex_counterpart u ≡ true → LeadsToOne g js u
  pub leading : (u : ℕ) → r.is_leading_to_joining_vertex u ≡ true → LeadsToOne g js u
  pub combined :
      (u : ℕ) → r.is_combined_by_joining_vertex u ≡ true → r.is_leading_to_joining_vertex u ≡ true

module _ (g : Graph) (js : List ℕ) (v : ℕ) (in_js : elem v js ≡ true) where
  assign_roles-IsJustified :
      (s : Tracing) (closed : Bool) (r : Roles)
      → ((u : ℕ) → elem u s.done ≡ true → LeadsTo g v u)
      → ((u : ℕ) → elem u s.minimum ≡ true → LeadsTo g v u)
      → (closed ≡ true → is_single s.minimum ≡ true)
      → IsJustified g js r
      → IsJustified g js (assign_roles v s closed r)
  unfolding assign_roles
  assign_roles-IsJustified s closed r finished lowest single J =
      let one = same_depth s.min_level (some 0) && is_single s.minimum in
      let top = head_or v s.minimum in
      let left : List ℕ = if one then erase top s.done else s.done in
      let is_one : closed || one ≡ true → is_single s.minimum ≡ true =
        λ h. elim (or_cases closed one h) [ inl c ↦ single c | inr o ↦ ground (arith, o) ] in
      let in_done : (u : ℕ) → elem u left ≡ true → elem u s.done ≡ true = λ u h.
        elim (Bool-cases one) [ inl o ↦ elem-erase top u s.done (rw o at h) | inr o ↦ rw o at h ] in
      record {
        counterpart = λ u h. elim (Bool-cases (closed || one)) [
          | inr c ↦ J.counterpart u (rw c at h)
          | inl c ↦ elim (Bool-cases (top == u)) [
            | inl e ↦ (
              v,
              in_js,
              subst (LeadsTo g v) ((==_iff top u).0 e)
                  (lowest top (single_head v s.minimum (is_one c))),
            )
            | inr n ↦ J.counterpart u (rw (c, n) at h)
          ]
        ];
        leading = λ u h. elim (mark_others_cases v u left r.is_leading_to_joining_vertex h) [
          | inl b ↦ J.leading u b
          | inr i ↦ (v, in_js, finished u (in_done u i))
        ];
        combined = λ u h. elim (Bool-cases (closed || one)) [
          | inl c ↦
              mark_others_le v left r.is_combined_by_joining_vertex r.is_leading_to_joining_vertex
                J.combined u (rw c at h)
          | inr c ↦
              mark_others_grows v left r.is_leading_to_joining_vertex u (J.combined u (rw c at h))
        ];
      }

module _ (sort : List ℕ → List ℕ) (S : IsSort sort) (g : Graph) (C : IsConsistent g)
    (depth : ℕ → Option ℕ) (fuel : ℕ) (enough : length g.vertices ≤ fuel) where
  start-Sound :
      (v : ℕ)
      → elem v g.vertices ≡ true
      → Sound sort S g C depth v
          (record { queue = v ∷ []; done = []; minimum = []; min_level = depth v })
  start-Sound v i = record {
    fresh = λ u h. refl;
    inside = λ u h. let p : u ≡ v = ground (arith, h) in ap (λ x. elem x g.vertices) p ∙ i;
    distinct = (refl, tt);
    queued = λ u h. begin u (ground (arith, h));
    finished = λ u h. cc h;
    lowest = λ u h. cc h;
  }

  -- The loop over some of the joining vertices
  pub record Classified (all vs : List ℕ) (r : Roles) (o : Option Roles) : Type 0 where
    pub after : Roles
    pub returns : o ≡ some after
    pub justified : IsJustified g all after
    pub joining : (u : ℕ) → after.is_joining_vertex u ≡ elem u vs || r.is_joining_vertex u

  find_counterparts-Classified :
      (all vs : List ℕ) (r : Roles)
      → ((j : ℕ) → elem j vs ≡ true → (elem j all ≡ true) × (elem j g.vertices ≡ true))
      → IsJustified g all r
      → Classified all vs r (find_counterparts fuel sort g depth vs r)
  unfolding find_counterparts assign_roles
  find_counterparts-Classified all [] r inside J = record {
    after = r;
    returns = refl;
    justified = J;
    joining = λ u. refl;
  }
  find_counterparts-Classified all (v ∷ vs) r inside J =
      let here = inside v (rw (==_refl v) refl) in
      let joining : Roles = record r { is_joining_vertex = update r.is_joining_vertex v true } in
      let start : Tracing = record {
        queue = v ∷ [];
        done = [];
        minimum = [];
        min_level = depth v;
      } in
      let few : unmarked (λ u. false) g.vertices ≤ fuel =
        omega (arith, enough, unmarked-le-length (λ u. false) g.vertices) in
      let t = trace-Traced sort S g C depth v fuel (v ∷ []) start (start-Sound v here.1) few in
      let J1 : IsJustified g all joining = record {
        counterpart = J.counterpart;
        leading = J.leading;
        combined = J.combined;
      } in
      let J2 =
        assign_roles-IsJustified g all v here.0 t.after t.closed joining t.finished t.lowest
          t.single J1 in
      let rest =
        find_counterparts-Classified all vs (assign_roles v t.after t.closed joining)
          (λ j h. inside j (or_inr (j == v) (elem j vs) h)) J2 in
      record {
        after = rest.after;
        returns = rw (find_counterparts, t.returns) rest.returns;
        justified = rest.justified;
        joining = λ u. rest.joining u ∙ elim (Bool-cases (v == u)) [
          | inl q ↦ rw (q, (==_iff v u).0 q, ==_refl u) (ground arith)
          | inr q ↦ rw q (ground (arith, q))
        ];
      }

  -- In a consistent graph the search for the counterparts of the vertices that join streams ends: these are marked
  -- as joining vertices and no others; every counterpart, and every vertex that is marked as leading to a joining
  -- vertex, is one of them or leads to one; and a vertex that is marked as combined by a joining vertex is marked
  -- as leading to one. As many rounds as there are vertices are enough for each.
  pub find_counterparts-IsJustified :
      (joins : List ℕ)
      → ((j : ℕ) → elem j joins ≡ true → elem j g.vertices ≡ true)
      → (r : Roles) × (find_counterparts fuel sort g depth joins no_roles ≡ some r)
        × IsJustified g joins r
        × ((u : ℕ) → r.is_joining_vertex u ≡ elem u joins)
  find_counterparts-IsJustified joins inside =
      let c =
        find_counterparts-Classified joins joins no_roles (λ j h. (h, inside j h))
          (record { counterpart = λ u h. cc h; leading = λ u h. cc h; combined = λ u h. cc h }) in
      (c.after, c.returns, c.justified, λ u. c.joining u ∙ ground arith)
