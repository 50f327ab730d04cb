-- ===== src/Graph/Connectivity.antt =====
-- Proofs about csapex_core/src/model/graph/graph_impl.cpp, `buildConnectedComponents`: the components
-- are those of the graph.
use csapex.Base.{
  ℕ, zero, suc, ◌≤◌, ◌<◌, ◌≡◌, ◌↔◌, refl, sym, ap, ◌∙◌, ◌==◌, ==_refl, true, false, List, [], ◌∷◌,
  Option, none, some, elem, update, length, inl, inr, ◌⊎◌, IsDistinct, arith,
}
use csapex.Graph.{Graph, Components, label, clear_components, build_connected_components}
use csapex.Graph.Search.{Reached, here, there, elem_cons, update_cases, update_self}
use csapex.Graph.Components.{IsUndirected}
use csapex.Graph.Edges.{
  IsConsistent, Connected, IsUndirected-consistent, Connected-Reached, Reached-Connected,
}
use csapex.Graph.Fuel.{search-Searched, unassigned_le}
use csapex.Graph.Labels.{Labelling, Searching-start, Labelling-next}

-- What the outer loop leaves.
pub record Labelled (g : Graph) (r : Option Components) : Type 0 where
  pub last : ℕ
  pub found : Components
  pub returns : r ≡ some found
  pub labelling : Labelling g last [] found

label-Labelled :
    (fuel inner : ℕ) (g : Graph) (k : ℕ) (unmarked : List ℕ) (comp : Components)
    → IsUndirected g
    → Labelling g k unmarked comp
    → length unmarked ≤ fuel
    → length g.vertices < inner
    → Labelled g (label fuel inner g k unmarked comp)
unfolding label
label-Labelled fuel inner g k [] comp consistent L le enough = record {
  last = k;
  found = comp;
  returns = refl;
  labelling = L;
}
label-Labelled zero inner g k (start ∷ rest) comp consistent L le enough =
    absurd (omega (arith, le))
label-Labelled (suc fuel) inner g k (start ∷ rest) comp consistent L le enough =
    let comp1 = update comp start (some k) in
    let S =
      search-Searched g consistent k start inner (start ∷ rest) (start ∷ []) comp1
        (Searching-start g k start rest comp L)
        (omega (arith, enough, unassigned_le comp1 g.vertices)) in
    let less = S.first start [] refl (rw (==_refl start) refl) in
    let R =
      label-Labelled fuel inner g (suc k) S.left S.found consistent
        (Labelling-next g k start rest comp L S.left S.found S.invariant S.extends)
        (omega (arith, le, less)) enough in
    record {
      last = R.last;
      found = R.found;
      returns = rw (label, S.returns) R.returns;
      labelling = R.labelling;
    }

cleared :
    (vs : List ℕ) (comp : Components) (v : ℕ)
    → (elem v vs ≡ true) ⊎ (comp v ≡ none)
    → clear_components vs comp v ≡ none
cleared [] comp v (inl m) = cc m
cleared [] comp v (inr e) = e
cleared (u ∷ vs) comp v h = cleared vs (update comp u none) v (elim (update_cases comp u v none) [
  | inl p ↦ inr (ap (update comp u none) p ∙ update_self comp u none)
  | inr d ↦ still h d
])
  where
    still :
        (elem v (u ∷ vs) ≡ true) ⊎ (comp v ≡ none)
        → ((v == u) ≡ false) × (update comp u none v ≡ comp v)
        → (elem v vs ≡ true) ⊎ (update comp u none v ≡ none)
    still (inr e) d = inr (d.1 ∙ e)
    still (inl m) d = elim (elem_cons v u vs m) [
      | inl p ↦ cc (d.0, ap (λ i. i == u) p, ==_refl u)
      | inr n ↦ inl n
    ]

Labelling-cleared :
    (g : Graph) (comp : Components)
    → IsDistinct g.vertices
    → Labelling g 0 g.vertices (clear_components g.vertices comp)
Labelling-cleared g comp d = record {
  roots = λ j lt. absurd (omega (arith, lt));
  below = λ v j i c. cc (c, cleared g.vertices comp v (inl i));
  open_ = λ v m. cleared g.vertices comp v (inl m);
  closed = λ v j i n c w e. cc (i, n);
  marked = λ v i n. cc (i, n);
  inside = λ v m. m;
  distinct = d;
}

Reached-trans : (g : Graph) (u v w : ℕ) → Reached g u v → Reached g v w → Reached g u w
Reached-trans g u v w p (here x) = p
Reached-trans g u v w p (there x y z q e) = there u y z (Reached-trans g u x y p q) e

Reached-sym : (g : Graph) (u v : ℕ) → IsUndirected g → Reached g u v → Reached g v u
Reached-sym g u v consistent (here x) = here x
Reached-sym g u v consistent (there x y z p e) =
    Reached-trans g z y x (there z z y (here z) (consistent.symmetric y z e))
      (Reached-sym g x y consistent p)

-- A path stays in the component of a finished labelling.
path_component :
    (g : Graph) (k : ℕ) (comp : Components) (u v : ℕ)
    → IsUndirected g
    → Labelling g k [] comp
    → elem u g.vertices ≡ true
    → Reached g u v
    → (elem v g.vertices ≡ true) × (comp v ≡ comp u)
path_component g k comp u v consistent L i (here x) = (i, refl)
path_component g k comp u v consistent L i (there x y z p e) =
    let (j, same) = path_component g k comp x y consistent L i p in
    let (c, a) = L.marked y j refl in
    (consistent.inside y z e, L.closed y c j refl a z e ∙ sym a ∙ same)

-- Where the graph is consistent and its vertices are distinct, `buildConnectedComponents` ends (with
-- fuel for a round per vertex outside, and one more inside), gives each vertex a component, and two
-- vertices the same one exactly if a path of edges joins them.
pub build_connected_components-Connected :
    (g : Graph) (comp : Components) (fuel inner u v : ℕ)
    → IsConsistent g
    → IsDistinct g.vertices
    → length g.vertices ≤ fuel
    → length g.vertices < inner
    → elem u g.vertices ≡ true
    → elem v g.vertices ≡ true
    → (found : Components) × (build_connected_components fuel inner g comp ≡ some found)
      × ((j : ℕ) × (found u ≡ some j))
      × ((found u ≡ found v) ↔ Connected g u v)
unfolding build_connected_components
build_connected_components-Connected g comp fuel inner u v C d le enough iu iv =
    let both = IsUndirected-consistent g C in
    let R =
      label-Labelled fuel inner g 0 g.vertices (clear_components g.vertices comp) both
        (Labelling-cleared g comp d) le enough in
    let L = R.labelling in
    let (j, a) = L.marked u iu refl in
    let (s, f) = L.roots j (L.below u j iu a) in
    (
      R.found,
      R.returns,
      (j, a),
      (
        λ same.
            Connected-Reached g u v
              (Reached-trans g u s v (Reached-sym g s u both (f u iu a)) (f v iv (sym same ∙ a))),
        λ p. sym (path_component g R.last R.found u v both L iu (Reached-Connected g u v p)).1,
      ),
    )
