-- ===== src/Graph/Linked.antt =====
-- Proofs about csapex_core/src/model/graph/graph_impl.cpp, `addNode` and `addConnection`: the vertices, the
-- sources and the sinks of a graph agree with its connections.
use csapex.Base.{
  ℕ, ◌≡◌, refl, sym, ◌∙◌, ◌==◌, ==_iff, Bool, true, false, not, ◌&&◌, ◌||◌, List, [], ◌∷◌, ◌++◌,
  any, elem, IsDistinct, Bool-cases, inl, inr, arith,
}
use csapex.Graph.{erase}
use csapex.Graph.Search.{elem-append}
use csapex.Graph.Edges.{IsConsistent}
use csapex.Graph.Erase.{erase_other, erase_self}
use csapex.Graph.Deletion.{Edge, Network, joins_vertices}

-- Whether a connection ends, or begins, at a vertex.
abbrev pub ends_at : ℕ → Edge → Bool
ends_at v e = not e.detached && e.to_vertex == v

abbrev pub begins_at : ℕ → Edge → Bool
begins_at v e = not e.detached && e.from_vertex == v

abbrev pub any_edge : (Edge → Bool) → Network → Bool
any_edge p n = any (λ c. p (n.edge c)) n.edges

-- A vertex is a child of another, and that a parent of it, exactly if a connection joins them; the sources are
-- the vertices where no connection ends, and the sinks those where none begins. No connection joins a vertex to
-- itself.
pub record IsLinked (n : Network) : Type 0 where
  pub child : (v w : ℕ) → elem w (n.graph.vertex v).children ≡ any_edge (joins_vertices v w) n
  pub parent : (v w : ℕ) → elem v (n.graph.vertex w).parents ≡ any_edge (joins_vertices v w) n
  pub source :
      (v : ℕ) → elem v n.graph.sources ≡ elem v n.graph.vertices && not (any_edge (ends_at v) n)
  pub sink :
      (v : ℕ) → elem v n.graph.sinks ≡ elem v n.graph.vertices && not (any_edge (begins_at v) n)
  pub tail : (v : ℕ) → any_edge (begins_at v) n ≡ true → elem v n.graph.vertices ≡ true
  pub head : (v : ℕ) → any_edge (ends_at v) n ≡ true → elem v n.graph.vertices ≡ true
  pub loopless :
      (c : ℕ) → elem c n.edges ≡ true → ((n.edge c).from_vertex == (n.edge c).to_vertex) ≡ false
  pub distinct_vertices : IsDistinct n.graph.vertices
  pub distinct_sources : IsDistinct n.graph.sources
  pub distinct_sinks : IsDistinct n.graph.sinks

pub any-snoc : (p : ℕ → Bool) (xs : List ℕ) (c : ℕ) → any p (xs ++ c ∷ []) ≡ any p xs || p c
any-snoc p [] c = ground arith
any-snoc p (x ∷ xs) c = rw (any-snoc p xs c) (ground arith)

pub snoc-IsDistinct :
    (x : ℕ) (xs : List ℕ) → elem x xs ≡ false → IsDistinct xs → IsDistinct (xs ++ x ∷ [])
snoc-IsDistinct x [] new d = (refl, tt)
snoc-IsDistinct x (y ∷ ys) new d = (
  elem-append y ys (x ∷ []) ∙ ground (arith, d.0, new),
  snoc-IsDistinct x ys (ground (arith, new)) d.1,
)

-- A set without one of its members
pub elem-erase_set :
    (u v : ℕ) (xs : List ℕ) → IsDistinct xs → elem v (erase u xs) ≡ not (v == u) && elem v xs
elem-erase_set u v xs d = elim (Bool-cases (v == u)) [
  | inl q ↦ rw (q, (==_iff v u).0 q) (erase_self u xs d)
  | inr q ↦ rw q (erase_other u v xs q)
]

-- Every ends of a connection are joined by it.
pub any_joins :
    (edge : ℕ → Edge) (v w : ℕ) (cs : List ℕ)
    → any (λ c. joins_vertices v w (edge c)) cs ≡ true
    → (any (λ c. begins_at v (edge c)) cs ≡ true) × (any (λ c. ends_at w (edge c)) cs ≡ true)
any_joins edge v w [] h = cc h
any_joins edge v w (c ∷ cs) h = elim (Bool-cases (joins_vertices v w (edge c))) [
  | inl q ↦ (ground (arith, q), ground (arith, q))
  | inr q ↦ let i = any_joins edge v w cs (rw q at h) in (ground (arith, i.0), ground (arith, i.1))
]

-- Such a graph is consistent, and its sources are among its vertices.
pub IsLinked-IsConsistent : (n : Network) → IsLinked n → IsConsistent n.graph
IsLinked-IsConsistent n L = record {
  child_parent = λ v w e. L.parent v w ∙ sym (L.child v w) ∙ e;
  parent_child = λ v w e. L.child w v ∙ sym (L.parent w v) ∙ e;
  inside = λ v w e. L.head w (any_joins n.edge v w n.edges (sym (L.child v w) ∙ e)).1;
  outside = λ v w e. L.tail w (any_joins n.edge w v n.edges (sym (L.parent w v) ∙ e)).0;
}

pub IsLinked-sources_in :
    (n : Network)
    → IsLinked n
    → (s : ℕ) → elem s n.graph.sources ≡ true
    → elem s n.graph.vertices ≡ true
IsLinked-sources_in n L s m = let h = sym (L.source s) ∙ m in ground (arith, h)
