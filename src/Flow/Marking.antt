-- ===== src/Flow/Marking.antt =====
-- Proofs about csapex_core/src/msg/input_transition.cpp, `forwardMessages`: what it asserts of the
-- connections, and the loop that marks them read.
use csapex.Base.{
  ℕ, ◌≡◌, refl, ap, ◌∙◌, Bool, true, false, not, List, [], ◌∷◌, ◌&&◌, ◌||◌, elem, arith,
  if◌then◌else◌, ◌==◌, ==_iff, ==_refl, ==_not, Bool-cases, inl, inr, ◌⊎◌, all-intro, All,
}
use csapex.Base.Result.{ok, for_each, Ensures, Ensures-ok, Ensures-bind, Ensures-mono}
use csapex.Flow.Net.{
  Net, State, not_initialized, unread, read, is_state, Connection, is_enabled, put_connection,
}
use csapex.Flow.Transition.{are_all_connections, is_one_connection, has_connection}
use csapex.Flow.Acknowledge.{set_state}
use csapex.Flow.InputTransition.{check_holds, mark_read}
use csapex.Flow.Forwarding.{IsReady}

module _ (n : Net) where
  pub ready_none_done :
      (cs : List ℕ) → All (IsReady n) cs → is_one_connection not_initialized cs n ≡ false
  unfolding is_one_connection
  ready_none_done [] h = refl
  ready_none_done (c ∷ cs) (inl e, h) = ground (arith, e, ready_none_done cs h)
  ready_none_done (c ∷ cs) (inr u, h) = ground (arith, u, ready_none_done cs h)

  pub unread_everywhere :
      (cs : List ℕ) → All (IsReady n) cs → are_all_connections unread cs n ≡ true
  unfolding are_all_connections
  unread_everywhere [] h = refl
  unread_everywhere (c ∷ cs) (inl e, h) = ground (arith, e, unread_everywhere cs h)
  unread_everywhere (c ∷ cs) (inr u, h) = ground (arith, u, unread_everywhere cs h)

  -- One enabled connection is unread, so not all are in another state.
  pub unread_somewhere :
      (s : State) (cs : List ℕ)
      → is_state unread s ≡ false
      → has_connection cs n ≡ true
      → All (IsReady n) cs
      → are_all_connections s cs n ≡ false
  unfolding are_all_connections has_connection
  unread_somewhere s [] x p h = cc
  unread_somewhere s (c ∷ cs) x p (inl e, h) = rw e (unread_somewhere s cs x (rw e at p) h)
  unread_somewhere s (c ∷ cs) x p (inr u, h) = elim (Bool-cases (is_enabled n c)) [
    | inl e ↦ rw (e, u, x) refl
    | inr e ↦ rw e (unread_somewhere s cs x (rw e at p) h)
  ]

  pub for_each-check_holds : (cs : List ℕ) → All (IsReady n) cs → for_each check_holds cs n ≡ ok n
  unfolding for_each check_holds
  for_each-check_holds [] h = refl
  for_each-check_holds (c ∷ cs) (inl e, h) = rw e (for_each-check_holds cs h)
  for_each-check_holds (c ∷ cs) (inr u, h) = elim (Bool-cases (is_enabled n c)) [
    | inl e ↦ rw (e, u) (for_each-check_holds cs h)
    | inr e ↦ rw e (for_each-check_holds cs h)
  ]

-- `n'` is `n` with the enabled connections of `cs` read.
pub record Marked (cs : List ℕ) (n n' : Net) : Type 0 where
  pub connections :
      (d : ℕ)
      → n'.connection d ≡ (
          if elem d cs && is_enabled n d
          then record (n.connection d) { state = read }
          else n.connection d)
  pub outputs : n'.output ≡ n.output
  pub inputs : n'.input ≡ n.input
  pub input_transitions : n'.input_transition ≡ n.input_transition
  pub output_transitions : n'.output_transition ≡ n.output_transition

-- The connection is not enabled, or it holds a token.
abbrev pub IsHolding : Net → ℕ → Type 0
IsHolding n c =
    (is_enabled n c ≡ false) ⊎ (((n.connection c).state ≡ unread) ⊎ ((n.connection c).state ≡ read))

set_state-holding :
    (c : ℕ) (n : Net)
    → ((n.connection c).state ≡ unread) ⊎ ((n.connection c).state ≡ read)
    → set_state read c n ≡ ok (put_connection c (record (n.connection c) { state = read }) n)
unfolding set_state
set_state-holding c n (inl u) = ground arith
set_state-holding c n (inr r) = ground arith

mark_read-Marked : (c : ℕ) (n : Net) → IsHolding n c → Ensures (Marked (c ∷ []) n) (mark_read c n)
unfolding mark_read
mark_read-Marked c n h = elim (Bool-cases (is_enabled n c)) [
  | inr e ↦ rw e (
      Ensures-ok n record {
        connections = λ d. elim (Bool-cases (d == c)) [
          | inl q ↦ rw ((==_iff d c).0 q, ==_refl c, e)
          | inr q ↦ rw q
        ];
        outputs = refl;
        inputs = refl;
        input_transitions = refl;
        output_transitions = refl;
      })
  | inl e ↦
      rw (e, set_state-holding c n (held e h))
        (Ensures-ok _ record {
          connections = λ d. elim (Bool-cases (d == c)) [
            | inl q ↦ rw ((==_iff d c).0 q, ==_refl c, e)
            | inr q ↦ rw (==_not d c q, q)
          ];
          outputs = refl;
          inputs = refl;
          input_transitions = refl;
          output_transitions = refl;
        })
]
  where
    held :
        is_enabled n c ≡ true
        → IsHolding n c
        → ((n.connection c).state ≡ unread) ⊎ ((n.connection c).state ≡ read)
    held e (inl u) = cc
    held e (inr s) = s

mark_ends :
    (b : Bool) (u v : Connection)
    → v ≡ (if b then record u { state = read } else u)
    → (v.from ≡ u.from) × (v.to ≡ u.to)
mark_ends true u v h = (ap (λ (w : Connection). w.from) h, ap (λ (w : Connection). w.to) h)
mark_ends false u v h = (ap (λ (w : Connection). w.from) h, ap (λ (w : Connection). w.to) h)

Marked-is_enabled :
    (cs : List ℕ) (n m : Net) → Marked cs n m → (d : ℕ) → is_enabled m d ≡ is_enabled n d
unfolding is_enabled
Marked-is_enabled cs n m f d =
    let (from, to) =
      mark_ends (elem d cs && is_enabled n d) (n.connection d) (m.connection d) (f.connections d) in
    rw (from, to, f.outputs, f.inputs) refl

mark_holding :
    (b : Bool) (u v : Connection)
    → v ≡ (if b then record u { state = read } else u)
    → (u.state ≡ unread) ⊎ (u.state ≡ read)
    → (v.state ≡ unread) ⊎ (v.state ≡ read)
mark_holding true u v h s = inr (ap (λ (w : Connection). w.state) h)
mark_holding false u v h (inl s) = inl (ap (λ (w : Connection). w.state) h ∙ s)
mark_holding false u v h (inr s) = inr (ap (λ (w : Connection). w.state) h ∙ s)

Marked-IsHolding :
    (cs : List ℕ) (n m : Net) → Marked cs n m → (d : ℕ) → IsHolding n d → IsHolding m d
Marked-IsHolding cs n m f d (inl e) = inl (Marked-is_enabled cs n m f d ∙ e)
Marked-IsHolding cs n m f d (inr s) = inr (
    mark_holding (elem d cs && is_enabled n d) (n.connection d) (m.connection d) (f.connections d)
      s)

All-Marked :
    (cs ds : List ℕ) (n m : Net) → Marked cs n m → All (IsHolding n) ds → All (IsHolding m) ds
All-Marked cs [] n m f h = tt
All-Marked cs (d ∷ ds) n m f h = (Marked-IsHolding cs n m f d h.0, All-Marked cs ds n m f h.1)

mark_again :
    (b e enabled : Bool) (u v w : Connection)
    → v ≡ (if (b || false) && enabled then record u { state = read } else u)
    → w ≡ (if e && enabled then record v { state = read } else v)
    → w ≡ (if (b || e) && enabled then record u { state = read } else u)
mark_again true true true u v w p q = q ∙ ap (λ (k : Connection). record k { state = read }) p
mark_again true true false u v w p q = q ∙ p
mark_again true false enabled u v w p q = q ∙ p
mark_again false e enabled u v w p q =
    q ∙ ap (λ (k : Connection). if e && enabled then record k { state = read } else k) p

Marked-cons :
    (c : ℕ) (cs : List ℕ) (n m n' : Net)
    → Marked (c ∷ []) n m
    → Marked cs m n'
    → Marked (c ∷ cs) n n'
Marked-cons c cs n m n' f g = record {
  connections = λ d.
      mark_again (d == c) (elem d cs) (is_enabled n d) (n.connection d) (m.connection d)
        (n'.connection d) (f.connections d)
        (g.connections d
          ∙ ap
              (λ b.
                if elem d cs && b then record (m.connection d) { state = read } else m.connection d)
              (Marked-is_enabled (c ∷ []) n m f d));
  outputs = g.outputs ∙ f.outputs;
  inputs = g.inputs ∙ f.inputs;
  input_transitions = g.input_transitions ∙ f.input_transitions;
  output_transitions = g.output_transitions ∙ f.output_transitions;
}

pub for_each-Marked :
    (cs : List ℕ) (n : Net) → All (IsHolding n) cs → Ensures (Marked cs n) (for_each mark_read cs n)
unfolding for_each
for_each-Marked [] n h = Ensures-ok n record {
  connections = λ d. refl;
  outputs = refl;
  inputs = refl;
  input_transitions = refl;
  output_transitions = refl;
}
for_each-Marked (c ∷ cs) n h =
    Ensures-bind (mark_read c n) (for_each mark_read cs) (mark_read-Marked c n h.0) λ m f.
      Ensures-mono _ (for_each-Marked cs m (All-Marked (c ∷ []) cs n m f h.1))
        (λ n' g. Marked-cons c cs n m n' f g)

marked_state :
    (b : Bool) (u v : Connection)
    → v ≡ (if true && b then record u { state = read } else u)
    → not (b && not (is_state v.state read)) ≡ true
marked_state true u v h = rw (ap (λ (w : Connection). w.state) h) refl
marked_state false u v h = refl

pub Marked-all_read :
    (cs : List ℕ) (n m : Net) → Marked cs n m → are_all_connections read cs m ≡ true
unfolding are_all_connections
Marked-all_read cs n m f = all-intro _ cs λ d e. rw (Marked-is_enabled cs n m f d) (
    marked_state (is_enabled n d) (n.connection d) (m.connection d) (
      f.connections d
      ∙ ap
          (λ b.
            if b && is_enabled n d
            then record (n.connection d) { state = read }
            else n.connection d)
          e))
