-- ===== src/Flow/Forwarded.antt =====
-- Proofs about csapex_core/src/msg/input_transition.cpp, `forwardMessages`: every input of a node gets
-- the token of its connection.
use csapex.Base.{
  ℕ, ◌≡◌, refl, ap, sym, ◌∙◌, Bool, true, false, not, List, [], ◌∷◌, ◌&&◌, ◌||◌, elem, any-cong,
  some, subst, arith, if◌then◌else◌, inl, inr, All,
}
use csapex.Base.Result.{ok, ◌>>=◌, Ensures, Ensures-ok, Ensures-bind, Ensures-mono}
use csapex.Flow.Net.{Net, not_initialized, read, Connection, Input, is_enabled}
use csapex.Flow.Transition.{has_connection}
use csapex.Flow.Acknowledge.{is_empty}
use csapex.Flow.InputTransition.{
  has_enabled_connection, forward_tokens, forward_messages, set_flags,
}
use csapex.Flow.Forwarding.{IsReady, IsFed, Handed, Handed-is_enabled, for_each-Handed, token_for}
use csapex.Flow.Marking.{
  ready_none_done, unread_everywhere, unread_somewhere, for_each-check_holds, IsHolding, Marked,
  for_each-Marked, Marked-all_read,
}

-- `n'` is `n` with the enabled connections of `cs` read and their tokens at the inputs `is`.
pub record Forwarded (cs is : List ℕ) (n n' : Net) : Type 0 where
  pub connections :
      (d : ℕ)
      → n'.connection d ≡ (
          if elem d cs && is_enabled n d
          then record (n.connection d) { state = read }
          else n.connection d)
  pub messages :
      (d : ℕ)
      → (n'.input d).message ≡ (if elem d is then some (token_for n d) else (n.input d).message)
  pub outputs : n'.output ≡ n.output

Handed-IsReady :
    (is cs : List ℕ) (n m : Net) → Handed is n m → All (IsReady n) cs → All (IsReady m) cs
Handed-IsReady is [] n m f h = tt
Handed-IsReady is (c ∷ cs) n m f (inl e, h) =
    (inl (Handed-is_enabled is n m f c ∙ e), Handed-IsReady is cs n m f h)
Handed-IsReady is (c ∷ cs) n m f (inr u, h) =
    (inr (ap (λ (g : ℕ → Connection). (g c).state) f.connections ∙ u), Handed-IsReady is cs n m f h)

ready-IsHolding : (cs : List ℕ) (n : Net) → All (IsReady n) cs → All (IsHolding n) cs
ready-IsHolding [] n h = tt
ready-IsHolding (c ∷ cs) n (inl e, h) = (inl e, ready-IsHolding cs n h)
ready-IsHolding (c ∷ cs) n (inr u, h) = (inr (inl u), ready-IsHolding cs n h)

Handed-has_connection :
    (is cs : List ℕ) (n m : Net) → Handed is n m → has_connection cs m ≡ has_connection cs n
unfolding has_connection
Handed-has_connection is cs n m f =
    any-cong (λ c. is_enabled m c) (λ c. is_enabled n c) cs (Handed-is_enabled is n m f)

Marked-Handed :
    (cs is : List ℕ) (n m n' : Net) → Handed is n m → Marked cs m n' → Forwarded cs is n n'
Marked-Handed cs is n m n' f g = record {
  connections = λ d.
      g.connections d
      ∙ ap
          (λ b. if elem d cs && b then record (m.connection d) { state = read } else m.connection d)
          (Handed-is_enabled is n m f d)
      ∙ ap
          (λ (h : ℕ → Connection).
            if elem d cs && is_enabled n d then record (h d) { state = read } else h d)
          f.connections;
  messages = λ d. ap (λ (h : ℕ → Input). (h d).message) g.inputs ∙ f.messages d;
  outputs = g.outputs ∙ f.outputs;
}

or_true : (b : Bool) → b || not false ≡ true
or_true true = refl
or_true false = refl

forward_tokens-Forwarded :
    (t : ℕ) (n : Net)
    → (n.input_transition t).forwarded ≡ false
    → has_connection (n.input_transition t).connections n ≡ true
    → All (IsReady n) (n.input_transition t).connections
    → All (IsFed n) (n.input_transition t).inputs
    → Ensures
        (Forwarded (n.input_transition t).connections (n.input_transition t).inputs n)
        (forward_tokens t n)
unfolding forward_tokens
forward_tokens-Forwarded t n p some_enabled ready fed =
    let cs = (n.input_transition t).connections in
    let is = (n.input_transition t).inputs in
    let some_unread = unread_somewhere n read cs refl some_enabled ready in
    rw
      (
        p,
        ready_none_done n cs ready,
        unread_everywhere n cs ready,
        some_unread,
        or_true (is_empty cs),
      )
      (Ensures-bind _ _ (for_each-Handed is n fed) λ m f.
        let ready' = Handed-IsReady is cs n m f ready in
        let some' = Handed-has_connection is cs n m f ∙ some_enabled in
        rw
          (
            for_each-check_holds m cs ready',
            unread_somewhere m not_initialized cs refl some' ready',
          )
          (Ensures-bind _ _ (for_each-Marked cs m (ready-IsHolding cs m ready')) λ n' g.
            rw (Marked-all_read cs m n' g) (Ensures-ok n' (Marked-Handed cs is n m n' f g))))

set_flags_self :
    (forwarded processed : Bool) (t : ℕ) (n : Net)
    → ((set_flags forwarded processed t n).input_transition t).forwarded ≡ forwarded
      × (((set_flags forwarded processed t n).input_transition t).processed ≡ processed)
      × (((set_flags forwarded processed t n).input_transition t).connections
          ≡ (n.input_transition t).connections)
      × (((set_flags forwarded processed t n).input_transition t).inputs
          ≡ (n.input_transition t).inputs)
unfolding set_flags
set_flags_self forwarded processed t n = ground arith

-- `forwardMessages` where there is an enabled connection
forward_messages-eq :
    (t : ℕ) (n : Net)
    → (n.input_transition t).forwarded ≡ false
    → has_connection (n.input_transition t).connections n ≡ true
    → forward_messages t n
      ≡ (forward_tokens t (set_flags false false t n) >>= λ m. ok (set_flags true false t m))
unfolding forward_messages has_connection is_enabled set_flags
forward_messages-eq t n p c = simp (p, c) refl

-- The transition's flags do not matter for what `forward_tokens` does.
forward_flagged :
    (t : ℕ) (n : Net)
    → has_connection (n.input_transition t).connections n ≡ true
    → All (IsReady n) (n.input_transition t).connections
    → All (IsFed n) (n.input_transition t).inputs
    → Ensures
        (Forwarded (n.input_transition t).connections (n.input_transition t).inputs n)
        (forward_tokens t (set_flags false false t n))
unfolding has_connection has_enabled_connection is_enabled set_flags
forward_flagged t n c ready fed =
    let n1 = set_flags false false t n in
    let (f, p, cs, is) = set_flags_self false false t n in
    Ensures-mono _
      (forward_tokens-Forwarded t n1 f (ap (λ ds. has_connection ds n1) cs ∙ c)
        (subst (All (IsReady n1)) (sym cs) ready) (subst (All (IsFed n1)) (sym is) fed))
      λ m g. record {
        connections = λ d.
            g.connections d
            ∙ ap
                (λ ds.
                  if elem d ds && is_enabled n d
                  then record (n.connection d) { state = read }
                  else n.connection d)
                cs;
        messages = λ d.
            g.messages d
            ∙ ap (λ ds. if elem d ds then some (token_for n d) else (n.input d).message) is;
        outputs = g.outputs;
      }

-- Where the transition has not forwarded, some connection of it is enabled, every enabled one holds an
-- unread token, and every input with an enabled connection has that one alone: `forwardMessages`
-- succeeds; the enabled connections are read and no other changes; each input of the node holds the
-- token of its connection, or an empty one where it has none; the transition has forwarded and has not
-- processed.
pub forward_messages_hands_over :
    (t : ℕ) (n : Net)
    → (n.input_transition t).forwarded ≡ false
    → has_connection (n.input_transition t).connections n ≡ true
    → All (IsReady n) (n.input_transition t).connections
    → All (IsFed n) (n.input_transition t).inputs
    → Ensures
        (λ n'.
          ((d : ℕ)
            → n'.connection d ≡ (
                if elem d (n.input_transition t).connections && is_enabled n d
                then record (n.connection d) { state = read }
                else n.connection d))
          × ((d : ℕ)
              → (n'.input d).message ≡ (
                  if elem d (n.input_transition t).inputs
                  then some (token_for n d)
                  else (n.input d).message))
          × ((n'.input_transition t).forwarded ≡ true)
          × ((n'.input_transition t).processed ≡ false))
        (forward_messages t n)
unfolding set_flags
forward_messages_hands_over t n p c ready fed = rw (forward_messages-eq t n p c) (
    Ensures-bind _ _ (forward_flagged t n c ready fed) λ m g.
      let (f, q, cs, is) = set_flags_self true false t m in
      Ensures-ok _ (g.connections, g.messages, f, q))
