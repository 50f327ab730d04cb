-- ===== src/Flow/Processed.antt =====
-- Proofs about csapex_core/src/msg/input_transition.cpp, `notifyMessageProcessed`: when a node is done
-- with its input tokens, all its connections are acknowledged.
use csapex.Base.{
  ℕ, ◌≡◌, refl, ap, ◌∙◌, Bool, true, false, List, [], ◌∷◌, ◌&&◌, ◌||◌, not, elem, arith,
  if◌then◌else◌, ◌==◌, ==_iff, ==_refl, subst, Bool-cases, inl, inr, ◌⊎◌, All, all-elem,
}
use csapex.Base.Result.{failed, for_each, Ensures, Ensures-ok, Ensures-bind, Ensures-mono}
use csapex.Flow.Net.{
  Net, State, not_initialized, unread, read, Connection, InputTransition, is_enabled, is_state,
}
use csapex.Flow.Transition.{are_all_connections_in}
use csapex.Flow.Acknowledge.{set_state, set_token_processed}
use csapex.Flow.InputTransition.{set_flags, notify_inputs_processed}
use csapex.Flow.Acknowledged.{Settled, IsReadOrDone, set_token_processed-Settled}

-- Settling keeps every connection that can be acknowledged so.
Settled-IsReadOrDone :
    (c d : ℕ) (n n' : Net) → Settled (c ∷ []) n n' → IsReadOrDone d n → IsReadOrDone d n'
Settled-IsReadOrDone c d n n' s h = elim (Bool-cases (d == c)) [
  | inl e ↦ inr (ap (λ (v : Connection). v.state) (s.connections d) ∙ rw e)
  | inr e ↦ let same : n'.connection d ≡ n.connection d = s.connections d ∙ rw e in rw same h
]

All-Settled :
    (c : ℕ) (ds : List ℕ) (n n' : Net)
    → Settled (c ∷ []) n n'
    → All (λ d. IsReadOrDone d n) ds
    → All (λ d. IsReadOrDone d n') ds
All-Settled c [] n n' s h = tt
All-Settled c (d ∷ ds) n n' s h = (Settled-IsReadOrDone c d n n' s h.0, All-Settled c ds n n' s h.1)

abbrev settle : Bool → Connection → Connection
settle b v = if b then record v { state = not_initialized } else v

settle_again :
    (b e : Bool) (u v : Connection) → v ≡ settle (b || false) u → settle e v ≡ settle (b || e) u
settle_again true true u v h = ap (settle true) h
settle_again true false u v h = h
settle_again false e u v h = ap (settle e) h

Settled-cons :
    (c : ℕ) (cs : List ℕ) (a b n : Net)
    → Settled (c ∷ []) a b
    → Settled cs b n
    → Settled (c ∷ cs) a n
Settled-cons c cs a b n s t = record {
  connections = λ d. t.connections d ∙ settle_again (d == c) (elem d cs) _ _ (s.connections d);
  inputs = t.inputs ∙ s.inputs;
  input_transitions = t.input_transitions ∙ s.input_transitions;
  output_transitions = t.output_transitions ∙ s.output_transitions;
  ports =
      λ o. let (e, k, r) = s.ports o in let (e', k', r') = t.ports o in (e' ∙ e, k' ∙ k, r' ∙ r);
}

pub for_each-Settled :
    (cs : List ℕ) (n : Net)
    → All (λ c. IsReadOrDone c n) cs
    → Ensures (Settled cs n) (for_each set_token_processed cs n)
unfolding for_each
for_each-Settled [] n h = Ensures-ok n record {
  connections = λ d. refl;
  inputs = refl;
  input_transitions = refl;
  output_transitions = refl;
  ports = λ o. (refl, refl, refl);
}
for_each-Settled (c ∷ cs) n h =
    Ensures-bind (set_token_processed c n) (for_each set_token_processed cs)
      (set_token_processed-Settled c n h.0)
      λ m s.
        Ensures-mono _ (for_each-Settled cs m (All-Settled c cs n m s h.1))
          (λ n' t. Settled-cons c cs n m n' s t)

are_all_connections_in_lem :
    (cs : List ℕ) (n : Net)
    → All (λ c. IsReadOrDone c n) cs
    → are_all_connections_in read not_initialized cs n ≡ true
unfolding are_all_connections_in
are_all_connections_in_lem [] n h = refl
are_all_connections_in_lem (c ∷ cs) n (inl r, h) = ground (arith, are_all_connections_in_lem cs n h)
are_all_connections_in_lem (c ∷ cs) n (inr r, h) = ground (arith, are_all_connections_in_lem cs n h)

-- Where every connection of an input transition was read or is done, and the transition has not
-- acknowledged yet, `notifyMessageProcessed` succeeds: all its connections are done, no other
-- connection and no input changes, and the transition is processed and no longer forwarded.
pub notify_inputs_processed_settles :
    (t : ℕ) (n : Net)
    → (n.input_transition t).processed ≡ false
    → All (λ c. IsReadOrDone c n) (n.input_transition t).connections
    → Ensures
        (λ n'.
          ((d : ℕ)
            → n'.connection d ≡ (
                if elem d (n.input_transition t).connections
                then record (n.connection d) { state = not_initialized }
                else n.connection d))
          × (n'.input ≡ n.input)
          × ((n'.input_transition t).forwarded ≡ false)
          × ((n'.input_transition t).processed ≡ true))
        (notify_inputs_processed t n)
unfolding notify_inputs_processed set_flags
notify_inputs_processed_settles t n p h =
    let cs = (n.input_transition t).connections in
    rw (p, are_all_connections_in_lem cs n h)
      (Ensures-mono _ (for_each-Settled cs (set_flags false true t n) h) λ n' s. (
        s.connections,
        s.inputs,
        ap (λ (f : ℕ → InputTransition). (f t).forwarded) s.input_transitions ∙ rw (==_refl t),
        ap (λ (f : ℕ → InputTransition). (f t).processed) s.input_transitions ∙ rw (==_refl t),
      ))

-- A connection whose token was not read cannot be acknowledged.
pub set_token_processed-unread :
    (c : ℕ) (n : Net) → (n.connection c).state ≡ unread → set_token_processed c n ≡ failed
unfolding set_token_processed set_state
set_token_processed-unread c n u = ground arith

pub State-cases : (s : State) → (s ≡ unread) ⊎ ((s ≡ read) ⊎ (s ≡ not_initialized))
State-cases not_initialized = inr (inr refl)
State-cases unread = inl refl
State-cases read = inr (inl refl)

distinct :
    (d c : ℕ) (n : Net) → (n.connection d).state ≡ unread → IsReadOrDone c n → (d == c) ≡ false
distinct d c n u h = elim (Bool-cases (d == c)) [
  | inl e ↦ absurd (clash (subst (λ k. (n.connection k).state ≡ unread) ((==_iff d c).0 e) u) h)
  | inr e ↦ e
]
  where
    clash : (n.connection c).state ≡ unread → IsReadOrDone c n → ⊥
    clash v (inl r) = cc
    clash v (inr r) = cc

for_each-unread :
    (cs : List ℕ) (d : ℕ) (n : Net)
    → elem d cs ≡ true
    → (n.connection d).state ≡ unread
    → for_each set_token_processed cs n ≡ failed
unfolding for_each
for_each-unread [] d n m u = cc
for_each-unread (c ∷ cs) d n m u = elim (State-cases (n.connection c).state) [
  | inl v ↦ rw (set_token_processed-unread c n v)
  | inr h ↦
      let e = set_token_processed-Settled c n h in
      let other : (d == c) ≡ false = distinct d c n u h in
      let still : (e.value.connection d).state ≡ unread =
        ap (λ (v : Connection). v.state) (e.holds.connections d) ∙ rw other u in
      rw e.returns (for_each-unread cs d e.value (rw other at m) still)
]

unread_disabled :
    (d : ℕ) (cs : List ℕ) (n : Net)
    → (n.connection d).state ≡ unread
    → elem d cs ≡ true
    → are_all_connections_in read not_initialized cs n ≡ true
    → is_enabled n d ≡ false
unfolding are_all_connections_in
unread_disabled d cs n u m a =
    let here =
      all-elem
        (λ c. not (
          is_enabled n c
          && not (is_state (n.connection c).state read)
          && not (is_state (n.connection c).state not_initialized)))
        cs d a m in
    ground (arith, here, u)

-- Where the transition has not acknowledged yet, one of its connections holds an unread token, and every
-- enabled one was read or is done: that connection is not enabled, and `notifyMessageProcessed` fails an
-- assertion.
pub notify_inputs_processed_fails :
    (t d : ℕ) (n : Net)
    → (n.input_transition t).processed ≡ false
    → elem d (n.input_transition t).connections ≡ true
    → (n.connection d).state ≡ unread
    → are_all_connections_in read not_initialized (n.input_transition t).connections n ≡ true
    → (is_enabled n d ≡ false) × (notify_inputs_processed t n ≡ failed)
unfolding notify_inputs_processed set_flags
notify_inputs_processed_fails t d n p m u a =
    let cs = (n.input_transition t).connections in
    (unread_disabled d cs n u m a, rw (p, a) (for_each-unread cs d (set_flags false true t n) m u))
