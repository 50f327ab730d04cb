-- ===== src/Flow/Forwarding.antt =====
-- Proofs about csapex_core/src/msg/input_transition.cpp, `forwardMessages`: the loops that hand the
-- tokens of the connections to the inputs and mark them read.
use csapex.Base.{
  ℕ, ◌≡◌, refl, ap, sym, ◌∙◌, Bool, true, false, List, [], ◌∷◌, ◌||◌, any, elem, Option, none, some,
  arith, if◌then◌else◌, ◌==◌, ==_iff, ==_refl, ==_not, Bool-cases, inl, inr, ◌⊎◌, All, any-cong,
}
use csapex.Base.Result.{
  ok, assert, ◌>>=◌, ◌>>◌, for_each, Ensures, Ensures-ok, Ensures-bind, Ensures-mono,
}
use csapex.Flow.Token.{Token, make_empty_no_message}
use csapex.Flow.Net.{Net, State, unread, read, is_state, Connection, is_enabled}
use csapex.Flow.Delivery.{set_input_token, set_input_message}
use csapex.Flow.InputTransition.{single, has_enabled_connection, take_token, hand_over}

-- The connection is not enabled, or it holds a token that was not read.
abbrev pub IsReady : Net → ℕ → Type 0
IsReady n c = (is_enabled n c ≡ false) ⊎ ((n.connection c).state ≡ unread)

abbrev pub held : Option Token → Token
held none = make_empty_no_message
held (some m) = m

abbrev pub held_by : Net → List ℕ → Token
held_by n [] = make_empty_no_message
held_by n (c ∷ cs) = held (n.connection c).message

-- The token that is meant for an input.
abbrev pub token_for : Net → ℕ → Token
token_for n i =
    if has_enabled_connection i n then held_by n (n.input i).connections else make_empty_no_message

-- An input with an enabled connection has that one alone, and it holds a token, read or not.
abbrev pub IsFed : Net → ℕ → Type 0
IsFed n i =
    (has_enabled_connection i n ≡ false)
    ⊎ ((c : ℕ) × (m : Token) × ((n.input i).connections ≡ c ∷ [])
        × ((n.connection c).state ≡ unread)
        × ((n.connection c).message ≡ some m))

-- The inputs of `is` hold their tokens in `n'`, which else is `n`, up to counters and signals.
pub record Handed (is : List ℕ) (n n' : Net) : Type 0 where
  pub connections : n'.connection ≡ n.connection
  pub outputs : n'.output ≡ n.output
  pub messages :
      (d : ℕ)
      → (n'.input d).message ≡ (if elem d is then some (token_for n d) else (n.input d).message)
  pub ports :
      (d : ℕ)
      → ((n'.input d).enabled ≡ (n.input d).enabled)
        × ((n'.input d).connections ≡ (n.input d).connections)
  pub input_transitions : n'.input_transition ≡ n.input_transition
  pub output_transitions : n'.output_transition ≡ n.output_transition

set_input_token-Handed :
    (token : Token) (i : ℕ) (n : Net)
    → token ≡ token_for n i
    → Handed (i ∷ []) n (set_input_token token i n)
unfolding set_input_token
set_input_token-Handed token i n e = record {
  connections = refl;
  outputs = refl;
  messages = λ d. elim (Bool-cases (d == i)) [
    | inl q ↦ rw ((==_iff d i).0 q, ==_refl i) (ap some e)
    | inr q ↦ rw (==_not d i q, q) refl
  ];
  ports = λ d. ground arith;
  input_transitions = refl;
  output_transitions = refl;
}

-- The token of an unread connection is handed over.
pass_token :
    (state : State) (message : Option Token) (m : Token) (i : ℕ) (n : Net)
    → state ≡ unread
    → message ≡ some m
    → (assert (is_state state read || is_state state unread) >> set_input_message message i n)
      ≡ ok (set_input_token m i n)
unfolding set_input_message
pass_token state message m i n s h = rw (s, h) refl

take_token-eq :
    (i c : ℕ) (m : Token) (n : Net)
    → (n.input i).connections ≡ c ∷ []
    → (n.connection c).state ≡ unread
    → (n.connection c).message ≡ some m
    → take_token i n ≡ ok (set_input_token m i n)
unfolding take_token
take_token-eq i c m n one s h =
    ap
      (λ cs. single cs >>= λ k.
        assert (is_state (n.connection k).state read || is_state (n.connection k).state unread)
        >> set_input_message (n.connection k).message i n)
      one
    ∙ pass_token (n.connection c).state (n.connection c).message m i n s h

hand_over-Handed : (i : ℕ) (n : Net) → IsFed n i → Ensures (Handed (i ∷ []) n) (hand_over i n)
unfolding hand_over
hand_over-Handed i n f = elim (Bool-cases (has_enabled_connection i n)) [
  | inr e ↦ rw e (Ensures-ok _ (set_input_token-Handed make_empty_no_message i n (rw e refl)))
  | inl e ↦ fed f e
]
  where
    fed :
        IsFed n i
        → has_enabled_connection i n ≡ true
        → Ensures (Handed (i ∷ []) n) (
            if has_enabled_connection i n
            then take_token i n
            else ok (set_input_token make_empty_no_message i n))
    fed (inl u) e = cc
    fed (inr (c, m, one, s, h)) e =
        let meant : m ≡ token_for n i = rw e (sym (ap (held_by n) one ∙ ap held h)) in
        rw (e, take_token-eq i c m n one s h) (Ensures-ok _ (set_input_token-Handed m i n meant))

pub Handed-is_enabled :
    (is : List ℕ) (n m : Net) → Handed is n m → (d : ℕ) → is_enabled m d ≡ is_enabled n d
unfolding is_enabled
Handed-is_enabled is n m f d = rw (f.connections, f.outputs, (f.ports (n.connection d).to).0) refl

Handed-has_enabled_connection :
    (is : List ℕ) (n m : Net)
    → Handed is n m
    → (i : ℕ) → has_enabled_connection i m ≡ has_enabled_connection i n
unfolding has_enabled_connection
Handed-has_enabled_connection is n m f i =
    ap (any (λ c. is_enabled m c)) (f.ports i).1
    ∙ any-cong (λ c. is_enabled m c) (λ c. is_enabled n c) (n.input i).connections
        (Handed-is_enabled is n m f)

held_by-Handed :
    (n m : Net) → m.connection ≡ n.connection → (cs : List ℕ) → held_by m cs ≡ held_by n cs
held_by-Handed n m e [] = refl
held_by-Handed n m e (c ∷ cs) = ap (λ (f : ℕ → Connection). held (f c).message) e

Handed-token_for :
    (is : List ℕ) (n m : Net) → Handed is n m → (i : ℕ) → token_for m i ≡ token_for n i
Handed-token_for is n m f i = rw (Handed-has_enabled_connection is n m f i) (
    ap (λ t. if has_enabled_connection i n then t else make_empty_no_message)
      (ap (held_by m) (f.ports i).1 ∙ held_by-Handed n m f.connections (n.input i).connections))

Handed-IsFed : (is : List ℕ) (n m : Net) → Handed is n m → (i : ℕ) → IsFed n i → IsFed m i
Handed-IsFed is n m f i (inl e) = inl (Handed-has_enabled_connection is n m f i ∙ e)
Handed-IsFed is n m f i (inr (c, t, one, s, h)) = inr (
  c,
  t,
  (f.ports i).1 ∙ one,
  ap (λ (g : ℕ → Connection). (g c).state) f.connections ∙ s,
  ap (λ (g : ℕ → Connection). (g c).message) f.connections ∙ h,
)

All-Handed : (is js : List ℕ) (n m : Net) → Handed is n m → All (IsFed n) js → All (IsFed m) js
All-Handed is [] n m f h = tt
All-Handed is (j ∷ js) n m f h = (Handed-IsFed is n m f j h.0, All-Handed is js n m f h.1)

hand_again :
    (b e : Bool) (token : Token) (u v w : Option Token)
    → v ≡ (if b || false then some token else u)
    → w ≡ (if e then some token else v)
    → w ≡ (if b || e then some token else u)
hand_again true true token u v w p q = q
hand_again true false token u v w p q = q ∙ p
hand_again false e token u v w p q = q ∙ ap (λ k. if e then some token else k) p

Handed-cons :
    (i : ℕ) (is : List ℕ) (n m n' : Net)
    → Handed (i ∷ []) n m
    → Handed is m n'
    → Handed (i ∷ is) n n'
Handed-cons i is n m n' f g = record {
  connections = g.connections ∙ f.connections;
  outputs = g.outputs ∙ f.outputs;
  messages = λ d.
      hand_again (d == i) (elem d is) (token_for n d) (n.input d).message (m.input d).message
        (n'.input d).message (f.messages d)
        (g.messages d
          ∙ ap (λ t. if elem d is then some t else (m.input d).message)
              (Handed-token_for (i ∷ []) n m f d));
  ports = λ d. let (e, c) = f.ports d in let (e', c') = g.ports d in (e' ∙ e, c' ∙ c);
  input_transitions = g.input_transitions ∙ f.input_transitions;
  output_transitions = g.output_transitions ∙ f.output_transitions;
}

pub for_each-Handed :
    (is : List ℕ) (n : Net) → All (IsFed n) is → Ensures (Handed is n) (for_each hand_over is n)
unfolding for_each
for_each-Handed [] n h = Ensures-ok n record {
  connections = refl;
  outputs = refl;
  messages = λ d. refl;
  ports = λ d. (refl, refl);
  input_transitions = refl;
  output_transitions = refl;
}
for_each-Handed (i ∷ is) n h =
    Ensures-bind (hand_over i n) (for_each hand_over is) (hand_over-Handed i n h.0) λ m f.
      Ensures-mono _ (for_each-Handed is m (All-Handed (i ∷ []) is n m f h.1))
        (λ n' g. Handed-cons i is n m n' f g)
