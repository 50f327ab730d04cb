-- ===== src/Flow/Acknowledged.antt =====
-- Proofs about csapex_core/src/model/connection.cpp, `setTokenProcessed`, and the calls that it leads
-- to: a connection that is read or done can be acknowledged, and nothing but its state, the flags of
-- its output and the signals changes.
use csapex.Base.{
  ℕ, ◌≡◌, refl, Bool, true, false, List, [], ◌∷◌, elem, Option, none, some, arith, if◌then◌else◌,
  Bool-cases, inl, inr, ◌==◌, ==_iff, ◌⊎◌, ap, ◌∙◌,
}
use csapex.Base.Result.{ok, Ensures, Ensures-ok, Ensures-mono}
use csapex.Flow.Net.{
  Net, not_initialized, read, Connection, Output, put_connection, put_output, emit, Signal, idle,
  messages_processed, message_processed,
}
use csapex.Flow.Transition.{are_all_connections}
use csapex.Flow.Acknowledge.{
  can_start_sending_messages, token_processed, check_if_output_enabled, emit_message_processed,
  acknowledge, notify_processed, notify_connection_processed, notify_message_processed, set_state,
  set_token_processed, are_all_done, set_processing, set_output_state,
}

abbrev pub SamePort : Output → Output → Type 0
SamePort v w =
    (w.enabled ≡ v.enabled) × (w.connections ≡ v.connections) × (w.transition ≡ v.transition)

-- All but the signals and the flags of outputs is as before.
pub record Quiet (n n' : Net) : Type 0 where
  pub connections : n'.connection ≡ n.connection
  pub inputs : n'.input ≡ n.input
  pub input_transitions : n'.input_transition ≡ n.input_transition
  pub output_transitions : n'.output_transition ≡ n.output_transition
  pub ports : (o : ℕ) → SamePort (n.output o) (n'.output o)

Quiet-refl : (n : Net) → Quiet n n
Quiet-refl n = record {
  connections = refl;
  inputs = refl;
  input_transitions = refl;
  output_transitions = refl;
  ports = λ o. (refl, refl, refl);
}

Quiet-trans : {a b c : Net} → Quiet a b → Quiet b c → Quiet a c
Quiet-trans p q = record {
  connections = q.connections ∙ p.connections;
  inputs = q.inputs ∙ p.inputs;
  input_transitions = q.input_transitions ∙ p.input_transitions;
  output_transitions = q.output_transitions ∙ p.output_transitions;
  ports =
      λ o. let (e, c, t) = p.ports o in let (e', c', t') = q.ports o in (e' ∙ e, c' ∙ c, t' ∙ t);
}

Quiet-signals : (gs : List Signal) (n : Net) → Quiet n (record n { signals = gs })
Quiet-signals gs n = record {
  connections = refl;
  inputs = refl;
  input_transitions = refl;
  output_transitions = refl;
  ports = λ o. (refl, refl, refl);
}

Quiet-if : (b : Bool) {n x y : Net} → Quiet n x → Quiet n y → Quiet n (if b then x else y)
Quiet-if true p q = p
Quiet-if false p q = q

check_if_output_enabled-Quiet : (t : ℕ) (n : Net) → Quiet n (check_if_output_enabled t n)
unfolding check_if_output_enabled
check_if_output_enabled-Quiet t n =
    Quiet-if (can_start_sending_messages t n) (Quiet-signals _ n) (Quiet-refl n)

token_processed-Quiet : (t : ℕ) (n : Net) → Quiet n (token_processed t n)
unfolding token_processed
token_processed-Quiet t n =
    Quiet-if (are_all_connections not_initialized (n.output_transition t).connections n)
      (Quiet-trans (Quiet-signals _ n)
        (check_if_output_enabled-Quiet t (emit (messages_processed t) n)))
      (Quiet-refl n)

Quiet-transition :
    (t : Option ℕ) (f : ℕ → Net) {n x : Net}
    → Quiet n x
    → ((k : ℕ) → Quiet n (f k))
    → Quiet n (elim t [ none ↦ x | some k ↦ f k ])
Quiet-transition none f p q = p
Quiet-transition (some k) f p q = q k

pub emit_message_processed-Quiet : (o : ℕ) (n : Net) → Quiet n (emit_message_processed o n)
unfolding emit_message_processed
emit_message_processed-Quiet o n =
    Quiet-transition (n.output o).transition (λ t. token_processed t (emit (message_processed o) n))
      (Quiet-signals _ n)
      (λ t.
        Quiet-trans (Quiet-signals _ n) (token_processed-Quiet t (emit (message_processed o) n)))

-- The output after it was told: no longer processing, and idle.
abbrev pub told : ℕ → Net → Net
told o n = set_output_state idle o (put_output o (record (n.output o) { processing = false }) n)

pub told-Quiet : (o : ℕ) (n : Net) → Quiet n (told o n)
unfolding set_output_state
told-Quiet o n = record {
  connections = refl;
  inputs = refl;
  input_transitions = refl;
  output_transitions = refl;
  ports = λ p. ground arith;
}

told_done :
    (o : ℕ) (n : Net)
    → are_all_done (n.output o).connections n ≡ true
    → are_all_done ((told o n).output o).connections (told o n) ≡ true
unfolding set_output_state
told_done o n d = rw (((told-Quiet o n).ports o).1) d

pub acknowledge-eq :
    (o : ℕ) (n : Net)
    → (n.output o).processing ≡ true
    → are_all_done (n.output o).connections n ≡ true
    → acknowledge o n ≡ ok (emit_message_processed o (told o n))
unfolding acknowledge set_processing
acknowledge-eq o n p d = rw (p, told_done o n d)

pub notify_processed-Quiet :
    (o : ℕ) (n : Net)
    → are_all_done (n.output o).connections n ≡ true
    → Ensures (Quiet n) (notify_processed o n)
unfolding notify_processed
notify_processed-Quiet o n d = elim (Bool-cases (n.output o).processing) [
  | inl p ↦
      rw (p, acknowledge-eq o n p d)
        (Ensures-ok _ (Quiet-trans (told-Quiet o n) (emit_message_processed-Quiet o (told o n))))
  | inr p ↦ rw p (Ensures-ok n (Quiet-refl n))
]

notify_connection_processed-Quiet :
    (o : ℕ) (n : Net) → Ensures (Quiet n) (notify_connection_processed o n)
unfolding notify_connection_processed
notify_connection_processed-Quiet o n =
    elim (Bool-cases (are_all_done (n.output o).connections n)) [
      | inl d ↦ rw d (notify_processed-Quiet o n d)
      | inr d ↦ rw d (Ensures-ok n (Quiet-refl n))
    ]

pub notify_message_processed-Quiet :
    (c : ℕ) (n : Net) → Ensures (Quiet n) (notify_message_processed c n)
unfolding notify_message_processed
notify_message_processed-Quiet c n = elim (Bool-cases (n.connection c).detached) [
  | inl d ↦ rw d (Ensures-ok n (Quiet-refl n))
  | inr d ↦ rw d (notify_connection_processed-Quiet (n.connection c).from n)
]

-- `n'` is `n` with the connections of `cs` done, up to the flags of outputs and the signals.
pub record Settled (cs : List ℕ) (n n' : Net) : Type 0 where
  pub connections :
      (d : ℕ)
      → n'.connection d ≡ (
          if elem d cs then record (n.connection d) { state = not_initialized } else n.connection d)
  pub inputs : n'.input ≡ n.input
  pub input_transitions : n'.input_transition ≡ n.input_transition
  pub output_transitions : n'.output_transition ≡ n.output_transition
  pub ports : (o : ℕ) → SamePort (n.output o) (n'.output o)

-- A connection that can be acknowledged: its token was read, or it holds none.
abbrev pub IsReadOrDone : ℕ → Net → Type 0
IsReadOrDone c n = ((n.connection c).state ≡ read) ⊎ ((n.connection c).state ≡ not_initialized)

pub set_state-read :
    (c : ℕ) (n : Net)
    → (n.connection c).state ≡ read
    → set_state not_initialized c n
      ≡ ok (put_connection c (record (n.connection c) { state = not_initialized }) n)
unfolding set_state
set_state-read c n r = ground arith

settle_done :
    (c d : ℕ) (n : Net)
    → (n.connection c).state ≡ not_initialized
    → n.connection d ≡ (
        if elem d (c ∷ [])
        then record (n.connection d) { state = not_initialized }
        else n.connection d)
settle_done c d n r = elim (Bool-cases (d == c)) [
  | inl e ↦ rw e (λ i. record (n.connection d) {
    state = (ap (λ k. (n.connection k).state) ((==_iff d c).0 e) ∙ r) i;
  })
  | inr e ↦ rw e
]

pub set_token_processed-Settled :
    (c : ℕ) (n : Net) → IsReadOrDone c n → Ensures (Settled (c ∷ []) n) (set_token_processed c n)
unfolding set_token_processed
set_token_processed-Settled c n (inl r) =
    let m = put_connection c (record (n.connection c) { state = not_initialized }) n in
    rw (r, set_state-read c n r)
      (Ensures-mono _ (notify_message_processed-Quiet c m) λ n' q. record {
        connections = λ d. ap (λ (f : ℕ → Connection). f d) q.connections ∙ ground arith;
        inputs = q.inputs;
        input_transitions = q.input_transitions;
        output_transitions = q.output_transitions;
        ports = q.ports;
      })
set_token_processed-Settled c n (inr r) = rw r (
    Ensures-ok n record {
      connections = λ d. settle_done c d n r;
      inputs = refl;
      input_transitions = refl;
      output_transitions = refl;
      ports = λ o. (refl, refl, refl);
    })
