-- ===== src/Flow/Tuned.antt =====
-- Proofs about csapex_core/src/msg/output.cpp: an output is processing exactly while one of its connections is not
-- done, whatever is published, read and acknowledged.
use csapex.Base.{
  ℕ, suc, ◌+◌, ◌≡◌, refl, sym, ap, subst, ◌∙◌, ◌==◌, ==_iff, ==_refl, Bool, true, false, not, ◌&&◌,
  ◌||◌, List, [], ◌∷◌, Option, all, all-elem, any, elem, All, IsDistinct, if◌then◌else◌, Bool-cases,
  inl, inr, arith,
}
use csapex.Base.Result.{ok, failed, Ensures, Ensures-ok, >>=-eq-ok}
use csapex.Flow.Token.{Token}
use csapex.Flow.Net.{
  Net, State, not_initialized, read, is_state, done, Connection, Output, Input, is_enabled,
  put_connection,
}
use csapex.Flow.Acknowledge.{are_all_done, set_state, set_token_processed, emit_message_processed}
use csapex.Flow.Delivery.{read_token}
use csapex.Flow.Output.{publish, get_token}
use csapex.Flow.Acknowledged.{told, told-Quiet, emit_message_processed-Quiet}
use csapex.Flow.Processed.{set_token_processed-unread, State-cases}
use csapex.Flow.Counting.{count_processed, count-emit_message_processed}
use csapex.Flow.Release.{
  released, released_ends, told_fields, output-emit_message_processed, set_token_processed-read,
  notify_message_processed-attached, notify_connection_processed-all,
  notify_connection_processed-some,
}
use csapex.Flow.Publishing.{load, load_ends}
use csapex.Flow.Published.{IsAttended, Published, publish_loads, told_signals}

-- An output with its connections: no connection twice, each attached to it and to the input of a node; and it is
-- processing exactly while one of them is not done.
pub record IsTuned (o : ℕ) (n : Net) : Type 0 where
  pub distinct : IsDistinct (n.output o).connections
  pub attended : (c : ℕ) → elem c (n.output o).connections ≡ true → IsAttended n c
  pub ends :
      (c : ℕ)
      → elem c (n.output o).connections ≡ true
      → ((n.connection c).from ≡ o) × ((n.connection c).detached ≡ false)
  pub busy : (n.output o).processing ≡ not (are_all_done (n.output o).connections n)

abbrev pub one_if : Bool → ℕ
one_if true = 1
one_if false = 0

-- The tokens of the output that were acknowledged or are pending.
abbrev pub in_all : ℕ → Net → ℕ
in_all o n = count_processed o n.signals + one_if (n.output o).processing

pub record Stepped (k o : ℕ) (n m : Net) : Type 0 where
  pub tuned : IsTuned o m
  pub ports : (m.output o).connections ≡ (n.output o).connections
  pub counted : k + in_all o n ≡ in_all o m

-- The ends of a connection stay.
abbrev SameEnds : Connection → Connection → Type 0
SameEnds u v = (v.from ≡ u.from) × (v.to ≡ u.to) × (v.detached ≡ u.detached)

keep-IsTuned :
    (o : ℕ) (n m : Net)
    → IsTuned o n
    → (m.output o).connections ≡ (n.output o).connections
    → ((c : ℕ) → SameEnds (n.connection c) (m.connection c))
    → m.input ≡ n.input
    → (m.output o).processing ≡ not (are_all_done (n.output o).connections m)
    → IsTuned o m
keep-IsTuned o n m T same ends inputs busy = record {
  distinct = rw same T.distinct;
  attended = λ c h.
      let (t, a) = T.attended c (rw same at h) in
      let (f, to, d) = ends c in
      (
        t,
        ap (λ k. (m.input k).transition) to
            ∙ ap (λ (i : ℕ → Input). (i (n.connection c).to).transition) inputs
            ∙ a,
      );
  ends = λ c h.
      let (from, detached) = T.ends c (rw same at h) in
      let (f, to, d) = ends c in (f ∙ from, d ∙ detached);
  busy = busy ∙ ap (λ cs. not (are_all_done cs m)) (sym same);
}

All-of : (P : ℕ → Type 0) (cs : List ℕ) → ((c : ℕ) → elem c cs ≡ true → P c) → All P cs
All-of P [] h = tt
All-of P (c ∷ cs) h =
    (h c (rw (==_refl c) refl), All-of P cs (λ d m. h d (or_right (d == c) (elem d cs) m)))
  where
    or_right : (a b : Bool) → b ≡ true → a || b ≡ true
    or_right true b e = refl
    or_right false b e = e

is_done : (s : State) → is_state s done ≡ true → s ≡ not_initialized
is_done s h = ground (arith, h)

-- One connection that is not done is enough.
not_all_done :
    (c : ℕ) (cs : List ℕ) (n : Net)
    → elem c cs ≡ true
    → is_state (n.connection c).state done ≡ false
    → are_all_done cs n ≡ false
not_all_done c cs n m h = elim (Bool-cases (are_all_done cs n)) [
  | inl a ↦ cc (all-elem (λ d. is_state (n.connection d).state done) cs c a m, h)
  | inr a ↦ a
]

publish-busy : (o : ℕ) (n : Net) → (n.output o).processing ≡ true → publish o n ≡ failed
unfolding publish
publish-busy o n p = rw (publish, p) refl

publish-disabled :
    (o : ℕ) (n : Net)
    → (n.output o).processing ≡ false
    → (n.output o).enabled ≡ false
    → publish o n ≡ failed
unfolding publish
publish-disabled o n p e = rw (publish, p, e) refl

-- Connections that were done are loaded exactly if they are enabled.
loaded_done :
    (token : Token) (all_cs : List ℕ) (n m : Net) (cs : List ℕ)
    → ((d : ℕ)
        → m.connection d ≡ (
            if elem d all_cs && is_enabled n d
            then load token (n.connection d)
            else n.connection d))
    → ((c : ℕ) → elem c cs ≡ true → elem c all_cs ≡ true)
    → are_all_done cs n ≡ true
    → are_all_done cs m ≡ not (any (λ c. is_enabled n c) cs)
loaded_done token all_cs n m [] f sub a = refl
loaded_done token all_cs n m (c ∷ cs) f sub a =
    let inside = sub c (rw (==_refl c) refl) in
    let rest =
      loaded_done token all_cs n m cs f (λ d h. sub d (rw h (ground arith))) (ground (arith, a)) in
    let here : is_state (n.connection c).state done ≡ true = ground (arith, a) in
    elim (Bool-cases (is_enabled n c)) [
      | inl e ↦ rw (f c, inside, e) refl
      | inr e ↦ rw (f c, inside, e, here) rest
    ]

flip : (x y : Bool) → y ≡ not x → x ≡ not y
flip true y e = ground (arith, e)
flip false y e = ground (arith, e)

one_more :
    (b processing : Bool) (x y : ℕ)
    → y ≡ (if b then x else suc x)
    → processing ≡ b
    → 1 + (x + 0) ≡ y + one_if processing
one_more true processing x y e p = rw p (omega (arith, e))
one_more false processing x y e p = rw p (omega (arith, e))

pub publish-Stepped : (o : ℕ) (n m : Net) → IsTuned o n → publish o n ≡ ok m → Stepped 1 o n m
publish-Stepped o n m T r = elim (Bool-cases (n.output o).processing) [
  | inl p ↦ cc (publish-busy o n p, r)
  | inr p ↦ elim (Bool-cases (n.output o).enabled) [
    | inr e ↦ cc (publish-disabled o n p e, r)
    | inl e ↦
        let cs = (n.output o).connections in
        let a : are_all_done cs n ≡ true = let b = T.busy in ground (arith, b, p) in
        let idle_all =
          All-of (λ c. (n.connection c).state ≡ not_initialized) cs
            (λ c h.
              is_done (n.connection c).state
                (all-elem (λ d. is_state (n.connection d).state done) cs c a h)) in
        let E = publish_loads o n p e T.distinct idle_all (All-of (IsAttended n) cs T.attended) in
        let same : E.value ≡ m = cc (E.returns, r) in
        let P = subst (Published o (get_token (n.output o)) n) same E.holds in
        let after = loaded_done (get_token (n.output o)) cs n m cs P.connections (λ c h. h) a in
        let ports = (P.ports o).1 in
        record {
          tuned =
              keep-IsTuned o n m T ports
                (λ c.
                  load_ends (elem c cs && is_enabled n c) (get_token (n.output o)) (n.connection c)
                    (m.connection c) (P.connections c))
                P.inputs
                (P.processing ∙ flip (any (λ c. is_enabled n c) cs) (are_all_done cs m) after);
          ports = ports;
          counted =
              ap (λ b. 1 + (count_processed o n.signals + one_if b)) p
              ∙ one_more (any (λ c. is_enabled n c) cs) (m.output o).processing
                  (count_processed o n.signals) (count_processed o m.signals) P.processed_signals
                  P.processing;
        }
  ]
]

-- Nothing but a connection that is not done changes its state to one in which it is not done either.
marked : ℕ → Net → Net
marked c n = put_connection c (record (n.connection c) { state = read }) n

set_state_read :
    (c : ℕ) (n m : Net)
    → set_state read c n ≡ ok m
    → (is_state (n.connection c).state done ≡ false) × (marked c n ≡ m)
unfolding set_state marked
set_state_read c n m r = elim (State-cases (n.connection c).state) [
  | inl u ↦ (rw u refl, cc (rw u at r))
  | inr (inl u) ↦ (rw u refl, cc (rw u at r))
  | inr (inr u) ↦ let bad : failed ≡ ok m = rw u at r in cc bad
]

marked-Stepped :
    (o c : ℕ) (n : Net)
    → IsTuned o n
    → elem c (n.output o).connections ≡ true
    → is_state (n.connection c).state done ≡ false
    → Stepped 0 o n (marked c n)
unfolding marked
marked-Stepped o c n T m h =
    let cs = (n.output o).connections in
    let before = not_all_done c cs n m h in
    let after = not_all_done c cs (marked c n) m (rw (==_refl c) refl) in
    record {
      tuned =
          keep-IsTuned o n (marked c n) T refl
            (λ d. elim (Bool-cases (c == d)) [
              | inl q ↦ rw (q, (==_iff c d).0 q) (refl, refl, refl)
              | inr q ↦ rw q (refl, refl, refl)
            ])
            refl (T.busy ∙ ap not (before ∙ sym after));
      ports = refl;
      counted = omega arith;
    }

pub read_token-Stepped :
    (o c : ℕ) (n : Net) (r : Option Token × Net)
    → IsTuned o n
    → elem c (n.output o).connections ≡ true
    → read_token c n ≡ ok r
    → Stepped 0 o n r.1
unfolding read_token
read_token-Stepped o c n r T m e =
    let (n', f, g) = >>=-eq-ok (set_state read c n) (λ k. ok ((k.connection c).message, k)) e in
    let (h, same) = set_state_read c n n' f in
    let last : n' ≡ r.1 = cc g in subst (Stepped 0 o n) (same ∙ last) (marked-Stepped o c n T m h)

-- What remains of a net when a token that was read is acknowledged.
released-Stepped :
    (o c : ℕ) (n : Net)
    → IsTuned o n
    → elem c (n.output o).connections ≡ true
    → (n.connection c).state ≡ read
    → Ensures (Stepped 0 o n) (set_token_processed c n)
released-Stepped o c n T m h =
    let cs = (n.output o).connections in
    let r = released c n in
    let (from, attached) = T.ends c m in
    let (ends_d, ends_f) = released_ends c n in
    let called =
      set_token_processed-read c n h
      ∙ notify_message_processed-attached c o r (ends_d ∙ attached) (ends_f ∙ from) in
    let on : (n.output o).processing ≡ true =
      T.busy ∙ rw (not_all_done c cs n m (rw h refl)) refl in
    let same_ends : (d : ℕ) → SameEnds (n.connection d) (r.connection d) = λ d.
      elim (Bool-cases (c == d)) [
        | inl q ↦ rw (q, (==_iff c d).0 q) (refl, refl, refl)
        | inr q ↦ rw q (refl, refl, refl)
      ] in
    elim (Bool-cases (are_all_done cs r)) [
      | inr a ↦
          rw (called, notify_connection_processed-some o r a)
            (Ensures-ok r (record {
              tuned = keep-IsTuned o n r T refl same_ends refl (on ∙ rw a refl);
              ports = refl;
              counted = omega arith;
            }))
      | inl a ↦
          let last = emit_message_processed o (told o r) in
          let kept = emit_message_processed-Quiet o (told o r) in
          let told_kept = told-Quiet o r in
          let ports = (kept.ports o).1 ∙ (told_kept.ports o).1 in
          let connections = kept.connections ∙ told_kept.connections in
          let off : (last.output o).processing ≡ false =
            ap (λ (g : ℕ → Output). (g o).processing) (output-emit_message_processed o (told o r))
            ∙ (told_fields o r).0 in
          let heard = count-emit_message_processed o (told o r) ∙ ap suc (told_signals o r) in
          let all_done : are_all_done cs last ≡ true =
            ap (λ (f : ℕ → Connection). all (λ d. is_state (f d).state done) cs) connections ∙ a in
          rw (called, notify_connection_processed-all o r on a)
            (Ensures-ok last (record {
              tuned =
                  keep-IsTuned o n last T ports
                    (λ d.
                      subst (λ (f : ℕ → Connection). SameEnds (n.connection d) (f d))
                        (sym connections) (same_ends d))
                    (kept.inputs ∙ told_kept.inputs) (off ∙ ap not (sym all_done));
              ports = ports;
              counted =
                  ap (λ b. 0 + (count_processed o n.signals + one_if b)) on
                  ∙ acknowledged_one (last.output o).processing (count_processed o n.signals)
                      (count_processed o last.signals) heard off;
            }))
    ]
  where
    acknowledged_one :
        (processing : Bool) (x y : ℕ)
        → y ≡ suc x
        → processing ≡ false
        → 0 + (x + 1) ≡ y + one_if processing
    acknowledged_one processing x y e p = rw p (omega (arith, e))

pub set_token_processed-Stepped :
    (o c : ℕ) (n m : Net)
    → IsTuned o n
    → elem c (n.output o).connections ≡ true
    → set_token_processed c n ≡ ok m
    → Stepped 0 o n m
unfolding set_token_processed
set_token_processed-Stepped o c n m T i r = elim (State-cases (n.connection c).state) [
  | inl u ↦ cc (set_token_processed-unread c n u, r)
  | inr (inl u) ↦
      let E = released-Stepped o c n T i u in
      let same : E.value ≡ m = cc (E.returns, r) in subst (Stepped 0 o n) same E.holds
  | inr (inr u) ↦
      let same : n ≡ m = cc (rw (set_token_processed, u) at r) in
      subst (Stepped 0 o n) same (record { tuned = T; ports = refl; counted = omega arith })
]
