-- ===== src/Flow/Published.antt =====
-- Proofs about csapex_core/src/msg/output.cpp, `publish`: the receivers are told of the token, and
-- the output is processing until it is acknowledged.
use csapex.Base.{
  ℕ, suc, ◌≡◌, refl, sym, subst, ap, ◌∙◌, Bool, true, false, not, List, [], ◌∷◌, ◌&&◌, any, elem,
  some, arith, if◌then◌else◌, Bool-cases, inl, inr, All, IsDistinct, any-cong, any-elem,
}
use csapex.Base.Result.{
  Result, ok, assert, ◌>>◌, ◌>>=◌, for_each, Ensures, Ensures-ok, Ensures-bind,
}
use csapex.Flow.Token.{Token}
use csapex.Flow.Net.{
  Net, not_initialized, Connection, Output, Signal, is_enabled, input_enabled, put_output,
}
use csapex.Flow.Acknowledge.{
  are_all_done, set_processing, notify_processed, emit_message_processed, set_output_state,
}
use csapex.Flow.Counting.{count_processed, count-emit_message_processed}
use csapex.Flow.Acknowledged.{
  SamePort, told, acknowledge-eq, told-Quiet, emit_message_processed-Quiet,
}
use csapex.Flow.Release.{output-emit_message_processed, told_fields}
use csapex.Flow.Delivery.{
  notify_message_set, notify_message_available, check_if_input_enabled, is_input_enabled,
}
use csapex.Flow.Output.{offer, announce, publish, get_token}
use csapex.Flow.Publishing.{load, load_ends, Offered, for_each-Offered}

-- The connection's input belongs to a node, which an input transition stands for.
abbrev pub IsAttended : Net → ℕ → Type 0
IsAttended n c = (t : ℕ) × ((n.input (n.connection c).to).transition ≡ some t)

-- As many signals of each output that its token was processed.
abbrev SameSignals : Net → List Signal → Type 0
SameSignals n gs = (o : ℕ) → count_processed o gs ≡ count_processed o n.signals

-- `n'` differs from `n` in what was signalled alone.
abbrev pub Signalled : Net → Net → Type 0
Signalled n n' = (gs : List Signal) × (n' ≡ record n { signals = gs }) × SameSignals n gs

check_if_input_enabled-Signalled :
    (t : ℕ) (gs : List Signal) (n : Net)
    → SameSignals n gs
    → Signalled n (check_if_input_enabled t (record n { signals = gs }))
unfolding check_if_input_enabled
check_if_input_enabled-Signalled t gs n k =
    elim (Bool-cases (is_input_enabled t (record n { signals = gs }))) [
      | inl e ↦ rw e (input_enabled t ∷ gs, refl, k)
      | inr e ↦ rw e (gs, refl, k)
    ]

announce-Signalled :
    (c : ℕ) (gs : List Signal) (n : Net)
    → IsAttended n c
    → SameSignals n gs
    → Ensures (Signalled n) (announce c (record n { signals = gs }))
unfolding announce notify_message_set notify_message_available is_enabled
announce-Signalled c gs n (t, a) k = elim (Bool-cases (is_enabled n c)) [
  | inr e ↦ rw e (Ensures-ok _ (gs, refl, k))
  | inl e ↦ rw e (elim (Bool-cases (n.connection c).detached) [
    | inl d ↦ rw d (Ensures-ok _ (gs, refl, k))
    | inr d ↦ rw (d, a) (Ensures-ok _ (check_if_input_enabled-Signalled t gs n k))
  ])
]

for_each-Signalled :
    (cs : List ℕ) (gs : List Signal) (n : Net)
    → All (IsAttended n) cs
    → SameSignals n gs
    → Ensures (Signalled n) (for_each announce cs (record n { signals = gs }))
unfolding for_each
for_each-Signalled [] gs n h k = Ensures-ok _ (gs, refl, k)
for_each-Signalled (c ∷ cs) gs n h k =
    Ensures-bind (announce c (record n { signals = gs })) (for_each announce cs)
      (announce-Signalled c gs n h.0 k) λ m s. rw s.1 (for_each-Signalled cs s.0 n h.1 s.2)

-- The output after `setProcessing(true)`.
abbrev pub busy : ℕ → Net → Net
busy o n = put_output o (record (n.output o) { processing = true }) n

busy-is_enabled : (o : ℕ) (n : Net) (d : ℕ) → is_enabled (busy o n) d ≡ is_enabled n d
unfolding is_enabled
busy-is_enabled o n d = ground arith

busy_self :
    (o : ℕ) (n : Net)
    → (((busy o n).output o).processing ≡ true)
      × (((busy o n).output o).connections ≡ (n.output o).connections)
busy_self o n = ground arith

are_all_done_lem :
    (cs : List ℕ) (n m : Net)
    → ((d : ℕ) → m.connection d ≡ n.connection d)
    → All (λ c. (n.connection c).state ≡ not_initialized) cs
    → are_all_done cs m ≡ true
are_all_done_lem [] n m f h = refl
are_all_done_lem (c ∷ cs) n m f h = rw (f c, h.0, are_all_done_lem cs n m f h.1)

-- What `publish` leaves, for the output `o` with the token `token`.
pub record Published (o : ℕ) (token : Token) (n n' : Net) : Type 0 where
  pub connections :
      (d : ℕ)
      → n'.connection d ≡ (
          if elem d (n.output o).connections && is_enabled n d
          then load token (n.connection d)
          else n.connection d)
  pub processing : (n'.output o).processing ≡ any (λ c. is_enabled n c) (n.output o).connections
  pub inputs : n'.input ≡ n.input
  pub ports : (p : ℕ) → SamePort (n.output p) (n'.output p)
  pub processed_signals : count_processed o n'.signals ≡ (
      if any (λ c. is_enabled n c) (n.output o).connections
      then count_processed o n.signals
      else suc (count_processed o n.signals))

acknowledged :
    (o : ℕ) (m : Net)
    → (m.output o).processing ≡ true
    → are_all_done (m.output o).connections m ≡ true
    → notify_processed o m ≡ ok (emit_message_processed o (told o m))
unfolding notify_processed
acknowledged o m p d = rw p (acknowledge-eq o m p d)

told_connection :
    (o : ℕ) (m : Net) → (emit_message_processed o (told o m)).connection ≡ m.connection
told_connection o m =
    (emit_message_processed-Quiet o (told o m)).connections ∙ (told-Quiet o m).connections

told_inputs : (o : ℕ) (m : Net) → (emit_message_processed o (told o m)).input ≡ m.input
told_inputs o m = (emit_message_processed-Quiet o (told o m)).inputs ∙ (told-Quiet o m).inputs

told_processing :
    (o : ℕ) (m : Net) → ((emit_message_processed o (told o m)).output o).processing ≡ false
told_processing o m =
    ap (λ (g : ℕ → Output). (g o).processing) (output-emit_message_processed o (told o m))
    ∙ (told_fields o m).0

busy_ports : (o : ℕ) (n : Net) (p : ℕ) → SamePort (n.output p) ((busy o n).output p)
busy_ports o n p = ground arith

SamePort-trans : (u v w : Output) → SamePort u v → SamePort v w → SamePort u w
SamePort-trans u v w (e, c, t) (e', c', t') = (e' ∙ e, c' ∙ c, t' ∙ t)

told_ports :
    (o : ℕ) (m : Net) (p : ℕ)
    → SamePort (m.output p) ((emit_message_processed o (told o m)).output p)
told_ports o m p =
    SamePort-trans (m.output p) ((told o m).output p)
      ((emit_message_processed o (told o m)).output p) ((told-Quiet o m).ports p)
      ((emit_message_processed-Quiet o (told o m)).ports p)

pub told_signals :
    (o : ℕ) (m : Net) → count_processed o (told o m).signals ≡ count_processed o m.signals
unfolding set_output_state
told_signals o m = refl

finish :
    (o : ℕ) (token : Token) (n m0 : Net) (gs : List Signal)
    → All (λ c. (n.connection c).state ≡ not_initialized) (n.output o).connections
    → Offered token (n.output o).connections (busy o n) m0
    → count_processed o gs ≡ count_processed o n.signals
    → Ensures (Published o token n) (
        if any (λ c. is_enabled (busy o n) c) (n.output o).connections
        then ok (record m0 { signals = gs })
        else notify_processed o (record m0 { signals = gs }))
finish o token n m0 gs h f heard =
    let m : Net = record m0 { signals = gs } in
    let cs = (n.output o).connections in
    let some_enabled : any (λ c. is_enabled (busy o n) c) cs ≡ any (λ c. is_enabled n c) cs =
      any-cong (λ c. is_enabled (busy o n) c) (λ c. is_enabled n c) cs (busy-is_enabled o n) in
    let (on, ports) = busy_self o n in
    let processing : (m.output o).processing ≡ true =
      ap (λ (g : ℕ → Output). (g o).processing) f.outputs ∙ on in
    let loaded : (d : ℕ)
        → m.connection d
          ≡ (if elem d cs && is_enabled n d then load token (n.connection d) else n.connection d) =
      λ d. f.connections d ∙ rw (busy-is_enabled o n d) refl in
    let same_ports : (p : ℕ) → SamePort (n.output p) (m.output p) =
      λ p. rw f.outputs (busy_ports o n p) in
    elim (Bool-cases (any (λ c. is_enabled n c) cs)) [
      | inl e ↦
          rw (some_enabled, e)
            (Ensures-ok m record {
              connections = loaded;
              processing = rw e processing;
              inputs = f.inputs;
              ports = same_ports;
              processed_signals = rw e heard;
            })
      | inr e ↦
          let same : (d : ℕ) → m.connection d ≡ n.connection d =
            λ d. loaded d ∙ rw (any-elem (λ c. is_enabled n c) cs d e) refl in
          let all_done : are_all_done (m.output o).connections m ≡ true =
            rw (ap (λ (g : ℕ → Output). (g o).connections) f.outputs ∙ ports)
              (are_all_done_lem cs n m same h) in
          rw (some_enabled, e, acknowledged o m processing all_done)
            (Ensures-ok _ record {
              connections = λ d. ap (λ (g : ℕ → Connection). g d) (told_connection o m) ∙ loaded d;
              processing = rw e (told_processing o m);
              inputs = told_inputs o m ∙ f.inputs;
              ports = λ p.
                  SamePort-trans (n.output p) (m.output p)
                    ((emit_message_processed o (told o m)).output p) (same_ports p)
                    (told_ports o m p);
              processed_signals =
                  rw e
                    (count-emit_message_processed o (told o m) ∙ ap suc (told_signals o m ∙ heard));
            })
    ]

Offered-IsAttended :
    (o : ℕ) (token : Token) (cs ds : List ℕ) (n m : Net)
    → Offered token cs (busy o n) m
    → All (IsAttended n) ds
    → All (IsAttended m) ds
Offered-IsAttended o token cs [] n m f a = tt
Offered-IsAttended o token cs (d ∷ ds) n m f ((t, a), rest) =
    let (from, to, detached) =
      load_ends (elem d cs && is_enabled (busy o n) d) token (n.connection d) (m.connection d)
        (f.connections d) in
    ((t, rw (f.inputs, to) a), Offered-IsAttended o token cs ds n m f rest)

-- `publish` after `setProcessing(true)`, over the connections `cs`.
abbrev spread_over : ℕ → Token → Net → List ℕ → Result Net
spread_over o token n cs = for_each (offer token) cs (busy o n) >>= λ n2.
    for_each announce cs n2 >>= λ n3.
    if any (λ c. is_enabled (busy o n) c) cs then ok n3 else notify_processed o n3

set_processing-busy :
    (o : ℕ) (n : Net) → (n.output o).processing ≡ false → set_processing true o n ≡ ok (busy o n)
unfolding set_processing
set_processing-busy o n p = rw p

pass_both :
    {A : Type 0} (b c : Bool) (k : Result A)
    → b ≡ true
    → c ≡ true
    → (assert b >> (assert c >> k)) ≡ k
pass_both b c k p q = rw (p, q) refl

publish-eq :
    (o : ℕ) (n : Net)
    → (n.output o).processing ≡ false
    → (n.output o).enabled ≡ true
    → publish o n ≡ spread_over o (get_token (n.output o)) n ((busy o n).output o).connections
unfolding publish
publish-eq o n p e =
    pass_both (not (n.output o).processing) (n.output o).enabled _ (rw p refl) e
    ∙ rw (set_processing-busy o n p) refl

spread :
    (o : ℕ) (token : Token) (n : Net)
    → IsDistinct (n.output o).connections
    → All (λ c. (n.connection c).state ≡ not_initialized) (n.output o).connections
    → All (IsAttended n) (n.output o).connections
    → Ensures (Published o token n) (spread_over o token n (n.output o).connections)
spread o token n x h a =
    let cs = (n.output o).connections in
    Ensures-bind _ _ (for_each-Offered token cs (busy o n) x h) λ m f.
      Ensures-bind _ _
        (for_each-Signalled cs m.signals m (Offered-IsAttended o token cs cs n m f a) (λ p. refl))
        λ n3 s. rw s.1 (finish o token n m s.0 h f (s.2 o ∙ ap (count_processed o) f.signals))

-- Where an enabled output that is not processing has distinct connections without a pending token,
-- whose inputs belong to nodes, `publish` succeeds: every enabled connection of it, and no other,
-- gets a clone of the committed token, unread, and counts it; the output is processing exactly if
-- one of its connections is enabled; the inputs do not change.
pub publish_loads :
    (o : ℕ) (n : Net)
    → (n.output o).processing ≡ false
    → (n.output o).enabled ≡ true
    → IsDistinct (n.output o).connections
    → All (λ c. (n.connection c).state ≡ not_initialized) (n.output o).connections
    → All (IsAttended n) (n.output o).connections
    → Ensures (Published o (get_token (n.output o)) n) (publish o n)
publish_loads o n p e x h a =
    let token = get_token (n.output o) in
    rw (publish-eq o n p e) (
      subst (λ cs. Ensures (Published o token n) (spread_over o token n cs)) (sym (busy_self o n).1)
        (spread o token n x h a))
