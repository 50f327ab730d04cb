-- ===== src/Flow/Publishing.antt =====
-- Proofs about csapex_core/src/msg/output.cpp, `publish`: a committed token reaches every enabled
-- connection of the output.
use csapex.Base.{
  ℕ, suc, ◌≡◌, refl, ap, ◌∙◌, Bool, true, false, List, [], ◌∷◌, ◌&&◌, ◌||◌, elem, some, arith,
  if◌then◌else◌, ◌==◌, ==_iff, ==_refl, ==_not, Bool-cases, inl, inr, All, IsDistinct,
}
use csapex.Base.Result.{ok, for_each, Ensures, Ensures-ok, Ensures-bind, Ensures-mono}
use csapex.Flow.Token.{Token}
use csapex.Flow.Net.{Net, not_initialized, unread, Connection, put_connection, is_enabled}
use csapex.Flow.Acknowledge.{set_state}
use csapex.Flow.Delivery.{clone_for, set_token_silent}
use csapex.Flow.Output.{offer}

-- The connection with a new token.
abbrev pub load : Token → Connection → Connection
load token v = record v {
  state = unread;
  message = some (clone_for v.active token);
  seq = suc v.seq;
}

-- `n'` is `n` with a token on each enabled connection of `cs`.
pub record Offered (token : Token) (cs : List ℕ) (n n' : Net) : Type 0 where
  pub connections :
      (d : ℕ)
      → n'.connection d
        ≡ (if elem d cs && is_enabled n d then load token (n.connection d) else n.connection d)
  pub outputs : n'.output ≡ n.output
  pub inputs : n'.input ≡ n.input
  pub input_transitions : n'.input_transition ≡ n.input_transition
  pub output_transitions : n'.output_transition ≡ n.output_transition
  pub signals : n'.signals ≡ n.signals

set_token_silent-eq :
    (token : Token) (c : ℕ) (n : Net)
    → (n.connection c).state ≡ not_initialized
    → set_token_silent token c n
      ≡ ok (
          put_connection c (load token (n.connection c)) (
            put_connection c
              (record (n.connection c) {
                message = some (clone_for (n.connection c).active token);
                seq = suc (n.connection c).seq;
              })
              n))
unfolding set_token_silent set_state
set_token_silent-eq token c n s = ground arith

set_token_silent-Offered :
    (token : Token) (c : ℕ) (n : Net)
    → (n.connection c).state ≡ not_initialized
    → is_enabled n c ≡ true
    → Ensures (Offered token (c ∷ []) n) (set_token_silent token c n)
set_token_silent-Offered token c n s e = rw (set_token_silent-eq token c n s) (
    Ensures-ok _ record {
      connections = λ d. elim (Bool-cases (d == c)) [
        | inl q ↦ rw ((==_iff d c).0 q, ==_refl c, e)
        | inr q ↦ rw (==_not d c q, q)
      ];
      outputs = refl;
      inputs = refl;
      input_transitions = refl;
      output_transitions = refl;
      signals = refl;
    })

pub offer-Offered :
    (token : Token) (c : ℕ) (n : Net)
    → (n.connection c).state ≡ not_initialized
    → Ensures (Offered token (c ∷ []) n) (offer token c n)
unfolding offer
offer-Offered token c n s = elim (Bool-cases (is_enabled n c)) [
  | inl e ↦ rw e (set_token_silent-Offered token c n s e)
  | inr e ↦ rw e (
      Ensures-ok n record {
        connections = λ d. elim (Bool-cases (d == c)) [
          | inl q ↦ rw ((==_iff d c).0 q, ==_refl c, e)
          | inr q ↦ rw q
        ];
        outputs = refl;
        inputs = refl;
        input_transitions = refl;
        output_transitions = refl;
        signals = refl;
      })
]

-- A token does not change the ends of a connection.
pub load_ends :
    (b : Bool) (token : Token) (u v : Connection)
    → v ≡ (if b then load token u else u)
    → (v.from ≡ u.from) × (v.to ≡ u.to) × (v.detached ≡ u.detached)
load_ends true token u v h = (
  ap (λ (w : Connection). w.from) h,
  ap (λ (w : Connection). w.to) h,
  ap (λ (w : Connection). w.detached) h,
)
load_ends false token u v h = (
  ap (λ (w : Connection). w.from) h,
  ap (λ (w : Connection). w.to) h,
  ap (λ (w : Connection). w.detached) h,
)

pub Offered-is_enabled :
    (token : Token) (cs : List ℕ) (n n' : Net)
    → Offered token cs n n'
    → (d : ℕ) → is_enabled n' d ≡ is_enabled n d
unfolding is_enabled
Offered-is_enabled token cs n n' f d =
    let (from, to, detached) =
      load_ends (elem d cs && is_enabled n d) token (n.connection d) (n'.connection d)
        (f.connections d) in
    rw (from, to, f.outputs, f.inputs) refl

Offered-idle :
    (token : Token) (c : ℕ) (ds : List ℕ) (n m : Net)
    → Offered token (c ∷ []) n m
    → elem c ds ≡ false
    → All (λ d. (n.connection d).state ≡ not_initialized) ds
    → All (λ d. (m.connection d).state ≡ not_initialized) ds
Offered-idle token c [] n m f x h = tt
Offered-idle token c (d ∷ ds) n m f x h =
    let other : (d == c) ≡ false = ground (arith, x) in
    let same : m.connection d ≡ n.connection d = f.connections d ∙ rw other refl in
    (rw same h.0, Offered-idle token c ds n m f (ground (arith, x)) h.1)

load_again :
    (b e enabled : Bool) (token : Token) (u v w : Connection)
    → b && e ≡ false
    → v ≡ (if (b || false) && enabled then load token u else u)
    → w ≡ (if e && enabled then load token v else v)
    → w ≡ (if (b || e) && enabled then load token u else u)
load_again true true enabled token u v w x p q = cc
load_again true false enabled token u v w x p q = q ∙ p
load_again false e enabled token u v w x p q =
    q ∙ ap (λ k. if e && enabled then load token k else k) p

Offered-cons :
    (token : Token) (c : ℕ) (cs : List ℕ) (n m n' : Net)
    → elem c cs ≡ false
    → Offered token (c ∷ []) n m
    → Offered token cs m n'
    → Offered token (c ∷ cs) n n'
Offered-cons token c cs n m n' x f g = record {
  connections = λ d.
      load_again (d == c) (elem d cs) (is_enabled n d) token (n.connection d) (m.connection d)
        (n'.connection d) (apart d) (f.connections d)
        (rw (Offered-is_enabled token (c ∷ []) n m f d) at (g.connections d));
  outputs = g.outputs ∙ f.outputs;
  inputs = g.inputs ∙ f.inputs;
  input_transitions = g.input_transitions ∙ f.input_transitions;
  output_transitions = g.output_transitions ∙ f.output_transitions;
  signals = g.signals ∙ f.signals;
}
  where
    apart : (d : ℕ) → (d == c) && elem d cs ≡ false
    apart d = elim (Bool-cases (d == c)) [
      | inl q ↦ rw ((==_iff d c).0 q, ==_refl c) x
      | inr q ↦ rw q refl
    ]

pub for_each-Offered :
    (token : Token) (cs : List ℕ) (n : Net)
    → IsDistinct cs
    → All (λ c. (n.connection c).state ≡ not_initialized) cs
    → Ensures (Offered token cs n) (for_each (offer token) cs n)
unfolding for_each
for_each-Offered token [] n x h = Ensures-ok n record {
  connections = λ d. refl;
  outputs = refl;
  inputs = refl;
  input_transitions = refl;
  output_transitions = refl;
  signals = refl;
}
for_each-Offered token (c ∷ cs) n x h =
    Ensures-bind (offer token c n) (for_each (offer token) cs) (offer-Offered token c n h.0) λ m f.
      Ensures-mono _ (for_each-Offered token cs m x.1 (Offered-idle token c cs n m f x.0 h.1))
        (λ n' g. Offered-cons token c cs n m n' x.0 f g)
