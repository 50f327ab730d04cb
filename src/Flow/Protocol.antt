-- ===== src/Flow/Protocol.antt =====
-- Proofs about csapex_core/src/msg/output.cpp and model/connection.cpp: the tokens of an output, one after the
-- other.
use csapex.Base.{
  ℕ, ◌+◌, ◌≡◌, ◌∙◌, refl, not, Bool, true, List, [], ◌∷◌, elem, All, ap, subst, arith,
}
use csapex.Base.Result.{Result, ok, ◌>>=◌, >>=-eq-ok}
use csapex.Flow.Net.{Net}
use csapex.Flow.Acknowledge.{set_token_processed, are_all_done}
use csapex.Flow.Delivery.{read_token}
use csapex.Flow.Output.{publish}
use csapex.Flow.Counting.{count_processed}
use csapex.Flow.Tuned.{
  IsTuned, one_if, in_all, Stepped, publish-Stepped, read_token-Stepped,
  set_token_processed-Stepped,
}

-- A call on an output, or on the connection of the number.
pub data Use : Type 0 where
  publishes : Use
  reads releases : ℕ → Use

unfoldable pub use_once : Use → ℕ → Net → Result Net
use_once publishes o n = publish o n
use_once (reads c) o n = read_token c n >>= λ r. ok r.1
use_once (releases c) o n = set_token_processed c n

unfoldable pub use_all : List Use → ℕ → Net → Result Net
use_all [] o n = ok n
use_all (u ∷ us) o n = use_once u o n >>= use_all us o

-- The call is on one of the connections.
abbrev pub IsOn : List ℕ → Use → Type 0
IsOn cs publishes = Unit
IsOn cs (reads c) = elem c cs ≡ true
IsOn cs (releases c) = elem c cs ≡ true

-- How many tokens the calls publish.
abbrev pub published : Use → ℕ
published publishes = 1
published _ = 0

abbrev pub all_published : List Use → ℕ
all_published [] = 0
all_published (u ∷ us) = published u + all_published us

use_once-Stepped :
    (u : Use) (o : ℕ) (n m : Net)
    → IsTuned o n
    → IsOn (n.output o).connections u
    → use_once u o n ≡ ok m
    → Stepped (published u) o n m
unfolding use_once
use_once-Stepped publishes o n m T i e = publish-Stepped o n m T e
use_once-Stepped (reads c) o n m T i e =
    let (r, f, g) = >>=-eq-ok (read_token c n) (λ r. ok r.1) e in
    let same : r.1 ≡ m = cc g in subst (Stepped 0 o n) same (read_token-Stepped o c n r T i f)
use_once-Stepped (releases c) o n m T i e = set_token_processed-Stepped o c n m T i e

use_all-Stepped :
    (us : List Use) (o : ℕ) (n m : Net)
    → IsTuned o n
    → All (IsOn (n.output o).connections) us
    → use_all us o n ≡ ok m
    → Stepped (all_published us) o n m
unfolding use_all
use_all-Stepped [] o n m T i e =
    let same : n ≡ m = cc e in
    subst (Stepped 0 o n) same (record { tuned = T; ports = refl; counted = omega arith })
use_all-Stepped (u ∷ us) o n m T i e =
    let (k, f, g) = >>=-eq-ok (use_once u o n) (use_all us o) e in
    let one = use_once-Stepped u o n k T i.0 f in
    let rest = use_all-Stepped us o k m one.tuned (rw one.ports i.1) g in
    record {
      tuned = rest.tuned;
      ports = rest.ports ∙ one.ports;
      counted = omega (arith, one.counted, rest.counted);
    }

-- An output that is not processing, whose connections are distinct, done, attached to it and to inputs of nodes:
-- tokens are published, and read and acknowledged on its connections, in any order in which no assertion
-- fails. Then every published token was reported once by the output as processed, but for one that is
-- pending exactly while the output is processing; and the output is processing exactly while some connection of
-- it is not done.
pub use_all_counts :
    (us : List Use) (o : ℕ) (n m : Net)
    → IsTuned o n
    → (n.output o).processing ≡ Bool.false
    → All (IsOn (n.output o).connections) us
    → use_all us o n ≡ ok m
    → (all_published us + count_processed o n.signals
        ≡ count_processed o m.signals + one_if (m.output o).processing)
      × ((m.output o).processing ≡ not (are_all_done (n.output o).connections m))
use_all_counts us o n m T p i e =
    let s = use_all-Stepped us o n m T i e in
    let before : in_all o n ≡ count_processed o n.signals + 0 =
      ap (λ b. count_processed o n.signals + one_if b) p in
    (omega (arith, before, s.counted), s.tuned.busy ∙ ap (λ cs. not (are_all_done cs m)) s.ports)
