-- ===== src/Flow/Transition.antt =====
-- csapex_core/src/msg/transition.cpp: the questions that a transition asks of its connections. Only
-- enabled connections count. `checkIfEnabled` of the two kinds of transition is in `Acknowledge` and
-- `Delivery`.
use csapex.Base.{ℕ, Bool, List, ◌&&◌, not, all, any}
use csapex.Flow.Net.{Net, State, is_state, is_enabled}

unfoldable pub are_all_connections : State → List ℕ → Net → Bool
are_all_connections s cs n =
    all (λ c. not (is_enabled n c && not (is_state (n.connection c).state s))) cs

unfoldable pub are_all_connections_in : State → State → List ℕ → Net → Bool
are_all_connections_in a b cs n =
    all
      (λ c. not (
        is_enabled n c
        && not (is_state (n.connection c).state a)
        && not (is_state (n.connection c).state b)))
      cs

unfoldable pub is_one_connection : State → List ℕ → Net → Bool
is_one_connection s cs n = any (λ c. is_enabled n c && is_state (n.connection c).state s) cs

unfoldable pub has_connection : List ℕ → Net → Bool
has_connection cs n = any (λ c. is_enabled n c) cs

unfoldable pub has_active_connection : List ℕ → Net → Bool
has_active_connection cs n = any (λ c. is_enabled n c && (n.connection c).active) cs
