-- ===== src/Flow/Acknowledge.antt =====
-- How a token is acknowledged: the states of csapex_core/src/model/connection.cpp, and the calls back
-- to the output that sent the token (src/msg/output.cpp) and to its node's output transition
-- (src/msg/output_transition.cpp).
use csapex.Base.{
  ℕ, Bool, true, false, List, [], ◌∷◌, ◌&&◌, ◌||◌, not, all, none, some, if◌then◌else◌,
}
use csapex.Base.Result.{Result, ok, ◌>>=◌, ◌>>◌, assert}
use csapex.Flow.Net.{
  Net, State, not_initialized, unread, read, done, is_state, OutputState, idle, is_idle,
  put_connection, put_output, emit, output_enabled, messages_processed, message_processed,
}
use csapex.Flow.Transition.{are_all_connections, are_all_connections_in}

-- What `setState` asserts of the state before. `DONE` and `NOT_INITIALIZED` are one case.
abbrev pub may_enter : State → State → Bool
may_enter unread s = is_state s not_initialized
may_enter read s = is_state s unread || is_state s read
may_enter not_initialized s = is_state s done || is_state s read

-- `Connection::setState`
unfoldable pub set_state : State → ℕ → Net → Result Net
set_state s c n = do
  assert (may_enter s (n.connection c).state)
  ok (put_connection c (record (n.connection c) { state = s }) n)

abbrev pub is_empty : List ℕ → Bool
is_empty [] = true
is_empty (c ∷ cs) = false

abbrev pub differs : Bool → Bool → Bool
differs true b = not b
differs false b = b

-- `OutputTransition::canStartSendingMessages`, and `isEnabled` of an output transition
unfoldable pub can_start_sending_messages : ℕ → Net → Bool
can_start_sending_messages t n =
    all
      (λ o. not (
        (n.output o).enabled
        && not (is_empty (n.output o).connections)
        && not (is_idle (n.output o).state)))
      (n.output_transition t).outputs
    && are_all_connections_in done not_initialized (n.output_transition t).connections n

-- `Transition::checkIfEnabled` of an output transition: the signal stands for the call of the
-- activation function and for `enabled_changed`.
unfoldable pub check_if_output_enabled : ℕ → Net → Net
check_if_output_enabled t n =
    if can_start_sending_messages t n then emit (output_enabled t) n else n

-- `OutputTransition::tokenProcessed`
unfoldable pub token_processed : ℕ → Net → Net
token_processed t n =
    if are_all_connections done (n.output_transition t).connections n
    then check_if_output_enabled t (emit (messages_processed t) n)
    else n

-- `Output::setState`
unfoldable pub set_output_state : OutputState → ℕ → Net → Net
set_output_state s o n = put_output o (record (n.output o) { state = s }) n

-- `Connectable::setProcessing`
unfoldable pub set_processing : Bool → ℕ → Net → Result Net
set_processing p o n = do
  assert (differs p (n.output o).processing)
  ok (put_output o (record (n.output o) { processing = p }) n)

abbrev pub are_all_done : List ℕ → Net → Bool
are_all_done cs n = all (λ c. is_state (n.connection c).state done) cs

-- What hears the signal `message_processed` of an output: its node's transition, if it has one.
unfoldable pub emit_message_processed : ℕ → Net → Net
emit_message_processed o n = elim (n.output o).transition [
  | none ↦ emit (message_processed o) n
  | some t ↦ token_processed t (emit (message_processed o) n)
]

-- `Output::notifyMessageProcessed()`, for an output that is processing
unfoldable pub acknowledge : ℕ → Net → Result Net
acknowledge o n = do
  n1 ← set_processing false o n
  let n2 = set_output_state idle o n1
  assert (are_all_done (n2.output o).connections n2)
  ok (emit_message_processed o n2)

unfoldable pub notify_processed : ℕ → Net → Result Net
notify_processed o n = if (n.output o).processing then acknowledge o n else ok n

-- `Output::notifyMessageProcessed(Connection*)`
unfoldable pub notify_connection_processed : ℕ → Net → Result Net
notify_connection_processed o n =
    if are_all_done (n.output o).connections n then notify_processed o n else ok n

-- `Connection::notifyMessageProcessed`
unfoldable pub notify_message_processed : ℕ → Net → Result Net
notify_message_processed c n =
    if (n.connection c).detached then ok n else notify_connection_processed (n.connection c).from n

-- `Connection::setTokenProcessed`
unfoldable pub set_token_processed : ℕ → Net → Result Net
set_token_processed c n =
    if is_state (n.connection c).state done
    then ok n
    else (set_state done c n >>= notify_message_processed c)
