-- ===== src/Flow/Delivery.antt =====
-- How a token reaches an input: csapex_core/src/model/connection.cpp (`setToken`, `readToken`,
-- `notifyMessageSet`, `reset`), src/msg/input.cpp, and whether an input transition may run
-- (src/msg/input_transition.cpp).
use csapex.Base.{ℕ, suc, Bool, true, false, ◌&&◌, not, Option, none, some, if◌then◌else◌}
use csapex.Base.Result.{Result, ok, failed, ◌>>=◌, ◌>>◌, assert}
use csapex.Flow.Token.{Token, has_activity_modifier, is_marker_message, ActivityModifier}
use csapex.Flow.Net.{
  Net, not_initialized, unread, read, is_state, put_connection, put_input, emit, input_enabled,
  message_set,
}
use csapex.Flow.Transition.{are_all_connections, are_all_connections_in, is_one_connection}
use csapex.Flow.Acknowledge.{set_state, set_token_processed, is_empty}

-- `InputTransition::isEnabled`
unfoldable pub is_input_enabled : ℕ → Net → Bool
is_input_enabled t n =
    let tr = n.input_transition t in
    if is_empty tr.inputs
    then true
    else if tr.forwarded
    then false
    else if not (are_all_connections_in unread read tr.connections n)
    then false
    else if is_one_connection not_initialized tr.connections n
    then false
    else are_all_connections unread tr.connections n

-- `Transition::checkIfEnabled` of an input transition
unfoldable pub check_if_input_enabled : ℕ → Net → Net
check_if_input_enabled t n = if is_input_enabled t n then emit (input_enabled t) n else n

-- `Input::setToken`
unfoldable pub set_input_token : Token → ℕ → Net → Net
set_input_token token i n =
    let input = n.input i in
    emit (message_set i) (
      put_input i
        (record input {
          seq_no = if is_marker_message token.data_ then input.seq_no else token.seq_no;
          message = some token;
          count = suc input.count;
        })
        n)

-- The assertion of `Input::setToken` that the pointer is not null.
unfoldable pub set_input_message : Option Token → ℕ → Net → Result Net
set_input_message none i n = failed
set_input_message (some token) i n = ok (set_input_token token i n)

-- `Connection::readToken`: the token is returned and the connection marked read.
unfoldable pub read_token : ℕ → Net → Result (Option Token × Net)
read_token c n = do n' ← set_state read c n; ok ((n'.connection c).message, n')

-- What an input without a transition does with an available token.
unfoldable pub consume : ℕ → ℕ → Net → Result Net
consume i c n = do r ← read_token c n; n' ← set_input_message r.0 i r.1; set_token_processed c n'

-- `Input::notifyMessageAvailable`
unfoldable pub notify_message_available : ℕ → ℕ → Net → Result Net
notify_message_available i c n = elim (n.input i).transition [
  | some t ↦ ok (check_if_input_enabled t n)
  | none ↦ consume i c n
]

-- `Connection::notifyMessageSet`
unfoldable pub notify_message_set : ℕ → Net → Result Net
notify_message_set c n =
    if (n.connection c).detached then ok n else notify_message_available (n.connection c).to c n

-- The clone that a connection keeps: an inactive connection takes the activity modifier off.
unfoldable pub clone_for : Bool → Token → Token
clone_for active token =
    if not active && has_activity_modifier token
    then record token { activity_modifier = ActivityModifier.none }
    else token

-- `Connection::setToken`, up to the notification
unfoldable pub set_token_silent : Token → ℕ → Net → Result Net
set_token_silent token c n = do
  assert (is_state (n.connection c).state not_initialized)
  let v = n.connection c
  set_state unread c
      (put_connection c (record v { message = some (clone_for v.active token); seq = suc v.seq }) n)

unfoldable pub set_token : Token → ℕ → Net → Result Net
set_token token c n = do n' ← set_token_silent token c n; notify_message_set c n'

-- `Connection::reset`
unfoldable pub reset_connection : ℕ → Net → Net
reset_connection c n =
    put_connection c (record (n.connection c) { state = not_initialized; message = none }) n
