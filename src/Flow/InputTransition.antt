-- ===== src/Flow/InputTransition.antt =====
-- csapex_core/src/msg/input_transition.cpp: handing the tokens of all connections to the inputs of a
-- node, and acknowledging them when the node is done. The map of inputs is a list, in the order in
-- which the map is walked.
use csapex.Base.{
  ℕ, Bool, true, false, List, [], ◌∷◌, ◌++◌, ◌&&◌, ◌||◌, not, any, all, none, some, if◌then◌else◌,
}
use csapex.Base.Int.{pos}
use csapex.Base.Result.{Result, ok, failed, ◌>>=◌, ◌>>◌, assert, for_each}
use csapex.Flow.Token.{make_empty_no_message}
use csapex.Flow.Net.{
  Net, not_initialized, unread, read, done, is_state, put_input, put_input_transition, is_enabled,
}
use csapex.Flow.Transition.{
  are_all_connections, are_all_connections_in, is_one_connection, has_connection,
}
use csapex.Flow.Acknowledge.{is_empty, set_state, set_token_processed}
use csapex.Flow.Delivery.{set_input_token, set_input_message, set_token}
use csapex.Flow.OutputTransition.{reset_connections}

-- The connection that the code takes from an input: it asserts that there is one alone.
abbrev pub single : List ℕ → Result ℕ
single [] = failed
single (c ∷ []) = ok c
single (c ∷ d ∷ cs) = failed

unfoldable pub has_enabled_connection : ℕ → Net → Bool
has_enabled_connection i n = any (λ c. is_enabled n c) (n.input i).connections

unfoldable pub take_token : ℕ → Net → Result Net
take_token i n = do
  c ← single (n.input i).connections
  let s = (n.connection c).state
  assert (is_state s read || is_state s unread)
  set_input_message (n.connection c).message i n

-- The first loop of `forwardMessages`, one round.
unfoldable pub hand_over : ℕ → Net → Result Net
hand_over i n =
    if has_enabled_connection i n
    then take_token i n
    else ok (set_input_token make_empty_no_message i n)

-- The second loop, one round: only assertions.
unfoldable pub check_holds : ℕ → Net → Result Net
check_holds c n =
    if is_enabled n c
    then (do
      assert (not (is_state (n.connection c).state not_initialized))
      assert (is_state (n.connection c).state unread || is_state (n.connection c).state read)
      ok n)
    else ok n

-- The third loop, one round.
unfoldable pub mark_read : ℕ → Net → Result Net
mark_read c n = if is_enabled n c then set_state read c n else ok n

-- What `forwardMessages` does where there is an enabled connection.
unfoldable pub forward_tokens : ℕ → Net → Result Net
forward_tokens t n = do
  let cs = (n.input_transition t).connections
  assert (not (n.input_transition t).forwarded)
  assert (not (is_one_connection done cs n))
  assert (are_all_connections unread cs n)
  assert (is_empty cs || not (are_all_connections read cs n))
  n1 ← for_each hand_over (n.input_transition t).inputs n
  n2 ← for_each check_holds cs n1
  assert (not (are_all_connections done cs n2))
  n3 ← for_each mark_read cs n2
  assert (are_all_connections read cs n3)
  ok n3

unfoldable pub set_flags : Bool → Bool → ℕ → Net → Net
set_flags forwarded processed t n =
    put_input_transition t
      (record (n.input_transition t) { forwarded = forwarded; processed = processed }) n

-- `InputTransition::forwardMessages`
unfoldable pub forward_messages : ℕ → Net → Result Net
forward_messages t n =
    if (n.input_transition t).forwarded then ok (set_flags true false t n) else (do
      let n1 = set_flags false false t n
      n2 ←
          (if has_connection (n.input_transition t).connections n1
            then forward_tokens t n1
            else ok n1)
      ok (set_flags true false t n2))

-- `InputTransition::notifyMessageProcessed`
unfoldable pub notify_inputs_processed : ℕ → Net → Result Net
notify_inputs_processed t n =
    let cs = (n.input_transition t).connections in
    if (n.input_transition t).processed
    then ok n
    else if are_all_connections_in read not_initialized cs n
    then for_each set_token_processed cs (set_flags false true t n)
    else ok n

-- `InputTransition::areMessagesComplete`
unfoldable pub are_messages_complete : ℕ → Net → Bool
are_messages_complete t n =
    all
      (λ i.
        is_empty (n.input i).connections
        || (elim (n.input i).message [ none ↦ false | some m ↦ true ]))
      (n.input_transition t).inputs

-- `Transition::addConnection` of an input transition, with `connectionAdded`: a connection that joins
-- while the others hold a token gets an empty one.
unfoldable pub add_connection : ℕ → ℕ → Net → Result Net
add_connection t c n =
    let tr = n.input_transition t in
    let n1 = put_input_transition t (record tr { connections = tr.connections ++ c ∷ [] }) n in
    let cs = tr.connections ++ c ∷ [] in
    let has_read = is_one_connection read cs n1 in
    let has_unread = is_one_connection unread cs n1 in
    if (has_unread || has_read) && is_state (n1.connection c).state not_initialized
    then (do
      n2 ← set_token make_empty_no_message c n1
      if has_unread then ok n2 else set_state read c n2)
    else ok n1

-- `InputTransition::reset`, with `Input::reset` for each input
unfoldable pub reset_inputs : List ℕ → Net → Net
reset_inputs [] n = n
reset_inputs (i ∷ is) n =
    reset_inputs is (put_input i (record (n.input i) { message = none; seq_no = pos 0 }) n)

unfoldable pub reset_input_transition : ℕ → Net → Net
reset_input_transition t n = set_flags false false t (
    reset_connections (n.input_transition t).connections
      (reset_inputs (n.input_transition t).inputs n))
