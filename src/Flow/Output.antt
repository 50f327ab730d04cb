-- ===== src/Flow/Output.antt =====
-- csapex_core/src/msg/output.cpp and static_output.cpp: committing and publishing a token.
use csapex.Base.{ℕ, suc, Bool, true, false, ◌&&◌, ◌||◌, not, any, Option, none, some, if◌then◌else◌}
use csapex.Base.Int.{pos, increment}
use csapex.Base.Result.{Result, ok, ◌>>=◌, ◌>>◌, assert, for_each}
use csapex.Flow.Token.{
  Token, make_empty_no_message, is_no_message, is_activate, is_deactivate, ActivityModifier,
  activate, deactivate,
}
use csapex.Flow.Net.{
  Net, unread, read, done, is_state, Output, OutputState, idle, put_output, emit, message_sent,
  is_enabled,
}
use csapex.Flow.Acknowledge.{set_processing, notify_processed, set_token_processed}
use csapex.Flow.Delivery.{set_token_silent, set_token, notify_message_set, read_token}

-- `StaticOutput::getToken() const`
unfoldable pub get_token : Output → Token
get_token v = elim v.committed_message [ none ↦ make_empty_no_message | some t ↦ t ]

-- The message that `commitMessages` takes, before it is numbered and marked.
unfoldable pub taken : Output → Token
taken v = elim v.message_to_send [ none ↦ make_empty_no_message | some t ↦ t ]

abbrev pub asks : (ActivityModifier → Bool) → Option Token → Bool
asks p none = false
asks p (some t) = p t.activity_modifier

-- The modifier of the committed token.
unfoldable pub committed_modifier : Bool → Bool → Token → Option Token → ActivityModifier
committed_modifier is_activated has_active token source =
    let send_activator = is_activated || asks is_activate source in
    let send_deactivator = asks is_deactivate source in
    if has_active && (send_activator || send_deactivator) && not (is_no_message token.data_)
    then (if send_activator then activate else deactivate)
    else ActivityModifier.none

-- `Connectable::hasActiveConnection`
unfoldable pub output_has_active_connection : ℕ → Net → Bool
output_has_active_connection o n = any (λ c. (n.connection c).active) (n.output o).connections

-- `StaticOutput::commitMessages`. That the pointer to send differs from the committed one is not
-- modelled.
unfoldable pub commit_messages : Bool → ℕ → Net → Result (Bool × Net)
commit_messages is_activated o n = do
  assert (n.output o).enabled
  let v = n.output o
  let token = taken v
  let modifier =
      committed_modifier is_activated (output_has_active_connection o n) token v.message_to_send
  let v' = record v {
    state = OutputState.active;
    message_to_send = none;
    committed_message =
        some (record token { seq_no = increment v.seq_no; activity_modifier = modifier });
    seq_no = increment v.seq_no;
    count = suc v.count;
  }
  ok (is_activate modifier || is_deactivate modifier, emit (message_sent o) (put_output o v' n))

-- The first loop of `publish`, one round.
unfoldable pub offer : Token → ℕ → Net → Result Net
offer token c n = if is_enabled n c then set_token_silent token c n else ok n

-- The second loop, one round.
unfoldable pub announce : ℕ → Net → Result Net
announce c n = if is_enabled n c then notify_message_set c n else ok n

-- `Output::publish`. `sent` is whether the first loop found an enabled connection.
unfoldable pub publish : ℕ → Net → Result Net
publish o n = do
  assert (not (n.output o).processing)
  assert (n.output o).enabled
  let token = get_token (n.output o)
  n1 ← set_processing true o n
  let cs = (n1.output o).connections
  let sent = any (λ c. is_enabled n1 c) cs
  n2 ← for_each (offer token) cs n1
  n3 ← for_each announce cs n2
  if sent then ok n3 else notify_processed o n3

-- The loop of `republish`, one round.
unfoldable pub offer_again : Token → ℕ → Net → Result Net
offer_again token c n =
    if is_enabled n c && is_state (n.connection c).state done then set_token token c n else ok n

-- `Output::republish`
unfoldable pub republish : ℕ → Net → Result Net
republish o n =
    if (n.output o).processing
    then for_each (offer_again (get_token (n.output o))) (n.output o).connections n
    else ok n

-- The loop of `Output::disable`, one round: an unread token is read, a read one acknowledged.
unfoldable pub drop_token : ℕ → Net → Result Net
drop_token c n = do
  n' ← elim (n.connection c).state [ unread ↦ (read_token c n >>= λ r. ok r.1) | _ ↦ ok n ]
  if is_state (n'.connection c).state read then set_token_processed c n' else ok n'

-- `StaticOutput::disable`
unfoldable pub disable_output : ℕ → Net → Result Net
disable_output o n = do
  let n1 = put_output o (record (n.output o) { enabled = false }) n
  n2 ←
      (if (n1.output o).processing then for_each drop_token (n1.output o).connections n1 else ok n1)
  ok (put_output o (record (n2.output o) { message_to_send = none; committed_message = none }) n2)

-- `StaticOutput::reset`
unfoldable pub reset_output : ℕ → Net → Net
reset_output o n =
    put_output o
      (record (n.output o) {
        processing = false;
        seq_no = pos 0;
        state = idle;
        message_to_send = none;
        committed_message = none;
      })
      n
