-- ===== src/Flow/Tests.antt =====
-- A small net, for the objects of csapex_core that pass tokens: output 0 feeds inputs 0 and 1 through
-- connections 0 and 1; each input has the input transition of its number.
use csapex.Base.{
  ℕ, ◌+◌, zero, suc, ◌≡◌, refl, Bool, true, false, not, ◌&&◌, List, [], ◌∷◌, none, some, elem,
  if◌then◌else◌, inl, inr,
}
use csapex.Base.Int.{pos}
use csapex.Base.Result.{ok, failed, for_each, Ensures}
use csapex.Flow.Token.{Token, message, ActivityModifier}
use csapex.Flow.Net.{
  Net, State, not_initialized, unread, read, Connection, Output, active, idle, Input, is_enabled,
}
use csapex.Flow.Transition.{
  are_all_connections_in, has_connection, are_all_connections, is_one_connection,
}
use csapex.Flow.Acknowledge.{
  set_state, set_token_processed, are_all_done, set_processing, notify_message_processed,
  notify_connection_processed, notify_processed, acknowledge, set_output_state,
  emit_message_processed, can_start_sending_messages, check_if_output_enabled, token_processed,
}
use csapex.Flow.Delivery.{
  set_token_silent, read_token, clone_for, notify_message_set, notify_message_available,
  check_if_input_enabled, is_input_enabled,
}
use csapex.Flow.Output.{publish, get_token, offer, announce}
use csapex.Flow.Forwarding.{token_for}
use csapex.Flow.Forwarded.{forward_messages_hands_over}
use csapex.Flow.Published.{Published, publish_loads}
use csapex.Flow.InputTransition.{notify_inputs_processed, forward_messages}
use csapex.Flow.Processed.{notify_inputs_processed_settles, notify_inputs_processed_fails}
use csapex.Flow.Release.{released, set_token_processed_releases}
use csapex.Flow.Counting.{count_processed}
use csapex.Flow.Tuned.{IsTuned, one_if}
use csapex.Flow.Protocol.{Use, publishes, reads, releases, use_once, use_all, use_all_counts}

abbrev hello : Token
hello = record { data_ = message 42; activity_modifier = ActivityModifier.none; seq_no = pos 3 }

abbrev line : State → ℕ → Connection
line s to = record {
  from = 0;
  to = to;
  active = false;
  detached = false;
  state = s;
  message = some hello;
  seq = 1;
}

abbrev source : Output
source = record {
  enabled = true;
  processing = true;
  state = active;
  seq_no = pos 3;
  count = 1;
  connections = 0 ∷ 1 ∷ [];
  transition = some 0;
  message_to_send = none;
  committed_message = some hello;
}

abbrev sink : Bool → ℕ → Input
sink enabled i = record {
  enabled = enabled;
  seq_no = pos 3;
  count = 1;
  connections = i ∷ [];
  transition = some i;
  message = some hello;
}

-- Connection 0 is in state `s`, all others are in state `r`; input 0 is enabled or not.
abbrev net : State → State → Bool → Net
net s r enabled = record {
  connection = λ c. line (elim c [ zero ↦ s | suc k ↦ r ]) c;
  output = λ o. source;
  input = λ i. sink (elim i [ zero ↦ enabled | suc k ↦ true ]) i;
  output_transition =
      λ t. record { outputs = 0 ∷ []; connections = 0 ∷ 1 ∷ []; sequence_number = pos 3 };
  input_transition =
      λ t. record { inputs = t ∷ []; connections = t ∷ []; forwarded = true; processed = false };
  signals = [];
}

notify_inputs_processed_settles_example :
    let n = net read read true in
    Ensures
      (λ n'.
        ((d : ℕ)
          → n'.connection d ≡ (
              if elem d (0 ∷ [])
              then record (n.connection d) { state = not_initialized }
              else n.connection d))
        × (n'.input ≡ n.input)
        × ((n'.input_transition 0).forwarded ≡ false)
        × ((n'.input_transition 0).processed ≡ true))
      (notify_inputs_processed 0 n)
notify_inputs_processed_settles_example =
    notify_inputs_processed_settles 0 (net read read true) refl (inl refl, tt)

notify_inputs_processed_fails_example :
    let n = net unread read false in
    (is_enabled n 0 ≡ false) × (notify_inputs_processed 0 n ≡ failed)
unfolding are_all_connections_in is_enabled
notify_inputs_processed_fails_example =
    notify_inputs_processed_fails 0 0 (net unread read false) refl refl refl refl

set_token_processed_releases_example :
    let n = net read not_initialized true in
    let all_done = are_all_done (0 ∷ 1 ∷ []) (released 0 n) in
    Ensures
      (λ n'.
        ((n'.output 0).processing ≡ not all_done)
        × ((n'.output 0).state ≡ (if all_done then idle else active)))
      (set_token_processed 0 n)
set_token_processed_releases_example =
    set_token_processed_releases 0 (net read not_initialized true) refl refl refl

-- The output has a committed token, and both connections are free.
abbrev committed : Net
committed = record (net not_initialized not_initialized true) {
  output = λ o. record source { processing = false };
}

committed-IsTuned : IsTuned 0 committed
committed-IsTuned = record {
  distinct = (refl, (refl, tt));
  attended = λ c h. (c, refl);
  ends = λ c h. (refl, refl);
  busy = refl;
}

-- A token is read and acknowledged on both connections, and another one is published.
abbrev calls : List Use
calls = publishes ∷ reads 0 ∷ reads 1 ∷ releases 1 ∷ releases 0 ∷ publishes ∷ []

-- The net after these calls
used : Net
unfolding use_all use_once
used = elim (use_all calls 0 committed) [ ok n ↦ n | failed ↦ committed ]

use_all_counts_example :
    (2 + 0 ≡ count_processed 0 used.signals + one_if (used.output 0).processing)
    × ((used.output 0).processing ≡ not (are_all_done (0 ∷ 1 ∷ []) used))
unfolding used use_all use_once publish read_token set_token_processed set_processing for_each offer
    is_enabled set_token_silent set_state announce notify_message_set notify_message_available
    check_if_input_enabled is_input_enabled notify_message_processed notify_connection_processed
    notify_processed acknowledge set_output_state emit_message_processed can_start_sending_messages
    check_if_output_enabled token_processed clone_for get_token are_all_connections
    are_all_connections_in is_one_connection
use_all_counts_example =
    use_all_counts calls 0 committed used committed-IsTuned refl
      (tt, (refl, (refl, (refl, (refl, (tt, tt)))))) refl

publish_loads_example : Ensures (Published 0 hello committed) (publish 0 committed)
unfolding get_token
publish_loads_example =
    publish_loads 0 committed refl refl (refl, (refl, tt)) (refl, (refl, tt))
      ((0, refl), ((1, refl), tt))

-- Input transition 0, whose input 0 has an unread token on connection 0.
abbrev arrived : Net
arrived = record (net unread unread true) {
  input_transition =
      λ t. record { inputs = t ∷ []; connections = t ∷ []; forwarded = false; processed = true };
}

forward_messages_hands_over_example :
    Ensures
      (λ n'.
        ((d : ℕ)
          → n'.connection d ≡ (
              if elem d (0 ∷ []) && is_enabled arrived d
              then record (arrived.connection d) { state = read }
              else arrived.connection d))
        × ((d : ℕ)
            → (n'.input d).message
              ≡ (if elem d (0 ∷ []) then some (token_for arrived d) else (arrived.input d).message))
        × ((n'.input_transition 0).forwarded ≡ true)
        × ((n'.input_transition 0).processed ≡ false))
      (forward_messages 0 arrived)
unfolding has_connection is_enabled
forward_messages_hands_over_example =
    forward_messages_hands_over 0 arrived refl refl (inr refl, tt)
      (inr (0, hello, refl, refl, refl), tt)
