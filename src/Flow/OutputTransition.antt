-- ===== src/Flow/OutputTransition.antt =====
-- csapex_core/src/msg/output_transition.cpp: sending the tokens of all outputs of a node. The map of
-- outputs is a list, in the order in which the map is walked.
use csapex.Base.{ℕ, Bool, false, List, [], ◌∷◌, ◌||◌, all, if◌then◌else◌}
use csapex.Base.Int.{ℤ, minus_one, int_eq}
use csapex.Base.Result.{Result, ok, ◌>>=◌, ◌>>◌, assert, for_each}
use csapex.Flow.Net.{Net, not_initialized, idle, is_idle, put_output, put_output_transition}
use csapex.Flow.Transition.{are_all_connections, has_connection}
use csapex.Flow.Acknowledge.{is_empty, set_output_state}
use csapex.Flow.Delivery.{reset_connection}
use csapex.Flow.Output.{commit_messages, publish, reset_output}

-- `OutputTransition::setSequenceNumber`
unfoldable pub number_outputs : ℤ → List ℕ → Net → Net
number_outputs s [] n = n
number_outputs s (o ∷ os) n =
    number_outputs s os (put_output o (record (n.output o) { seq_no = s }) n)

unfoldable pub set_sequence_number : ℤ → ℕ → Net → Net
set_sequence_number s t n =
    let tr = n.output_transition t in
    number_outputs s tr.outputs (put_output_transition t (record tr { sequence_number = s }) n)

unfoldable pub are_outputs_idle : ℕ → Net → Bool
are_outputs_idle t n = all (λ o. is_idle (n.output o).state) (n.output_transition t).outputs

unfoldable pub idle_outputs : List ℕ → Net → Net
idle_outputs [] n = n
idle_outputs (o ∷ os) n = idle_outputs os (set_output_state idle o n)

unfoldable pub set_outputs_idle : ℕ → Net → Net
set_outputs_idle t n = idle_outputs (n.output_transition t).outputs n

-- The loop of `fillConnections`, one round.
unfoldable pub publish_enabled : ℕ → Net → Result Net
publish_enabled o n = if (n.output o).enabled then publish o n else ok n

unfoldable pub publish_all : ℕ → Net → Result Net
publish_all t n = do
  assert (are_all_connections not_initialized (n.output_transition t).connections n)
  for_each publish_enabled (n.output_transition t).outputs n

unfoldable pub fill_connections : ℕ → Net → Result Net
fill_connections t n =
    if is_empty (n.output_transition t).outputs
    then ok n
    else if are_outputs_idle t n
    then ok n
    else publish_all t n

-- The first loop of `sendMessages`, and whether an activator message was sent.
unfoldable pub commit_all : Bool → List ℕ → Bool → Net → Result (Bool × Net)
commit_all is_active [] sent n = ok (sent, n)
commit_all is_active (o ∷ os) sent n = do
  r ← (if (n.output o).enabled then commit_messages is_active o n else ok (false, n))
  commit_all is_active os (sent || r.0) r.1

-- The second loop: the number of the first output (that numbers differ is only reported).
unfoldable pub first_sequence_number : ℤ → List ℕ → Net → ℤ
first_sequence_number s [] n = s
first_sequence_number s (o ∷ os) n =
    first_sequence_number (if int_eq s minus_one then (n.output o).seq_no else s) os n

unfoldable pub send_messages : Bool → ℕ → Net → Result (Bool × Net)
send_messages is_active t n = do
  assert (are_all_connections not_initialized (n.output_transition t).connections n)
  r ← commit_all is_active (n.output_transition t).outputs false n
  let n1 = r.1
  let s = first_sequence_number minus_one (n1.output_transition t).outputs n1
  n2 ← fill_connections t (set_sequence_number s t n1)
  ok (
    r.0,
    if has_connection (n2.output_transition t).connections n2 then n2 else set_outputs_idle t n2,
  )

unfoldable pub reset_connections : List ℕ → Net → Net
reset_connections [] n = n
reset_connections (c ∷ cs) n = reset_connections cs (reset_connection c n)

unfoldable pub reset_outputs : List ℕ → Net → Net
reset_outputs [] n = n
reset_outputs (o ∷ os) n = reset_outputs os (reset_output o n)

-- `OutputTransition::reset`
unfoldable pub reset_output_transition : ℕ → Net → Net
reset_output_transition t n =
    reset_outputs (n.output_transition t).outputs
      (reset_connections (n.output_transition t).connections n)
