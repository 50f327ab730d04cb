-- ===== src/Flow/Net.antt =====
-- The objects of csapex_core that share tokens, in one store: connections, outputs and inputs, and
-- the transitions that group them for a node. A pointer is the number of an object of its kind, a
-- vector or map of pointers is a list of numbers, and a null pointer is `none`.
use csapex.Base.{ℕ, Bool, List, ◌∷◌, ◌&&◌, Option, update}
use csapex.Base.Int.{ℤ}
use csapex.Flow.Token.{Token}

-- `DONE` is the same enumerator as `NOT_INITIALIZED`.
pub data State : Type 0 where
  not_initialized unread read : State

abbrev pub done : State
done = not_initialized

abbrev pub is_state : State → State → Bool
is_state not_initialized not_initialized = Bool.true
is_state unread unread = Bool.true
is_state read read = Bool.true
is_state _ _ = Bool.false

-- `seq` counts the tokens without a bound; `seq_` is an `int`.
pub record Connection : Type 0 where
  pub from : ℕ
  pub to : ℕ
  pub active : Bool
  pub detached : Bool
  pub state : State
  pub message : Option Token
  pub seq : ℕ

pub data OutputState : Type 0 where
  active idle : OutputState

abbrev pub is_idle : OutputState → Bool
is_idle idle = Bool.true
is_idle active = Bool.false

-- A `StaticOutput`.
pub record Output : Type 0 where
  pub enabled : Bool
  pub processing : Bool
  pub state : OutputState
  pub seq_no : ℤ
  pub count : ℕ
  pub connections : List ℕ
  pub transition : Option ℕ
  pub message_to_send : Option Token
  pub committed_message : Option Token

pub record Input : Type 0 where
  pub enabled : Bool
  pub seq_no : ℤ
  pub count : ℕ
  pub connections : List ℕ
  pub transition : Option ℕ
  pub message : Option Token

pub record OutputTransition : Type 0 where
  pub outputs : List ℕ
  pub connections : List ℕ
  pub sequence_number : ℤ

pub record InputTransition : Type 0 where
  pub inputs : List ℕ
  pub connections : List ℕ
  pub forwarded : Bool
  pub processed : Bool

-- What objects outside the store hear of.
pub data Signal : Type 0 where
  output_enabled input_enabled messages_processed : ℕ → Signal
  message_sent message_processed message_set : ℕ → Signal

-- The signals are listed with the latest first.
pub record Net : Type 0 where
  pub connection : ℕ → Connection
  pub output : ℕ → Output
  pub input : ℕ → Input
  pub output_transition : ℕ → OutputTransition
  pub input_transition : ℕ → InputTransition
  pub signals : List Signal

abbrev pub put_connection : ℕ → Connection → Net → Net
put_connection c v n = record n { connection = update n.connection c v }

abbrev pub put_output : ℕ → Output → Net → Net
put_output o v n = record n { output = update n.output o v }

abbrev pub put_input : ℕ → Input → Net → Net
put_input i v n = record n { input = update n.input i v }

abbrev pub put_output_transition : ℕ → OutputTransition → Net → Net
put_output_transition t v n = record n { output_transition = update n.output_transition t v }

abbrev pub put_input_transition : ℕ → InputTransition → Net → Net
put_input_transition t v n = record n { input_transition = update n.input_transition t v }

abbrev pub emit : Signal → Net → Net
emit g n = record n { signals = g ∷ n.signals }

-- `Connection::isEnabled`
unfoldable pub is_enabled : Net → ℕ → Bool
is_enabled n c = (n.output (n.connection c).from).enabled && (n.input (n.connection c).to).enabled
