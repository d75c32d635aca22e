-- ===== src/Executor/State.antt =====
-- The records of cloud-command-executor.ts and the events of cloud-protocol.ts that it uses.
-- The envelope fields, which the executor leaves out of every message, are left out here too.
use closedloop_electron.Base.{ℕ, Bool, Option, List, Text}
use closedloop_electron.Json.{Json}

-- `DesktopCommandEvent`. The headers and the query go to the gateway unread.
pub record Command : Type 0 where
  pub command_id : Text
  pub operation_id : Text
  pub method : Text
  pub path : Text
  pub body : Json
  pub timeout_ms : Option ℕ
  pub lock_key : Option Text

pub data EventType : Type 0 where
  status chunk result error done : EventType

-- `CommandEventRecord`
pub record EventRecord : Type 0 where
  pub sequence : ℕ
  pub event_type : EventType
  pub data_ : Json

-- `BufferedCommandEvents`
pub record Buffered : Type 0 where
  pub last_acked_sequence : ℕ
  pub events : List EventRecord

pub data CommandState : Type 0 where
  queued running terminal : CommandState

-- `TerminalCommandState`
pub data Outcome : Type 0 where
  finished failed cancelled : Outcome

-- `TrackedCommand`
pub record Tracked : Type 0 where
  pub command : Command
  pub state : CommandState
  pub terminal_state : Option Outcome
  pub completed_at : Option ℕ
  pub enqueued_at : ℕ
  pub last_emitted_sequence : ℕ
  pub buffered : Buffered

-- `RunningCommand`. The abort controller is the messages `abort`; the timer is its delay.
pub record Running : Type 0 where
  pub lock_key : Option Text
  pub cancel_requested : Bool
  pub cancel_reason : Option Text
  pub timed_out : Bool
  pub timeout : Option ℕ

-- What the executor hands to its callbacks and to the abort controllers, oldest first.
pub data Message : Type 0 where
  ack : Text → Bool → Text → Option Text → Message
  event : Text → EventRecord → Message
  stats : ℕ → ℕ → Message
  abort : Text → Text → Message

-- The fields of `CloudCommandExecutor`, with the messages sent so far.
pub record Executor : Type 0 where
  pub queue : List Command
  pub in_flight : List (Text × Running)
  pub lock_owners : List (Text × Text)
  pub tracked : List (Text × Tracked)
  pub connected : Bool
  pub disposed : Bool
  pub last_emitted_stats : Option (ℕ × ℕ)
  pub sent : List Message

abbrev pub is_terminal : CommandState → Bool
is_terminal terminal = Bool.true
is_terminal _ = Bool.false
