-- ===== src/Terminal/Types.antt =====
-- The types of frontend/src/features/terminal/api/client.ts.
use rune_terminal.Base.{ℕ, ℤ, Bool, Option, List}
use rune_terminal.Text.{Text}

pub record TerminalRuntimeState : Type 0 where
  pub widget_id : Text
  pub session_id : Text
  pub shell : Text
  pub restored : Option Bool
  pub status_detail : Option Text
  pub connection_id : Option Text
  pub connection_name : Option Text
  pub connection_kind : Option Text
  pub remote_launch_mode : Option Text
  pub remote_session_name : Option Text
  pub pid : ℕ
  pub status : Text
  pub started_at : Text
  pub last_output_at : Option Text
  pub exit_code : Option ℤ
  pub can_send_input : Bool
  pub can_interrupt : Bool
  pub working_dir : Option Text

-- `content` is the field `data`.
pub record TerminalOutputChunk : Type 0 where
  pub seq : ℕ
  pub content : Text
  pub timestamp : Text

pub record TerminalSnapshot : Type 0 where
  pub state : TerminalRuntimeState
  pub chunks : List TerminalOutputChunk
  pub next_seq : ℕ
  pub active_session_id : Option Text
  pub sessions : List TerminalRuntimeState

pub record TerminalShellOption : Type 0 where
  pub path : Text
  pub name : Text
  pub is_default : Option Bool
