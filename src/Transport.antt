-- ===== src/Transport.antt =====
-- internal/transport/status.go: the state that the bridges to a node report.
pub mod Written
use gomeshcom_client.Prelude.{ℕ, Option}
use gomeshcom_client.Text.{Text}

pub data State : Type 0 where
  disconnected connecting connected degraded stopped : State

-- `E` stands for the errors of the transport, whose texts `LastError` holds; `none` is "".
pub record Status (E : Type 0) : Type 0 where
  pub mode : Text
  pub state : State
  pub endpoint : Text
  pub last_error : Option E
  pub last_error_at : Option ℕ
  pub connected_at : Option ℕ
  pub retry_count : ℕ
