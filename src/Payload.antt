-- ===== src/Payload.antt =====
-- process_payload.c: what a complete message does.
pub mod Naming
pub mod Returns
pub mod Chat
use c_chat_server.Base.{
  ℕ, Bytes, [], ◌∷◌, Option, none, some, true, M, pure, checked, ◌>>=◌, ◌>>◌, ◌==◌, if◌then◌else◌,
  length,
}
use c_chat_server.Os.{Os, Status, success, failure}
use c_chat_server.Client.{ClientInfo, store_client_name}
use c_chat_server.Text.{c_string, strtok_r, make_lowercase}
use c_chat_server.Command.{CmdRes, cmd_ok, cmd_disconnect, cmd_error, cmd_warning}
use c_chat_server.Format.{format_chat_message}
use c_chat_server.Broadcast.{broadcast}
use c_chat_server.Handlers.{server_handle_command}
use c_chat_server.Server.{Server, get_client, put_client, lift}

-- `payload_copy[0]`
first_byte : Bytes → Option ℕ
first_byte [] = none
first_byte (b ∷ bs) = some b

status_of : CmdRes → Status
status_of cmd_disconnect = failure
status_of cmd_error = failure
status_of cmd_ok = success
status_of cmd_warning = success

module _ (os : Os) (fuel : ℕ) where
  take_name : (info : ℕ) → ClientInfo → M (Server os.World) Status
  take_name info c = do
    r ← lift (store_client_name c)
    put_client info (record (r.1) { has_name = true })
    pure success

  run_command : (info : ℕ) → Bytes → M (Server os.World) Status
  run_command info payload = do
    text ← checked (c_string payload)
    let cut = strtok_r text
    cmd ← checked cut.0
    r ← server_handle_command os fuel info (make_lowercase cmd) cut.1
    pure (status_of r)

  -- A `strlen` of NULL is a fault; a failed broadcast is only logged.
  chat : (info : ℕ) → ClientInfo → M (Server os.World) Status
  chat info c = do
    line ← lift (format_chat_message os c)
    formatted_msg ← checked line
    text ← checked (c_string formatted_msg)
    _ ← broadcast os fuel (some info) formatted_msg (length text)
    pure success

  -- `payload_copy` is `none` for NULL.
  unfoldable pub process_payload : (info : ℕ) → Option Bytes → M (Server os.World) Status
  unfolding take_name run_command chat first_byte status_of
  process_payload info payload_copy = do
    c ← get_client info
    let speak : M (Server os.World) Status = do
      payload ← checked payload_copy
      b ← checked (first_byte payload)
      if b == b'/' then run_command info payload else chat info c
    if c.has_name then speak else take_name info c
