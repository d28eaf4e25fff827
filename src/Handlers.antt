-- ===== src/Handlers.antt =====
-- server_handle_command.c: the commands that a client sends to the server.
pub mod Listing
pub mod Room
pub mod Target
pub mod Whisper
use c_chat_server.Base.{
  ℕ, Bytes, List, [], ◌∷◌, Option, none, some, true, M, pure, checked, ◌>>=◌, ◌>>◌, ◌==◌,
  if◌then◌else◌, length,
}
use c_chat_server.Os.{Os, success, failure}
use c_chat_server.Client.{ClientInfo}
use c_chat_server.Text.{c_string, str_eq, strtok_r}
use c_chat_server.Command.{
  cmd_list, cmd_whisper, cmd_shutdown, CmdRes, cmd_ok, cmd_disconnect, cmd_error, cmd_warning,
  find_command,
}
use c_chat_server.Format.{format_whisper_message}
use c_chat_server.Broadcast.{server_send_message, client_send_direct_message}
use c_chat_server.Server.{Server, get_state, get_client, lift}

-- " <-- YOU\n"
abbrev pub indicator : Bytes
indicator = 32 ∷ b'<' ∷ b'-' ∷ b'-' ∷ 32 ∷ b'Y' ∷ b'O' ∷ b'U' ∷ 10 ∷ []

unfoldable pub server_handle_unknown : {W : Type 0} → M W CmdRes
server_handle_unknown = pure cmd_ok

unfoldable pub handle_shutdown : {W : Type 0} → M (Server W) CmdRes
handle_shutdown s = some (cmd_disconnect, record s { server_shutdown = true })

module _ (os : Os) (fuel : ℕ) where
  -- The results of the sends are not looked at.
  pub list_loop : (user : ℕ) → List ℕ → M (Server os.World) (Unit {0})
  list_loop user [] = pure tt
  list_loop user (client ∷ rest) = do
    entry ← get_client client
    u ← get_client user
    _ ← lift (server_send_message os fuel u.client_fd entry.name entry.name_len)
    _ ← lift (
        if client == user
        then server_send_message os fuel u.client_fd indicator (length indicator)
        else server_send_message os fuel u.client_fd (10 ∷ []) 1)
    list_loop user rest

  unfoldable pub handle_list : (user : ℕ) → M (Server os.World) CmdRes
  unfolding list_loop
  handle_list user = do s ← get_state; list_loop user s.client_list; pure cmd_ok

  -- The first client of the list whose name is the target; `strcmp` reads the name up to its NUL.
  unfoldable pub find_target :
      (whisper_target : Option Bytes) → List ℕ → M (Server os.World) (Option ℕ)
  find_target whisper_target [] = pure none
  find_target whisper_target (client ∷ rest) = do
    c ← get_client client
    target ← checked whisper_target
    name ← checked (c_string c.name)
    if str_eq target name then pure (some client) else find_target whisper_target rest

  send_whisper : ClientInfo → (target : ℕ) → Bytes → M (Server os.World) CmdRes
  send_whisper sender target whisper_msg = do
    formatted ← lift (format_whisper_message os sender whisper_msg (length whisper_msg))
    elim formatted [
      | none ↦ pure cmd_error
      | some formatted_whisper ↦ do
        text ← checked (c_string formatted_whisper)
        t ← get_client target
        r ← lift (client_send_direct_message os fuel t.client_fd formatted_whisper (length text))
        pure (elim r [ failure ↦ cmd_error | success ↦ cmd_ok ])
    ]

  -- `saveptr` is the string behind the command; the callers never pass NULL.
  unfoldable pub handle_whisper : (user : ℕ) → (saveptr : Bytes) → M (Server os.World) CmdRes
  unfolding find_target send_whisper
  handle_whisper user saveptr =
      let cut = strtok_r saveptr in
      elim cut.1 [
        | [] ↦ pure cmd_warning
        | b ∷ bs ↦ do
          s ← get_state
          target ← find_target cut.0 s.client_list
          elim target [
            | none ↦ pure cmd_warning
            | some t ↦ do sender ← get_client user; send_whisper sender t (b ∷ bs)
          ]
      ]

  unfoldable pub server_handle_command :
      (user : ℕ) → (cmd saveptr : Bytes) → M (Server os.World) CmdRes
  unfolding handle_list handle_whisper
  server_handle_command user cmd saveptr = elim (find_command cmd) [
    | cmd_list ↦ handle_list user
    | cmd_whisper ↦ handle_whisper user saveptr
    | cmd_shutdown ↦ (handle_shutdown >>= λ _. pure cmd_disconnect)
    | _ ↦ server_handle_unknown
  ]
