-- ===== src/Command.antt =====
-- command.c, command.h and command_table.h.
pub mod Table
use c_chat_server.Base.{Bytes, List, [], ◌∷◌, ℕ, if◌then◌else◌}
use c_chat_server.Text.{str_eq}

pub data Cmd : Type 0 where
  cmd_quit cmd_list cmd_whisper cmd_shutdown cmd_unknown : Cmd

pub data CmdRes : Type 0 where
  cmd_ok cmd_disconnect cmd_error cmd_warning : CmdRes

pub record CommandEntry : Type 0 where
  pub name : Bytes
  pub cmd : Cmd

abbrev pub quit_name : Bytes
quit_name = b'/' ∷ b'q' ∷ b'u' ∷ b'i' ∷ b't' ∷ []

abbrev pub list_name : Bytes
list_name = b'/' ∷ b'l' ∷ b'i' ∷ b's' ∷ b't' ∷ []

abbrev pub whisper_name : Bytes
whisper_name = b'/' ∷ b'w' ∷ b'h' ∷ b'i' ∷ b's' ∷ b'p' ∷ b'e' ∷ b'r' ∷ []

abbrev pub shutdown_name : Bytes
shutdown_name = b'/' ∷ b's' ∷ b'h' ∷ b'u' ∷ b't' ∷ b'd' ∷ b'o' ∷ b'w' ∷ b'n' ∷ []

-- The entries before the one with a NULL name.
abbrev pub command_table : List CommandEntry
command_table =
    record { name = quit_name; cmd = cmd_quit }
    ∷ record { name = list_name; cmd = cmd_list }
    ∷ record { name = whisper_name; cmd = cmd_whisper }
    ∷ record { name = shutdown_name; cmd = cmd_shutdown }
    ∷ []

pub find_in : List CommandEntry → Bytes → Cmd
find_in [] name = cmd_unknown
find_in (e ∷ es) name = if str_eq e.name name then e.cmd else find_in es name

unfoldable pub find_command : Bytes → Cmd
unfolding find_in
find_command name = find_in command_table name
