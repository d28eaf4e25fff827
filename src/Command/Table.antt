-- ===== src/Command/Table.antt =====
-- The command table decides by the exact name.
use c_chat_server.Base.{sym, ◌≡◌, ◌≢◌, Bytes, ◌⊎◌, inl, inr, Bool-cases, false}
use c_chat_server.Text.{str_eq}
use c_chat_server.Text.Strings.{eq_of_str_eq, str_eq_refl}
use c_chat_server.Command.{
  cmd_quit, cmd_list, cmd_whisper, cmd_shutdown, cmd_unknown, find_command, quit_name, list_name,
  whisper_name, shutdown_name,
}

ne_of_str_eq : (name s : Bytes) → str_eq name s ≡ false → s ≢ name
ne_of_str_eq name s h e = let same = str_eq_refl name in cc (rw e at h)

-- For every string, `find_command` gives a command exactly for its name in the table, and
-- `CMD_UNKNOWN` exactly for all other strings.
pub find_command-name :
    (s : Bytes)
    → ((s ≡ quit_name) × (find_command s ≡ cmd_quit))
      ⊎ ((s ≡ list_name) × (find_command s ≡ cmd_list))
      ⊎ ((s ≡ whisper_name) × (find_command s ≡ cmd_whisper))
      ⊎ ((s ≡ shutdown_name) × (find_command s ≡ cmd_shutdown))
      ⊎ ((s ≢ quit_name)
          × (s ≢ list_name)
          × (s ≢ whisper_name)
          × (s ≢ shutdown_name)
          × (find_command s ≡ cmd_unknown))
unfolding find_command
find_command-name s = elim (Bool-cases (str_eq quit_name s)) [
  | inl q ↦ inl (sym (eq_of_str_eq quit_name s q), rw q)
  | inr nq ↦ elim (Bool-cases (str_eq list_name s)) [
    | inl l ↦ inr (inl (sym (eq_of_str_eq list_name s l), rw (nq, l)))
    | inr nl ↦ elim (Bool-cases (str_eq whisper_name s)) [
      | inl w ↦ inr (inr (inl (sym (eq_of_str_eq whisper_name s w), rw (nq, nl, w))))
      | inr nw ↦ elim (Bool-cases (str_eq shutdown_name s)) [
        | inl d ↦ inr (inr (inr (inl (sym (eq_of_str_eq shutdown_name s d), rw (nq, nl, nw, d)))))
        | inr nd ↦ inr (
            inr (
              inr (
                inr (
                  ne_of_str_eq quit_name s nq,
                  ne_of_str_eq list_name s nl,
                  ne_of_str_eq whisper_name s nw,
                  ne_of_str_eq shutdown_name s nd,
                  rw (nq, nl, nw, nd),
                ))))
      ]
    ]
  ]
]
