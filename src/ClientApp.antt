-- ===== src/ClientApp.antt =====
-- The client program: client.c, client_handle_command.c and client_listen.c. `os` is what the
-- client's process calls.
pub mod Typing
pub mod Printing
pub mod Listening
use c_chat_server.Base.{
  ℕ, zero, suc, ◌+◌, ◌-◌, ◌%◌, ◌^◌, Bytes, List, [], ◌∷◌, Option, none, some, Bool, true, false,
  not, ◌&&◌, M, pure, fault, checked, ◌>>=◌, ◌==◌, if◌then◌else◌, length, memcpy, get_elem?,
  is_minus_one,
}
use c_chat_server.Os.{
  Os, Endian, ok, again, interrupted, failed, Status, success, failure, count, error, call,
}
use c_chat_server.Protocol.{MsgHeader, header_at, htonl, ntohl, flag, msg_type_normal}
use c_chat_server.Transfer.{read_header, read_payload, write_header, write_payload}
use c_chat_server.Client.{buf_size}
use c_chat_server.Text.{c_string, str_eq, strtok_r, make_lowercase}
use c_chat_server.Command.{
  cmd_quit, cmd_shutdown, CmdRes, cmd_ok, cmd_disconnect, cmd_error, cmd_warning, find_command,
}
use c_chat_server.Loop.{shutdown_message}
use c_chat_server.Setup.{Net, init_client, Exit, returned, handle_error}

-- What the loop of `main` asks of its surroundings: whether `select` finds input within its 0.2
-- seconds, the value of `client_shutdown`, which the listening thread writes, and the calls of
-- pthread.
pub record Terminal (os : Os) : Type 0 where
  pub select : os.World → Bool × os.World
  pub client_shutdown : os.World → Bool × os.World
  pub thread_create : os.World → Status × os.World
  pub thread_detach : os.World → Status × os.World

-- The locals of `main` that a round leaves to the next.
pub record Input : Type 0 where
  pub buf : Bytes
  pub last_chunk_filled : Bool

-- How a round ends: the next one follows, `main` breaks out of the loop, or `handle_error` exits.
pub data After : Type 0 where
  go_on : Input → After
  leave quit_failed : After

-- `memchr(buf, b, length buf) != NULL`
pub has_byte : ℕ → Bytes → Bool
has_byte b [] = false
has_byte b (x ∷ xs) = elim (x == b) [ true ↦ true | false ↦ has_byte b xs ]

unfoldable pub client_handle_unknown : {W : Type 0} → M W CmdRes
client_handle_unknown = pure cmd_ok

-- `CMD_ERROR` and `CMD_DISCONNECT` end the client.
is_leaving : CmdRes → Bool
is_leaving cmd_disconnect = true
is_leaving cmd_error = true
is_leaving cmd_ok = false
is_leaving cmd_warning = false

-- The header of a part of a message.
abbrev pub input_header : Endian → (len : ℕ) → (msg_done : Bool) → MsgHeader
input_header order len msg_done = record {
  msg_len = htonl order (len % 2 ^ 32);
  msg_type = msg_type_normal;
  msg_done = flag msg_done;
}

module _ (os : Os) where
  unfoldable pub handle_quit : (sfd : ℕ) → M os.World CmdRes
  handle_quit sfd = do
    _ ← call (os.shutdown sfd)
    closed ← call (os.close sfd)
    pure (elim closed [ failure ↦ cmd_warning | success ↦ cmd_disconnect ])

  unfoldable pub client_handle_command : (sfd : ℕ) → (cmd : Bytes) → M os.World CmdRes
  unfolding handle_quit
  client_handle_command sfd cmd = elim (find_command cmd) [
    | cmd_quit ↦ handle_quit sfd
    | cmd_shutdown ↦ pure cmd_disconnect
    | _ ↦ client_handle_unknown
  ]

  -- The copy of the input, its last byte made a NUL, cut at the first space. A block that
  -- `malloc` does not give is not tested for NULL, nor is the token.
  typed_command : (sfd : ℕ) → Bytes → M os.World Bool
  unfolding is_leaving client_handle_command
  typed_command sfd bs = do
    block ← call (os.malloc (length bs))
    buf_copy ← checked block
    copied ← checked (memcpy buf_copy 0 bs)
    ended ← checked (memcpy copied (length bs - 1) (0 ∷ []))
    text ← checked (c_string ended)
    cmd ← checked (strtok_r text).0
    r ← client_handle_command sfd (make_lowercase cmd)
    pure (is_leaving r)

  -- common_thread.c, which the programs do not use.
  unfoldable pub create_and_detach_thread : Terminal os → M os.World Status
  create_and_detach_thread term = do
    created ← call term.thread_create
    elim created [ failure ↦ pure failure | success ↦ call term.thread_detach ]

  module _ (fuel sfd : ℕ) where
    -- The header and then the payload; an error of either exits.
    unfoldable pub send_input :
        Input → MsgHeader → (n : ℕ) → (disconnecting : Bool) → M os.World After
    send_input i header n disconnecting = do
      h ← write_header os fuel sfd header
      elim h [
        | error ↦ pure quit_failed
        | count _ ↦ do
          p ← write_payload os fuel sfd i.buf n
          pure (elim p [ error ↦ quit_failed | count _ ↦ if disconnecting then leave else go_on i ])
      ]

    -- `buf[--bytes_read] = '\0'`, and what is before it is sent.
    end_line : Input → (len : ℕ) → (disconnecting : Bool) → M os.World After
    unfolding send_input
    end_line i len disconnecting = do
      buf ← checked (memcpy i.buf len (0 ∷ []))
      send_input (record { buf = buf; last_chunk_filled = false })
          (input_header os.byte_order len true) len disconnecting

    -- The whole of `buf` is searched for a newline; the last byte that was read is taken for it.
    finish_input : Input → (n : ℕ) → (disconnecting : Bool) → M os.World After
    unfolding has_byte send_input
    finish_input i n disconnecting =
        let part : M os.World After =
          send_input (record { buf = i.buf; last_chunk_filled = true })
            (input_header os.byte_order n false) n disconnecting in
        if has_byte 10 i.buf then end_line i (n - 1) disconnecting else part

    -- `bs` came in from the terminal. A single byte that does not end a longer message is not sent.
    unfoldable pub handle_input : Input → Bytes → M os.World After
    unfolding typed_command finish_input end_line
    handle_input i bs = do
      buf ← checked (memcpy i.buf 0 bs)
      first ← checked (get_elem? buf 0)
      disconnecting ← if first == b'/' then typed_command sfd bs else pure false
      let i' = record i { buf = buf }
      let sending : M os.World After = finish_input i' (length bs) disconnecting
      if length bs == 1 && not i.last_chunk_filled then pure (go_on i') else sending

    unfoldable pub input_round : Input → M os.World After
    unfolding handle_input
    input_round i = do
      r ← call (os.read 0 buf_size)
      elim r [
        | ok bs ↦ if length bs == 0 then pure leave else handle_input i bs
        | again ↦ pure leave
        | interrupted ↦ pure leave
        | failed ↦ pure leave
      ]

    -- `while (client_shutdown != 1)`; one round of fuel is one call of `select`.
    pub input_loop : Terminal os → (rounds : ℕ) → Input → M os.World Exit
    unfolding input_round
    input_loop term zero i = fault
    input_loop term (suc rounds) i = do
      over ← call term.client_shutdown
      let round : M os.World Exit = do
        is_ready ← call term.select
        over' ← call term.client_shutdown
        let read_input : M os.World Exit = do
          r ← input_round i
          elim r [
            | go_on i' ↦ input_loop term rounds i'
            | leave ↦ pure returned
            | quit_failed ↦ pure handle_error
          ]
        let next : M os.World Exit = if is_ready then read_input else input_loop term rounds i
        if over' then pure returned else next
      if over then pure returned else round

  module _ (fuel sfd : ℕ) where
    -- One round of fuel is one frame. The result is the value that the thread gives
    -- `client_shutdown`.
    pub listen_loop : (rounds : ℕ) → (header : Bytes) → M os.World Bool
    listen_loop zero header = fault
    listen_loop (suc rounds) header = do
      h ← read_header os fuel sfd header
      let payload : M os.World Bool = do
        p ← read_payload os fuel sfd (ntohl os.byte_order (header_at os.byte_order (h.1)).msg_len)
        elim p.0 [
          | error ↦ pure false
          | count k ↦ do
            let show : M os.World Bool = do
              msg_payload ← checked (p.1)
              text ← checked (c_string msg_payload)
              let print : M os.World Bool = do
                r ← write_payload os fuel 1 msg_payload k
                elim r [ error ↦ pure true | count _ ↦ listen_loop rounds (h.1) ]
              if str_eq text shutdown_message then pure true else print
            if k == 0 then pure false else show
        ]
      elim h.0 [ error ↦ pure false | count n ↦ if n == 0 then pure false else payload ]

    -- `header` is the uninitialised struct on the thread's stack.
    unfoldable pub client_listen : (rounds : ℕ) → (header : Bytes) → M os.World Bool
    unfolding listen_loop
    client_listen rounds header = listen_loop rounds header

  -- `main` of the client, up to the `pthread_join`. `garbage` is the uninitialised `buf`. Only
  -- the code -1 of `init_client` ends it.
  unfoldable pub client_main :
      Net os → Terminal os → (fuel rounds : ℕ) → (garbage : Bytes) → M os.World Exit
  unfolding input_loop
  client_main net term fuel rounds garbage = do
    r ← init_client os net
    let connected : M os.World Exit = do
      block ← call os.new_struct
      _ ← checked block
      sfd ← checked (r.1)
      thread ← call term.thread_create
      elim thread [
        | failure ↦ pure handle_error
        | success ↦
            input_loop fuel sfd term rounds (record { buf = garbage; last_chunk_filled = false })
      ]
    if is_minus_one r.0 then pure handle_error else connected
