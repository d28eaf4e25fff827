-- ===== src/Queue/Liveness.antt =====
-- A client whose socket takes bytes gets all that is queued.
use c_chat_server.Base.{ℕ, ◌+◌, ◌<◌, ◌≡◌, Bytes, [], ◌++◌, Bool, length, some, ◌≢◌, inl, inr}
use c_chat_server.Os.{Os, Status, success, ok, again, failed}
use c_chat_server.Os.Laws.{IsOutbound}
use c_chat_server.Client.{ClientInfo, MsgQueue}
use c_chat_server.Queue.{client_try_write}
use c_chat_server.Queue.Content.{IsQueue, unsent}
use c_chat_server.Queue.TryWrite.{Drains, drained, blocked, broken, client_try_write-Drains}

-- The socket never blocks, never fails, and takes some byte of those that it is offered.
pub record IsWilling (os : Os) (fd : ℕ) : Type 0 where
  pub never_blocks : (bytes : Bytes) (w w' : os.World) → os.send fd bytes w ≢ (again, w')
  pub never_fails : (bytes : Bytes) (w w' : os.World) → os.send fd bytes w ≢ (failed, w')
  pub takes_some :
      (bytes : Bytes) (w w' : os.World) → 0 < length bytes → os.send fd bytes w ≢ (ok 0, w')

-- For a client with a valid queue, whose socket takes bytes and is interrupted finitely often, and
-- with more fuel than the queued bytes and the interruptions together: `client_try_write` returns
-- 0, the queue is empty, everything that was queued is sent, in order, behind what was sent before,
-- and no field but the queue and the epoll flag changes.
pub client_try_write-empties :
    (os : Os) (c : ClientInfo) (s : IsOutbound os (os.send c.client_fd)) (fuel : ℕ) (w : os.World)
    → IsWilling os c.client_fd
    → IsQueue c.msg_queue
    → length (unsent c.msg_queue.packets) + s.patience w < fuel
    → (q : MsgQueue) × (e : Bool) × (w' : os.World) × (client_try_write os fuel c w
        ≡ some ((success, record c { msg_queue = q; epollout_enabled = e }), w'))
      × IsQueue q
      × (q.packets ≡ [])
      × (s.sent w' ≡ s.sent w ++ unsent c.msg_queue.packets)
client_try_write-empties os c s fuel w will v enough =
    let (r, c', w', run, drains) = client_try_write-Drains os c s fuel w v enough in
    ends r c' w' run drains
  where
    ends :
        (r : Status) (c' : ClientInfo) (w' : os.World)
        → client_try_write os fuel c w ≡ some ((r, c'), w')
        → Drains os c s (s.sent w ++ unsent c.msg_queue.packets) c.msg_queue.queued_bytes w' r c'
        → (q : MsgQueue) × (e : Bool) × (w' : os.World) × (client_try_write os fuel c w
            ≡ some ((success, record c { msg_queue = q; epollout_enabled = e }), w'))
          × IsQueue q
          × (q.packets ≡ [])
          × (s.sent w' ≡ s.sent w ++ unsent c.msg_queue.packets)
    ends r c' w' run (drained q e v lim nil all) = (q, e, w', run, v, nil, all)
    ends r c' w' run (blocked q bytes v0 n e v lim all) = absurd (will.never_blocks bytes v0 w' e)
    ends r c' w' run (broken q bytes v0 n (inl e) v lim all) =
        absurd (will.never_fails bytes v0 w' e)
    ends r c' w' run (broken q bytes v0 n (inr e) v lim all) =
        absurd (will.takes_some bytes v0 w' n e)
