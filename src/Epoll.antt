-- ===== src/Epoll.antt =====
-- epoll_mod.c: the switch between waiting for input and waiting for input and output.
use c_chat_server.Base.{true, false, M, pure, ◌>>=◌, if◌then◌else◌}
use c_chat_server.Os.{Os, success, failure, epoll_in, epoll_in_out, call}
use c_chat_server.Client.{ClientInfo}

module _ (os : Os) where
  unfoldable pub enable_epollout_for_client : ClientInfo → M os.World ClientInfo
  enable_epollout_for_client c =
      let switch : M os.World ClientInfo = do
        r ← call (os.epoll_ctl epoll_in_out c.client_fd)
        pure (elim r [ success ↦ record c { epollout_enabled = true } | failure ↦ c ])
      in if c.epollout_enabled then pure c else switch

  unfoldable pub disable_epollout_for_client : ClientInfo → M os.World ClientInfo
  disable_epollout_for_client c =
      let switch : M os.World ClientInfo = do
        r ← call (os.epoll_ctl epoll_in c.client_fd)
        pure (elim r [ success ↦ record c { epollout_enabled = false } | failure ↦ c ])
      in if c.epollout_enabled then switch else pure c
