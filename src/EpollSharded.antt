-- ===== src/EpollSharded.antt =====
-- epoll_sharded.c: each thread of the server runs `start_server`, which is that of epoll_single.c
-- with the port and the message size as constants. The functions before it have the same text in
-- both files.
use echo_server.Prelude.{ℕ, List, ℤ, pos}
use echo_server.Posix.{Fd, ok, Cmd, ◌>>◌}
use echo_server.Client.Thread.{for_each_thread}
use echo_server.Epoll
use echo_server.Epoll.{Locals}
use echo_server.Epoll.Epolling.{EpollOs}

-- Eight threads that run `start_server`, and the wait for the last of them. What starts a thread,
-- and what waits for it, are calls of the system.
unfoldable pub main : {W : Type 0} → (create join : W → W) → Cmd W (Unit {0})
main create join = do for_each_thread 8 create; λ w. ok tt (join w)

module _ (epoll : EpollOs) where
  open epoll.os use {World}

  unfoldable pub set_nonblocking : Fd → Cmd World (Unit {0})
  set_nonblocking fd = Epoll.set_nonblocking epoll fd

  unfoldable pub handle_new_conn : Fd → (stack : List ℕ) → (msg_size : ℤ) → Cmd World (Unit {0})
  handle_new_conn conn_fd stack msg_size = Epoll.handle_new_conn epoll conn_fd stack msg_size

  -- The first `k` rounds of the loop.
  unfoldable pub main_loop :
      ℕ → (epfd listen_fd : Fd) → (stack : List ℕ) → (msg_size : ℤ) → Locals → Cmd World Locals
  main_loop k epfd listen_fd stack msg_size s =
      Epoll.event_loop epoll k epfd listen_fd stack msg_size s

  -- One thread, with the first `k` rounds of its loop; `array` and `stack` are its uninitialised
  -- arrays.
  unfoldable pub start_server : ℕ → (array stack : List ℕ) → Cmd World Locals
  start_server k array stack = Epoll.start_server epoll k 12345 (pos 64) array stack
