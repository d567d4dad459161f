-- ===== src/Sharded/Server.antt =====
-- start_server of io_uring_sharded.c: the listening socket, and the loop on it.
use echo_server.Prelude.{
  ℕ, ◌≡◌, false, some, List, [], ltb, is_neg, is_nonpos, to_size, ◌||◌, if◌then◌else◌,
}
use echo_server.Posix.{
  Os, Fd, Run, ok, Cmd, pure, quit, failed, ◌>>=◌, ◌>>◌, bytes32, htonl, send_from, recv_into,
}
use echo_server.Posix.Listening.{ServerLaws}
use echo_server.Posix.Ends.{EndsOrFails, done, bind_or_fail}
use echo_server.Client.Thread.{for_each_thread}
use echo_server.Simple.{open_listener}
use echo_server.Simple.Start.{open_listener-Ends}
use echo_server.Sharded.{State, Wait, add_accept, main_loop}
use echo_server.Sharded.Liburing.{Uring, UringLaws}
use echo_server.Sharded.System.{Feasible, Healthy, main_loop_safe}

abbrev pub buf_size : ℕ
buf_size = 1024

-- The greeting of a connection by system calls, which nothing calls: the loop sends and receives
-- through its ring.
unfoldable pub handle_new_conn :
    (os : Os) → (conn_fd : Fd) → (stack : List ℕ) → (msg_size : ℕ) → Cmd os.World (Unit {0})
handle_new_conn os conn_fd stack msg_size = do
  n ← send_from os conn_fd (bytes32 (htonl msg_size)) 4
  if is_nonpos n || ltb (to_size n) 4
      then pure tt
      else do (n, buf) ← recv_into os conn_fd stack 2; pure tt

-- From the loop on, the thread sees the sockets through its ring only, so the loop's run is the
-- result of the start.
unfoldable pub start_server :
    (os : Os) (uring : Uring) → uring.Ring → List Wait → Cmd os.World (Run (State uring) (Unit {0}))
start_server os uring ring ws =
    if ltb buf_size 64
    then quit failed
    else do listen_fd ← open_listener os 12345; pure (main_loop uring listen_fd 64 ring ws)

-- Eight threads that run `start_server`, and the wait for the last of them. What starts a thread,
-- and what waits for it, are calls of the system.
unfoldable pub main : {W : Type 0} → (create join : W → W) → Cmd W (Unit {0})
main create join = do for_each_thread 8 create; λ w. ok tt (join w)

module _ {os : Os} (calls : ServerLaws os) {uring : Uring} (laws : UringLaws uring) where
  open calls use {listening}
  open uring use {Ring}
  open laws use {queued}

  -- A run of the loop that is safe, on a descriptor that listens on the port in the world `w`.
  pub record Safe (port : ℕ) (r : Run (State uring) (Unit {0})) (w : os.World) : Type 0 where
    pub listen_fd : Fd
    pub is_open : is_neg listen_fd ≡ false
    pub listens : listening listen_fd w ≡ some port
    pub runs : EndsOrFails (Healthy laws listen_fd 64) r

  -- Under the laws of the calls that make a listening socket, the start of a thread of
  -- io_uring_sharded.c exits with status -1, or main_loop runs on a descriptor that is not
  -- negative and listens on port 12345, and ends with the invariant of the loop or exits with
  -- status -1, over every sequence of waits that the kernel can give to a ring whose queue is
  -- empty at first.
  pub start_server-Safe :
      (ring : Ring) (ws : List Wait) (w : os.World)
      → queued ring ≡ []
      → ((l : Fd) (s : State uring)
          → add_accept uring l (record { ring = ring; threadlets = []; bufs = 0 }) ≡ ok tt s
          → Feasible laws l 64 s [] ws)
      → EndsOrFails (Safe 12345) (start_server os uring ring ws w)
  unfolding start_server
  start_server-Safe ring ws w empty feasible =
      bind_or_fail _ (open_listener-Ends calls 12345 w) λ l v good. done (record {
        listen_fd = l;
        is_open = good.is_open;
        listens = good.listens;
        runs = main_loop_safe laws l 64 ring ws empty (feasible l);
      })
