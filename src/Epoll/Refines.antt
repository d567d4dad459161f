-- ===== src/Epoll/Refines.antt =====
-- The functions of epoll_single.c beside the handler of simple.c.
use echo_server.Prelude.{
  ℕ, ◌≤◌, ◌≡◌, refl, inl, inr, some, List, pos, int_of, length-take, arith, Bool-cases, ◌||◌, ltb,
  is_nonpos, to_size, leb, below, length, take,
}
use echo_server.Posix.{Fd, Cmd, pure, bytes32, htonl, call, fill, ◌>>=◌, recv_into, send_from}
use echo_server.Simple.{Progress, looping, returned, echo_round, greet}
use echo_server.Epoll.{epollin, forget, on_readable, handle_new_conn}
use echo_server.Epoll.Epolling.{EpollOs}

abbrev pub discard : {W A : Type 0} → A → Cmd W (Unit {0})
discard _ = pure tt

module _ (epoll : EpollOs) (epfd conn_fd : Fd) (m : ℕ) where
  open epoll use {os, epoll_ctl_del}
  open os use {World}

  -- Where a thread of simple.c would return, the connection is taken from the epoll instance.
  abbrev pub settle : Progress → Cmd World (Unit {0})
  settle (looping _) = pure tt
  settle returned = do _ ← call (epoll_ctl_del epfd conn_fd); pure tt

  -- With the event mask set and a message size that is not negative, and where the results of
  -- recv and send on the connection for at most that many bytes fit in an int, the epoll server
  -- treats a readable connection exactly as one round of the handler of simple.c on the same
  -- buffer, and takes it from the epoll instance where that handler would return.
  pub on_readable-echo_round :
      (buf : List ℕ) (w : World)
      → ((v : World) → int_of (os.recv conn_fd m v).0 ≡ (os.recv conn_fd m v).0)
      → ((bytes : List ℕ) (v : World)
          → length bytes ≤ m
          → int_of (os.send conn_fd bytes v).0 ≡ (os.send conn_fd bytes v).0)
      → (on_readable epoll epfd conn_fd (pos m) (record { buf = buf; ev_events = some epollin })
            >>= discard)
          w
        ≡ (echo_round os conn_fd buf m >>= settle) w
  unfolding on_readable echo_round recv_into send_from
  on_readable-echo_round buf w recv_int send_int =
      let r = os.recv conn_fd m w in
      let after = fill buf r.1 in
      let n = os.send conn_fd (take m after) r.2 in
      elim (Bool-cases (leb m (length buf))) [
        | inr out ↦ rw out refl
        | inl fits ↦
            rw (fits, recv_int w)
              (elim (Bool-cases (below r.0 m)) [
                | inl short ↦ rw (short, forget) refl
                | inr whole ↦ rw whole (elim (Bool-cases (leb m (length after))) [
                  | inr out ↦ rw out refl
                  | inl room ↦
                      let taken : length (take m after) ≤ m =
                        omega (arith, length-take {0} m after) in
                      rw (room, send_int (take m after) r.2 taken)
                        (elim (Bool-cases (below n.0 m)) [
                          | inl short ↦ rw (short, forget) refl
                          | inr good ↦ rw good refl
                        ])
                ])
              ])
      ]

module _ (epoll : EpollOs) (conn_fd : Fd) (m : ℕ) where
  open epoll use {os}
  open os use {World}

  -- For a message size that is not negative, handle_new_conn does to the world what the
  -- greeting of simple.c does, and hides whether it went through.
  pub handle_new_conn-greet :
      (stack : List ℕ) (w : World)
      → handle_new_conn epoll conn_fd stack (pos m) w ≡ (greet os conn_fd stack m >>= discard) w
  unfolding handle_new_conn greet recv_into send_from
  handle_new_conn-greet stack w =
      let n = os.send conn_fd (bytes32 (htonl m)) w in
      elim (Bool-cases (is_nonpos n.0 || ltb (to_size n.0) 4)) [
        | inl bad ↦ rw bad refl
        | inr good ↦ rw good (elim (Bool-cases (leb 2 (length stack))) [
          | inl fits ↦ rw fits refl
          | inr out ↦ rw out refl
        ])
      ]
