-- ===== src/Epoll/Start.antt =====
-- start_server of epoll_single.c.
use echo_server.Prelude.{
  ℕ, ◌≤◌, ◌≡◌, refl, inl, inr, Bool-cases, List, is_neg, ltb, length, none, some, false, pos, arith,
}
use echo_server.Posix.{Fd, ok}
use echo_server.Posix.Laws.{SocketLaws}
use echo_server.Posix.Listening.{ServerLaws}
use echo_server.Posix.Ends.{EndsOrFails, stops, bind_or_fail_from, weaken_or_fail_from}
use echo_server.Simple.Start.{open_listener-Ends}
use echo_server.Simple.{open_listener}
use echo_server.Epoll.{buf_size, Locals, set_nonblocking, event_loop, start_server}
use echo_server.Epoll.Epolling.{EpollOs, EpollLaws}
use echo_server.Epoll.Events.{Sound, set_nonblocking-Ends, event_loop-Sound}

module _ {epoll : EpollOs} (laws : EpollLaws epoll) (sockets : SocketLaws epoll.os)
    (calls : ServerLaws epoll.os) where
  open epoll use {os, epoll_create, epoll_ctl_add}
  open os use {World}
  open calls use {listening}

  -- The server that was started in `w` has taken its listening descriptor from `open_listener`, and
  -- its epoll instance from the call behind `set_nonblocking`; its loop ran on them after the listener
  -- was added.
  pub record Serving (k port m : ℕ) (array stack : List ℕ) (w : World) (s : Locals) (w' : World)
      : Type 0 where
    pub listen_fd : Fd
    pub opened : World
    pub nonblocking : World
    pub opens : open_listener os port w ≡ ok listen_fd opened
    pub listens : listening listen_fd opened ≡ some port
    pub sets : set_nonblocking epoll listen_fd opened ≡ ok tt nonblocking
    pub instance_open : is_neg (epoll_create nonblocking).0 ≡ false
    pub runs :
        event_loop epoll k
          (epoll_create nonblocking).0
          listen_fd
          stack
          (pos m)
          (record { buf = array; ev_events = none })
          (epoll_ctl_add (epoll_create nonblocking).0 listen_fd (epoll_create nonblocking).1).1
        ≡ ok s w'
    pub sound : Sound laws sockets (epoll_create nonblocking).0 listen_fd s w'

  -- The loop on a new instance that watches the listener.
  serve :
      (k : ℕ) (fd : Fd) (m : ℕ) (u : World) (array stack : List ℕ)
      → length array ≡ buf_size
      → 2 ≤ length stack
      → m ≤ buf_size
      → EndsOrFails (Sound laws sockets (epoll_create u).0 fd) (
          event_loop epoll k
            (epoll_create u).0
            fd
            stack
            (pos m)
            (record { buf = array; ev_events = none })
            (epoll_ctl_add (epoll_create u).0 fd (epoll_create u).1).1)
  serve k fd m u array stack whole room small =
      event_loop-Sound laws sockets (epoll_create u).0 fd stack m room small k _ _ (record {
        room = whole;
        watched = λ other h. elim (laws.add_one (epoll_create u).0 fd (epoll_create u).1 other h) [
          | inl same ↦ inl same
          | inr old ↦ absurd (laws.create_empty u other old)
        ];
      })

  -- Under the laws of epoll, of the sockets and of the calls that make a listening socket, for
  -- a message size that is not negative and arrays of 1024 bytes, the server of epoll_single.c
  -- with k rounds of its loop exits with status -1 or ends so: its listener is the descriptor
  -- that open_listener gave and that listened on the port then, its epoll instance is the one
  -- that epoll_create gave after set_nonblocking on this listener and is open, the loop ran on
  -- these from the world in which the listener was added to the instance, its buffer is whole,
  -- and every descriptor that this instance may report is this listener or is handled with the
  -- local event mask set, so that no indeterminate value is read and nothing outside the buffer
  -- is written.
  pub start_server-Serving :
      (k port m : ℕ) (array stack : List ℕ) (w : World)
      → length array ≡ buf_size
      → length stack ≡ buf_size
      → EndsOrFails
          (Serving k port m array stack w)
          (start_server epoll k port (pos m) array stack w)
  unfolding start_server
  start_server-Serving k port m array stack w whole room = elim (Bool-cases (ltb buf_size m)) [
    | inl large ↦ rw large (stops refl)
    | inr small ↦ rw small (
        bind_or_fail_from _ (open_listener-Ends calls port w) λ fd v opens o.
          bind_or_fail_from _ (set_nonblocking-Ends epoll fd v) λ _ u sets _.
            elim (Bool-cases (is_neg (epoll_create u).0)) [
              | inl bad ↦ rw bad (stops refl)
              | inr good ↦ rw good (
                  weaken_or_fail_from
                    (serve k fd m u array stack whole (omega arith) (ground arith))
                    λ s w' r g. record {
                      listen_fd = fd;
                      opened = v;
                      nonblocking = u;
                      opens = opens;
                      listens = o.listens;
                      sets = sets;
                      instance_open = good;
                      runs = r;
                      sound = g;
                    })
            ])
  ]
