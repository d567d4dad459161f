-- ===== src/Epoll/Events.antt =====
-- The events of main_loop of epoll_single.c, and the local variable `ev`.
use mathlib.Core.Path.{subst}
use echo_server.Prelude.{
  ℕ, zero, suc, ◌≤◌, ◌≡◌, refl, sym, ◌∙◌, ◌⊎◌, inl, inr, true, false, Bool-cases, ◌||◌, List, [],
  ◌∷◌, some, Option-cases, ℤ, pos, negsuc, below, int_of, is_neg, is_nonpos, to_size, int_eq, not,
  ltb, le→leb, length, arith,
}
use echo_server.Posix.{Fd, bytes32, htonl, recv_into, send_from}
use echo_server.Posix.Laws.{SocketLaws}
use echo_server.Posix.Calls.{length-fill}
use echo_server.Posix.Ends
use echo_server.Posix.Ends.{Ends, ends, EndsOrFails, done, stops, bind_or_fail, Ends-EndsOrFails}
use echo_server.Epoll.{
  buf_size, epollin, Locals, or_nonblock, is_nonblocking, set_nonblocking, handle_new_conn,
  on_connection, forget, on_readable, handle_event, handle_events, event_loop,
}
use echo_server.Epoll.Epolling.{EpollOs, EpollLaws, AllOf}

int_eq_refl : (a : ℤ) → int_eq a a ≡ true
int_eq_refl (pos n) = ground arith
int_eq_refl (negsuc n) = ground arith

different : {a b : ℤ} → a ≡ b → int_eq a b ≡ false → ⊥
different {a} {b} e h =
    let t : int_eq a b ≡ true = subst (λ x. int_eq a x ≡ true) e (int_eq_refl a) in cc

module _ (epoll : EpollOs) where
  open epoll use {os, get_flags, set_flags}
  open os use {World}

  pub set_nonblocking-Ends :
      (fd : Fd) (w : World) → EndsOrFails (λ _ _. Unit {0}) (set_nonblocking epoll fd w)
  unfolding set_nonblocking
  set_nonblocking-Ends fd w =
      let set = set_flags fd (or_nonblock (get_flags fd w).0) (get_flags fd w).1 in
      elim (Bool-cases (int_eq set.0 (negsuc 0))) [
        | inl bad ↦ rw bad (stops refl)
        | inr good ↦ rw good (elim (Bool-cases (not (is_nonblocking (get_flags fd set.1).0))) [
          | inl bad ↦ rw bad (stops refl)
          | inr good ↦ rw good (done tt)
        ])
      ]

module _ {epoll : EpollOs} (laws : EpollLaws epoll) (sockets : SocketLaws epoll.os)
    (epfd listen_fd : Fd) where
  open epoll use {os}
  open os use {World}

  module _ (fd : Fd) (buf : List ℕ) (len : ℕ) (w : World) (fits : len ≤ length buf) where
    recv_into-length : Ends (λ r _. length r.1 ≡ length buf) (recv_into os fd buf len w)
    unfolding recv_into
    recv_into-length = rw (le→leb len (length buf) fits) (
        ends (
          length-fill buf (os.recv fd len w).1
            (omega (arith, sockets.recv_count fd len w, sockets.recv_le fd len w))))

    send_from-defined : Ends (λ _ _. Unit {0}) (send_from os fd buf len w)
    unfolding send_from
    send_from-defined = rw (le→leb len (length buf) fits) (ends tt)

  handle_new_conn-Ends :
      (fd : Fd) (stack : List ℕ) (m : ℕ) (w : World)
      → 2 ≤ length stack
      → Ends (λ _ _. Unit {0}) (handle_new_conn epoll fd stack (pos m) w)
  unfolding handle_new_conn
  handle_new_conn-Ends fd stack m w fits =
      Ends.bind _ (send_from-defined fd (bytes32 (htonl m)) 4 w (omega arith)) λ n v _.
        elim (Bool-cases (is_nonpos n || ltb (to_size n) 4)) [
          | inl bad ↦ rw bad (ends tt)
          | inr good ↦ rw good (Ends.bind _ (recv_into-length fd stack 2 v fits) λ r u _. ends tt)
        ]

  -- An event that `main_loop` can handle: `ev` is set, unless it is one of the listening socket.
  abbrev Handleable : Locals → Fd → Type 0
  Handleable s fd = (fd ≡ listen_fd) ⊎ (s.ev_events ≡ some epollin)

  -- The invariant of the loop: the buffer is whole, and whatever epoll may report can be handled.
  pub record Sound (s : Locals) (w : World) : Type 0 where
    pub room : length s.buf ≡ buf_size
    pub watched : (fd : Fd) → laws.Watches epfd w fd → Handleable s fd

  -- After an event `ev` is set.
  abbrev Handled : Locals → World → Type 0
  Handled s _ = (length s.buf ≡ buf_size) × (s.ev_events ≡ some epollin)

  all-Handleable :
      (s : Locals) → s.ev_events ≡ some epollin → (fds : List Fd) → AllOf (Handleable s) fds
  all-Handleable s set [] = tt
  all-Handleable s set (fd ∷ fds) = (inr set, all-Handleable s set fds)

  AllOf-map :
      (P Q : Fd → Type 0) (fds : List Fd) → ((fd : Fd) → P fd → Q fd) → AllOf P fds → AllOf Q fds
  AllOf-map P Q [] f a = tt
  AllOf-map P Q (fd ∷ fds) f a = (f fd a.0, AllOf-map P Q fds f a.1)

  module _ (stack : List ℕ) (m : ℕ) (fits : 2 ≤ length stack) (small : m ≤ buf_size) where
    on_connection-Handled :
        (s : Locals) (w : World)
        → length s.buf ≡ buf_size
        → EndsOrFails Handled (on_connection epoll epfd listen_fd stack (pos m) s w)
    unfolding on_connection
    on_connection-Handled s w room = elim (Bool-cases (is_neg (os.accept listen_fd w).0)) [
      | inl bad ↦ rw bad (stops refl)
      | inr good ↦ rw good (
          bind_or_fail _ (Ends-EndsOrFails (handle_new_conn-Ends _ stack m _ fits))
            λ _ v _. bind_or_fail _ (set_nonblocking-Ends epoll _ v) λ _ u _. done (room, refl))
    ]

    forget-Handled :
        (fd : Fd) (s : Locals) (w : World)
        → Handled s w
        → EndsOrFails Handled (forget epoll epfd fd s w)
    unfolding forget
    forget-Handled fd s w h = done h

    on_readable-Handled :
        (fd : Fd) (buf : List ℕ) (w : World)
        → length buf ≡ buf_size
        → EndsOrFails Handled
            (on_readable epoll epfd fd (pos m) (record { buf = buf; ev_events = some epollin }) w)
    unfolding on_readable
    on_readable-Handled fd buf w room =
        bind_or_fail _ (Ends-EndsOrFails (recv_into-length fd buf m w (omega arith))) λ r v same.
          let after : Locals = record { buf = r.1; ev_events = some epollin } in
          elim (Bool-cases (below (int_of r.0) m)) [
            | inl short ↦ rw short (forget-Handled fd after v (same ∙ room, refl))
            | inr whole ↦ rw whole (
                bind_or_fail _
                  (Ends-EndsOrFails (send_from-defined fd r.1 m v (omega (arith, same))))
                  λ n u _. elim (Bool-cases (below (int_of n) m)) [
                    | inl short ↦ rw short (forget-Handled fd after u (same ∙ room, refl))
                    | inr good ↦ rw good (done (same ∙ room, refl))
                  ])
          ]

    handle_event-Handled :
        (fd : Fd) (s : Locals) (w : World)
        → length s.buf ≡ buf_size
        → Handleable s fd
        → EndsOrFails Handled (handle_event epoll epfd listen_fd stack (pos m) fd s w)
    unfolding handle_event
    handle_event-Handled fd s w room h = elim (Bool-cases (int_eq fd listen_fd)) [
      | inl listening ↦ rw listening (on_connection-Handled s w room)
      | inr other ↦ rw other (elim h [
        | inl same ↦ absurd (different same other)
        | inr set ↦
            subst
              (λ e.
                EndsOrFails Handled
                  (on_readable epoll epfd fd (pos m) (record s { ev_events = e }) w))
              (sym set) (on_readable-Handled fd s.buf w room)
      ])
    ]

    of_Handled : (s : Locals) (w : World) → Handled s w → Sound s w
    of_Handled s w h = record { room = h.0; watched = λ fd _. inr h.1 }

    handle_events-Sound :
        (fds : List Fd) (s : Locals) (w : World)
        → Sound s w
        → AllOf (Handleable s) fds
        → EndsOrFails Sound (handle_events epoll epfd listen_fd stack (pos m) fds s w)
    unfolding handle_events
    handle_events-Sound [] s w g a = done g
    handle_events-Sound (fd ∷ fds) s w g a =
        bind_or_fail _ (handle_event-Handled fd s w g.room a.0)
          λ s' v h. handle_events-Sound fds s' v (of_Handled s' v h) (all-Handleable s' h.1 fds)

    -- The loop keeps the invariant.
    pub event_loop-Sound :
        (k : ℕ) (s : Locals) (w : World)
        → Sound s w
        → EndsOrFails Sound (event_loop epoll k epfd listen_fd stack (pos m) s w)
    unfolding event_loop
    event_loop-Sound zero s w g = done g
    event_loop-Sound (suc k) s w g = elim (Option-cases (epoll.epoll_wait epfd w).0) [
      | inl error ↦ rw (error, event_loop) (stops refl)
      | inr (fds, got) ↦
          rw (got, event_loop)
            (bind_or_fail _
              (handle_events-Sound fds s (epoll.epoll_wait epfd w).1
                (record {
                  room = g.room;
                  watched = λ fd h. g.watched fd (laws.wait_less epfd w fd h);
                })
                (AllOf-map (laws.Watches epfd w) (Handleable s) fds g.watched
                  (laws.wait_reports epfd w fds got)))
              λ s' v g'. event_loop-Sound k s' v g')
    ]
