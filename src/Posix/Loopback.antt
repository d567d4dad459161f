-- ===== src/Posix/Loopback.antt =====
-- A small machine on which the programs can be run: every connection is a pair of byte streams,
-- and every call does all that it is asked, as far as the peer's bytes go.
use echo_server.Prelude.{
  ℕ, ◌≡◌, refl, sym, true, Option, none, some, List, [], ◌∷◌, ◌++◌, ℤ, pos, negsuc, int_eq,
  if◌then◌else◌, length, take, drop, arith, length-take, take-append-drop, take_all, ap,
}
use echo_server.Posix.{Os, Fd}
use echo_server.Posix.Laws.{SocketLaws, Reliable}
use echo_server.Posix.Listening.{ServerLaws}

pub record Net : Type 0 where
  pub incoming : Fd → List ℕ
  pub sent : Fd → List ℕ
  pub waiting : List Fd
  pub bound : Fd → Option ℕ
  pub listening : Fd → Option ℕ
  pub threads : List Fd

-- A machine at first: what the peers send, and the connections that wait.
abbrev pub net_with : (incoming : Fd → List ℕ) → (waiting : List Fd) → Net
net_with incoming waiting = record {
  incoming = incoming;
  sent = λ fd. [];
  waiting = waiting;
  bound = λ fd. none;
  listening = λ fd. none;
  threads = [];
}

abbrev pub update : {A : Type 0} → (Fd → A) → Fd → A → Fd → A
update f fd new other = if int_eq fd other then new else f other

-- `accept` on an empty queue fails.
abbrev take_connection : Net → ℤ × Net
take_connection w = elim w.waiting [
  | [] ↦ (negsuc 0, w)
  | fd ∷ rest ↦ (fd, record w { waiting = rest })
]

pub accept-kept :
    (A : Type 0) (of : Net → A) (w : Net)
    → ((rest : List Fd) → of (record w { waiting = rest }) ≡ of w)
    → of (take_connection w).1 ≡ of w
accept-kept A of w h =
    elim w.waiting
      as (λ l.
        of
          (elim l as (λ _. ℤ × Net) [
            | [] ↦ (negsuc 0, w)
            | fd ∷ rest ↦ (fd, record w { waiting = rest })
          ]).1
        ≡ of w) [ [] ↦ refl | fd ∷ rest ↦ h rest ]

abbrev pub loopback : Os
loopback = record {
  World = Net;
  socket = λ w. (pos 3, w);
  setsockopt = λ fd option w. (pos 0, w);
  bind = λ fd port w. (pos 0, record w { bound = update w.bound fd (some port) });
  listen = λ fd backlog w. (pos 0, record w { listening = update w.listening fd (w.bound fd) });
  accept = λ fd. take_connection;
  send =
      λ fd bytes w. (pos (length bytes), record w { sent = update w.sent fd (w.sent fd ++ bytes) });
  recv = λ fd len w. (
    pos (length (take len (w.incoming fd))),
    take len (w.incoming fd),
    record w { incoming = update w.incoming fd (drop len (w.incoming fd)) },
  );
  pthread_create = λ fd w. (pos 0, record w { threads = w.threads ++ (fd ∷ []) });
}

int_eq_refl : (a : ℤ) → int_eq a a ≡ true
int_eq_refl (pos n) = ground arith
int_eq_refl (negsuc n) = ground arith

pub update_self : {A : Type 0} (f : Fd → A) (fd : Fd) (new : A) → update f fd new fd ≡ new
update_self f fd new = rw (int_eq_refl fd)

unfoldable pub loopback_laws : SocketLaws loopback
loopback_laws = record {
  input = λ fd w. w.incoming fd;
  output = λ fd w. w.sent fd;
  recv_takes = λ fd len w.
      rw (update_self w.incoming fd (drop len (w.incoming fd)))
        (sym (take-append-drop len (w.incoming fd)));
  recv_count = λ fd len w. refl;
  recv_le = λ fd len w. omega (arith, length-take {0} len (w.incoming fd));
  recv_silent = λ fd len w. refl;
  send_puts = λ fd bytes w.
      rw (update_self w.sent fd (w.sent fd ++ bytes))
        (ap (λ l. w.sent fd ++ l) (sym (take_all (length bytes) bytes (omega arith))));
  send_le = λ fd bytes w. omega arith;
  send_keeps = λ fd bytes w. refl;
}

pub loopback-Reliable : (fd : Fd) → Reliable loopback_laws fd
unfolding loopback_laws
loopback-Reliable fd = record {
  recv_full = λ len w h. ap pos (omega (arith, length-take {0} len (w.incoming fd)));
  send_full = λ bytes w. refl;
}

unfoldable pub loopback_server : ServerLaws loopback
loopback_server = record {
  bound = λ fd w. w.bound fd;
  listening = λ fd w. w.listening fd;
  threads = λ w. w.threads;
  bind_binds = λ fd port w e. update_self w.bound fd (some port);
  listen_listens = λ fd backlog w e. update_self w.listening fd (w.bound fd);
  accept_listens = λ fd other w. accept-kept (Option ℕ) (λ v. v.listening other) w (λ rest. refl);
  create_listens = λ fd other w. refl;
  create_starts = λ fd w. refl;
  socket_threads = λ w. refl;
  setsockopt_threads = λ fd option w. refl;
  bind_threads = λ fd port w. refl;
  listen_threads = λ fd backlog w. refl;
  accept_threads = λ fd w. accept-kept (List Fd) (λ v. v.threads) w (λ rest. refl);
}
