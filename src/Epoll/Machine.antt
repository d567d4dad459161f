-- ===== src/Epoll/Machine.antt =====
-- A small machine with one epoll instance, on which the epoll server can be run: the loopback
-- machine, and the descriptors that the instance watches, all of which it reports.
use mathlib.Core.Path.{subst}
use echo_server.Prelude.{
  ◌≡◌, refl, ap, ◌⊎◌, inl, inr, List, [], ◌∷◌, Option, none, some, pos, int_eq, if◌then◌else◌,
}
use echo_server.Posix.{Os, Fd}
use echo_server.Posix.Laws.{SocketLaws}
use echo_server.Posix.Loopback.{Net, loopback, loopback_laws, loopback_server}
use echo_server.Posix.Listening.{ServerLaws}
use echo_server.Epoll.Epolling.{EpollOs, EpollLaws, AllOf}

pub record Machine : Type 0 where
  pub net : Net
  pub watched : List Fd

abbrev on_net : {A : Type 0} → (Net → A × Net) → Machine → A × Machine
on_net f w = ((f w.net).0, record w { net = (f w.net).1 })

abbrev pub machine_os : Os
machine_os = record {
  World = Machine;
  socket = on_net loopback.socket;
  setsockopt = λ fd option. on_net (loopback.setsockopt fd option);
  bind = λ fd port. on_net (loopback.bind fd port);
  listen = λ fd backlog. on_net (loopback.listen fd backlog);
  accept = λ fd. on_net (loopback.accept fd);
  send = λ fd bytes. on_net (loopback.send fd bytes);
  recv = λ fd len w. let r = loopback.recv fd len w.net in (r.0, r.1, record w { net = r.2 });
  pthread_create = λ fd. on_net (loopback.pthread_create fd);
}

abbrev remove : Fd → List Fd → List Fd
remove fd [] = []
remove fd (x ∷ xs) = if int_eq fd x then remove fd xs else x ∷ remove fd xs

abbrev pub machine : EpollOs
machine = record {
  os = machine_os;
  get_flags = λ fd w. (pos 2050, w);
  set_flags = λ fd flags w. (pos 0, w);
  epoll_create = λ w. (pos 9, record w { watched = [] });
  epoll_ctl_add = λ epfd fd w. (pos 0, record w { watched = fd ∷ w.watched });
  epoll_ctl_del = λ epfd fd w. (pos 0, record w { watched = remove fd w.watched });
  epoll_wait = λ epfd w. (some w.watched, w);
}

abbrev In : List Fd → Fd → Type 0
In [] fd = ⊥
In (x ∷ xs) fd = (fd ≡ x) ⊎ In xs fd

pub all-In : (all part : List Fd) → ((fd : Fd) → In part fd → In all fd) → AllOf (In all) part
all-In all [] f = tt
all-In all (x ∷ xs) f = (f x (inl refl), all-In all xs λ fd h. f fd (inr h))

abbrev reported : Option (List Fd) → List Fd
reported none = []
reported (some fds) = fds

unfoldable pub machine_laws : EpollLaws machine
machine_laws = record {
  Watches = λ epfd w. In w.watched;
  create_empty = λ w fd h. h;
  add_one = λ epfd fd w other h. h;
  wait_reports = λ epfd w fds e.
      subst (AllOf (In w.watched)) (ap reported e) (all-In w.watched w.watched λ fd h. h);
  wait_less = λ epfd w other h. h;
}

pub machine_sockets : SocketLaws machine_os
machine_sockets = record {
  input = λ fd w. loopback_laws.input fd w.net;
  output = λ fd w. loopback_laws.output fd w.net;
  recv_takes = λ fd len w. loopback_laws.recv_takes fd len w.net;
  recv_count = λ fd len w. loopback_laws.recv_count fd len w.net;
  recv_le = λ fd len w. loopback_laws.recv_le fd len w.net;
  recv_silent = λ fd len w. loopback_laws.recv_silent fd len w.net;
  send_puts = λ fd bytes w. loopback_laws.send_puts fd bytes w.net;
  send_le = λ fd bytes w. loopback_laws.send_le fd bytes w.net;
  send_keeps = λ fd bytes w. loopback_laws.send_keeps fd bytes w.net;
}

pub machine_server : ServerLaws machine_os
machine_server = record {
  bound = λ fd w. loopback_server.bound fd w.net;
  listening = λ fd w. loopback_server.listening fd w.net;
  threads = λ w. loopback_server.threads w.net;
  bind_binds = λ fd port w e. loopback_server.bind_binds fd port w.net e;
  listen_listens = λ fd backlog w e. loopback_server.listen_listens fd backlog w.net e;
  accept_listens = λ fd other w. loopback_server.accept_listens fd other w.net;
  create_listens = λ fd other w. loopback_server.create_listens fd other w.net;
  create_starts = λ fd w. loopback_server.create_starts fd w.net;
  socket_threads = λ w. loopback_server.socket_threads w.net;
  setsockopt_threads = λ fd option w. loopback_server.setsockopt_threads fd option w.net;
  bind_threads = λ fd port w. loopback_server.bind_threads fd port w.net;
  listen_threads = λ fd backlog w. loopback_server.listen_threads fd backlog w.net;
  accept_threads = λ fd w. loopback_server.accept_threads fd w.net;
}
