-- ===== src/Epoll/Tests.antt =====
-- The epoll server at concrete inputs: a connection that sends one message of four bytes.
use echo_server.Prelude.{
  ℕ, ◌≡◌, refl, negsuc, int_of, int_of_small, length, length-take, arith, List, [], ◌∷◌, some, none,
  pos, int_eq, if◌then◌else◌, replicate, length-replicate,
}
use echo_server.Posix.{Fd, Run, ok, fault, ◌>>=◌, recv_into, send_from, htonl}
use echo_server.Posix.Loopback.{net_with}
use echo_server.Posix.Ends.{EndsOrFails}
use echo_server.Simple.{echo_round, greet}
use echo_server.Epoll.{Locals, epollin, start_server, event_loop, on_readable, handle_new_conn}
use echo_server.Epoll.Machine.{
  Machine, machine, machine_os, machine_laws, machine_sockets, machine_server,
}
use echo_server.Epoll.Start.{Serving, start_server-Serving}
use echo_server.Epoll.Refines.{settle, discard, on_readable-echo_round, handle_new_conn-greet}

abbrev listener : Fd
listener = pos 3

abbrev peer : Fd
peer = pos 7

abbrev instance_fd : Fd
instance_fd = pos 9

abbrev one_message : List ℕ
one_message = 72 ∷ 105 ∷ 1 ∷ 2 ∷ 3 ∷ 4 ∷ []

abbrev at_first : Machine
at_first = record {
  net = net_with (λ fd. if int_eq peer fd then one_message else []) (peer ∷ pos 8 ∷ []);
  watched = listener ∷ [];
}

abbrev zeros : List ℕ
zeros = replicate 1024 0

start_server-Serving_example :
    EndsOrFails
      (Serving machine_laws machine_sockets machine_server 2 12345 4 zeros zeros at_first)
      (start_server machine 2 12345 (pos 4) zeros zeros at_first)
start_server-Serving_example =
    start_server-Serving machine_laws machine_sockets machine_server 2 12345 4 zeros zeros at_first
      (length-replicate {A = ℕ} 1024 0) (length-replicate {A = ℕ} 1024 0)

on_readable-echo_round_example :
    (on_readable machine instance_fd peer (pos 4) (record { buf = zeros; ev_events = some epollin })
        >>= discard)
      at_first
    ≡ (echo_round machine_os peer zeros 4 >>= settle machine instance_fd peer 4) at_first
on_readable-echo_round_example =
    on_readable-echo_round machine instance_fd peer 4 zeros at_first
      (λ v. int_of_small _ (omega (arith, length-take {0} 4 (v.net.incoming peer))))
      (λ bytes v h. int_of_small (length bytes) (omega arith))

handle_new_conn-greet_example :
    handle_new_conn machine peer zeros (pos 4) at_first
    ≡ (greet machine_os peer zeros 4 >>= discard) at_first
handle_new_conn-greet_example = handle_new_conn-greet machine peer 4 zeros at_first

sent_to_peer : Run Machine Locals → List ℕ
sent_to_peer (ok _ w) = w.net.sent peer
sent_to_peer _ = []

-- The first round greets the connection, the second takes another one and echoes the message.
epoll_run :
    sent_to_peer (
      event_loop machine 2 instance_fd listener zeros
        (pos 4)
        (record { buf = zeros; ev_events = none })
        at_first)
    ≡ 0 ∷ 0 ∷ 0 ∷ 4 ∷ 1 ∷ 2 ∷ 3 ∷ 4 ∷ []
unfolding event_loop sent_to_peer recv_into send_from htonl int_of
epoll_run = refl

-- With a negative size the length for the call is beyond the buffer.
negative_run :
    on_readable machine instance_fd peer
      (negsuc 0)
      (record { buf = zeros; ev_events = some epollin })
      at_first
    ≡ fault
unfolding on_readable recv_into
negative_run = refl
