-- ===== src/Simple/Tests.antt =====
-- simple.c at concrete inputs: two messages of four bytes behind the greeting "Hi".
use echo_server.Prelude.{
  ◌≡◌, refl, ℕ, List, [], ◌∷◌, pos, negsuc, int_eq, if◌then◌else◌, arith, replicate,
  length-replicate,
}
use echo_server.Posix.{Fd, Run, ok, recv_into, send_from, htonl}
use echo_server.Posix.Ends.{Ends, EndsOrFails, done}
use echo_server.Posix.Loopback.{
  net_with, Net, loopback, loopback_laws, loopback_server, loopback-Reliable,
}
use echo_server.Simple.{Progress, Server, handle_conn, start_server, main}
use echo_server.Simple.Handler.{Handled, Answered, handle_conn-echoes, handle_conn-answers}
use echo_server.Simple.Start.{Running, start_server_guarantees}

abbrev peer : Fd
peer = pos 7

abbrev two_messages : List ℕ
two_messages = 72 ∷ 105 ∷ 1 ∷ 2 ∷ 3 ∷ 4 ∷ 5 ∷ 6 ∷ 7 ∷ 8 ∷ 9 ∷ []

abbrev net : Net
net = net_with (λ fd. if int_eq peer fd then two_messages else []) (peer ∷ pos 8 ∷ [])

abbrev stack : List ℕ
stack = replicate 1024 0

handle_conn-echoes_example :
    Ends (Handled loopback_laws peer 2 4 net) (handle_conn loopback 2 peer stack 4 net)
handle_conn-echoes_example =
    handle_conn-echoes loopback_laws peer 2 4 stack net (omega arith)
      (length-replicate {A = ℕ} 1024 0)

handle_conn-answers_example :
    Ends (Answered loopback_laws peer 2 4 net) (handle_conn loopback 2 peer stack 4 net)
unfolding loopback_laws
handle_conn-answers_example =
    handle_conn-answers loopback_laws peer 2 4 stack net (omega arith)
      (length-replicate {A = ℕ} 1024 0) (loopback-Reliable peer) (omega arith)

start_server_guarantees_example :
    EndsOrFails
      (Running loopback_server 2 12345 (pos 64) net)
      (start_server loopback 2 12345 (pos 64) net)
unfolding loopback_server
start_server_guarantees_example = start_server_guarantees loopback_server 2 12345 (pos 64) net

threads_of : Run Net Server → List Fd
threads_of (ok _ w) = w.threads
threads_of _ = []

sent_to_peer : Run Net Progress → List ℕ
sent_to_peer (ok _ w) = w.sent peer
sent_to_peer _ = []

-- The third read is short, and the handler returns.
echo_run :
    sent_to_peer (handle_conn loopback 3 peer stack 4 net)
    ≡ 0 ∷ 0 ∷ 0 ∷ 4 ∷ 1 ∷ 2 ∷ 3 ∷ 4 ∷ 5 ∷ 6 ∷ 7 ∷ 8 ∷ []
unfolding handle_conn sent_to_peer recv_into send_from htonl
echo_run = refl

main_run : threads_of (main loopback 2 net) ≡ peer ∷ pos 8 ∷ []
unfolding main threads_of
main_run = refl

-- A negative size passes the test.
negative_run :
    EndsOrFails (λ server _. server.msg_size ≡ negsuc 0) (start_server loopback 2 1 (negsuc 0) net)
unfolding start_server
negative_run = done refl
