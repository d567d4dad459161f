-- ===== src/Ringed/Tests.antt =====
-- The server of uring.c at concrete inputs, with a ring that holds one operation.
use echo_server.Prelude.{
  ℕ, ◌≡◌, refl, ap, List, [], ◌∷◌, Option, none, some, ℤ, pos, negsuc, int_eq, if◌then◌else◌,
  replicate,
}
use echo_server.Posix.{Fd, Run, ok, recv_into, send_from, htonl}
use echo_server.Posix.Loopback.{net_with, Net, loopback}
use echo_server.Simple
use echo_server.Simple.{Progress}
use echo_server.Ringed
use echo_server.Ringed.Operations.{Rings, RingsLaws, Operation, Completion, perform}
use echo_server.Ringed.Refines.{handle_conn-handle_conn}

-- The operation that is queued, if there is one.
abbrev place : Operation → Option Operation → Option (Option Operation)
place op none = some (some op)
place op (some _) = none

abbrev carry_out : Option Operation → Net → ℤ × Completion × Option Operation × Net
carry_out none w = (negsuc 0, record { res = negsuc 0; bytes = [] }, none, w)
carry_out (some op) w = (pos 0, (perform loopback op w).0, none, (perform loopback op w).1)

abbrev one_place : Rings
one_place = record {
  os = loopback;
  Ring = Option Operation;
  queue_init = λ entries w. (none, w);
  get_sqe = place;
  submit = λ r w. (pos 1, r, w);
  wait_cqe = carry_out;
  cqe_seen = λ r. r;
}

one_place_laws : RingsLaws one_place
one_place_laws = record {
  Idle = λ r. r ≡ none;
  init_idle = λ entries w. refl;
  init_quiet = λ entries w. refl;
  queued = λ op r. some op;
  get_some = λ op r idle. ap (place op) idle;
  completed = λ op r w. none;
  completes = λ op r w idle. (0, refl);
  seen_idle = λ op r w idle. refl;
}

abbrev peer : Fd
peer = pos 7

abbrev net : Net
net = net_with (λ fd. if int_eq peer fd then 72 ∷ 105 ∷ 1 ∷ 2 ∷ 3 ∷ 4 ∷ 5 ∷ [] else []) ([])

abbrev stack : List ℕ
stack = replicate 1024 0

handle_conn-handle_conn_example :
    Ringed.handle_conn one_place 2 peer stack 4 net ≡ Simple.handle_conn loopback 2 peer stack 4 net
handle_conn-handle_conn_example = handle_conn-handle_conn one_place_laws 2 peer stack 4 net

sent_to_peer : Run Net Progress → List ℕ
sent_to_peer (ok _ w) = w.sent peer
sent_to_peer _ = []

-- One message comes back; the second is cut off, and the handler returns.
ring_run :
    sent_to_peer (Ringed.handle_conn one_place 2 peer stack 4 net)
    ≡ 0 ∷ 0 ∷ 0 ∷ 4 ∷ 1 ∷ 2 ∷ 3 ∷ 4 ∷ []
unfolding Ringed.handle_conn Ringed.run_op sent_to_peer recv_into send_from htonl Simple.greet
ring_run = refl
