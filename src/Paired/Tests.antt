-- ===== src/Paired/Tests.antt =====
-- The server of uring2.c at concrete inputs, with a ring that holds two operations.
use echo_server.Prelude.{
  ℕ, ◌≡◌, refl, ap, List, [], ◌∷◌, Option, none, some, ℤ, pos, negsuc, int_eq, if◌then◌else◌,
  replicate, length-replicate, arith,
}
use echo_server.Posix.{Fd, Run, ok, recv_into, send_from, htonl}
use echo_server.Posix.Ends.{Ends}
use echo_server.Posix.Loopback.{net_with, Net, loopback, loopback_laws}
use echo_server.Simple.{greet}
use echo_server.Ringed.Operations.{Operation, receive, transmit, Completion, perform}
use echo_server.Paired.{
  Progress, handle_conn, pair_loop, pair_round, enqueue, complete_both, after_greeting,
}
use echo_server.Paired.Rings.{PairRings, PairLaws, Both, first, reply_first}
use echo_server.Paired.Handler.{Handled, handle_conn-Handled}

abbrev place : Operation → List Operation → Option (List Operation)
place op [] = some (op ∷ [])
place op (a ∷ []) = some (a ∷ op ∷ [])
place op _ = none

abbrev carry_out : List Operation → Net → ℤ × List Completion × List Operation × Net
carry_out (a ∷ b ∷ []) w =
    let v = perform loopback a w in
    let u = perform loopback b v.1 in (pos 0, v.0 ∷ u.0 ∷ [], [], u.1)
carry_out r w = (negsuc 0, [], r, w)

abbrev two_places : PairRings
two_places = record {
  os = loopback;
  Ring = List Operation;
  queue_init = λ entries w. ([], w);
  get_sqe = place;
  submit = λ r w. (pos 2, r, w);
  wait_cqes = λ count. carry_out;
  cq_advance = λ count r. [];
}

abbrev IsEmpty : List Operation → Type 0
IsEmpty r = r ≡ []

takes_both :
    (fd : Fd) (bytes : List ℕ) (len : ℕ) (r : List Operation) (w : Net)
    → IsEmpty r
    → Both two_places IsEmpty fd bytes len r w
takes_both fd bytes len r w idle = record {
  with_reply = transmit fd bytes ∷ [];
  with_both = transmit fd bytes ∷ receive fd len ∷ [];
  first_place = ap (place (transmit fd bytes)) idle;
  second_place = refl;
  result = pos 0;
  reply = _;
  read = _;
  completions = _;
  ring = [];
  world = _;
  waited = refl;
  listed = first;
  carried_out = reply_first;
  idle = refl;
}

two_places_laws : PairLaws two_places
two_places_laws = record {
  Idle = IsEmpty;
  init_idle = λ entries w. refl;
  init_quiet = λ entries w. refl;
  both = takes_both;
}

abbrev peer : Fd
peer = pos 7

abbrev net : Net
net =
    net_with (λ fd. if int_eq peer fd then 72 ∷ 105 ∷ 1 ∷ 2 ∷ 3 ∷ 4 ∷ 5 ∷ 6 ∷ 7 ∷ 8 ∷ [] else [])
      ([])

abbrev zeros : List ℕ
zeros = replicate 1024 0

handle_conn-Handled_example :
    Ends
      (Handled two_places_laws loopback_laws peer 1 4 net)
      (handle_conn two_places 1 peer zeros zeros 4 net)
handle_conn-Handled_example =
    handle_conn-Handled two_places_laws loopback_laws peer 1 4 zeros zeros net (omega arith)
      (length-replicate {A = ℕ} 1024 0) (length-replicate {A = ℕ} 1024 0)

sent_to_peer : Run Net Progress → List ℕ
sent_to_peer (ok _ w) = w.sent peer
sent_to_peer _ = []

-- After one round the first message is back, and the second is in.
pair_run :
    sent_to_peer (handle_conn two_places 1 peer zeros zeros 4 net)
    ≡ 0 ∷ 0 ∷ 0 ∷ 4 ∷ 1 ∷ 2 ∷ 3 ∷ 4 ∷ []
unfolding handle_conn pair_loop pair_round enqueue complete_both after_greeting greet sent_to_peer
    recv_into send_from htonl
pair_run = refl
