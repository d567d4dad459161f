-- ===== src/Sharded/Linked/Tests.antt =====
-- A connection of io_uring_sharded.c up to its first reply, with a kernel that heeds the links.
use echo_server.Prelude.{ℕ, refl, [], ◌∷◌, none, some, pos, true}
use echo_server.Posix.Ends.{EndsOrFails}
use echo_server.Sharded.{
  received_header, Cqe, State, push, add_accept, on_accepted, on_header, on_msg, dispatch,
  handle_cqe, handle_batch,
}
use echo_server.Sharded.Liburing.{Mem, Op, Sqe, sqe}
use echo_server.Sharded.Handlers.{pending}
use echo_server.Sharded.System.{round}
use echo_server.Sharded.Exclusive.{Exclusive}
use echo_server.Sharded.Linked.{no_more, free, LinkedReach, first, further, round-Exclusive}
use echo_server.Sharded.Tests.{list_ring, list_laws, listener, acceptor, waiting, talking}

abbrev announce : Sqe
announce = sqe (Op.send (pos 7) Mem.msg_size_conv 4) none

abbrev greeting : Sqe
greeting = sqe (Op.recv (pos 7) Mem.header_buf 2) (some 0)

abbrev message : Sqe
message = sqe (Op.recv (pos 7) (Mem.heap 0) 4) (some 0)

abbrev reply : Sqe
reply = record { op = Op.send (pos 7) (Mem.heap 0) 4; user_data = none; link = true }

abbrev fresh : State (list_ring 8)
fresh = record { ring = waiting 0 ∷ []; threadlets = acceptor ∷ []; bufs = 0 }

abbrev greeted : State (list_ring 8)
greeted = record {
  ring = announce ∷ waiting 1 ∷ greeting ∷ [];
  threadlets = record { pc = received_header; fd = pos 7; buf = none } ∷ acceptor ∷ [];
  bufs = 0;
}

abbrev reading : State (list_ring 8)
reading = record { ring = message ∷ []; threadlets = talking 0 ∷ acceptor ∷ []; bufs = 1 }

abbrev replying : State (list_ring 8)
replying = record { ring = reply ∷ message ∷ []; threadlets = talking 0 ∷ acceptor ∷ []; bufs = 1 }

abbrev done_with : Sqe → ℕ → Cqe
done_with e n = record { user_data = e.user_data; res = pos n }

replying-LinkedReach : LinkedReach (list_laws 8) listener 4 replying (waiting 1 ∷ [])
unfolding list_laws add_accept push on_accepted on_header on_msg dispatch handle_cqe handle_batch
replying-LinkedReach =
    further {s = reading} {flight = waiting 1 ∷ []}
      (further {s = greeted} {flight = []}
        (further {s = fresh} {flight = []} (first {ring = []} refl refl)
          (free (waiting 0) [] [] (pos 7) refl refl no_more) refl)
        (free announce [] (waiting 1 ∷ greeting ∷ []) (pos 4) refl refl
          (free greeting (waiting 1 ∷ []) [] (pos 2) refl refl no_more))
        refl)
      (free message (waiting 1 ∷ []) [] (pos 4) refl refl no_more) refl

-- The reply completes before the next message is read.
round-Exclusive_example :
    EndsOrFails
      (λ _ s. Exclusive (pending (list_laws 8) listener 4 s (waiting 1 ∷ [])))
      (round (list_laws 8) listener 4 (done_with reply 4 ∷ done_with message 4 ∷ []) replying)
unfolding list_laws
round-Exclusive_example = round-Exclusive (list_laws 8) listener 4 replying-LinkedReach (
    free reply (waiting 1 ∷ []) (message ∷ []) (pos 4) refl refl
      (free message (waiting 1 ∷ []) [] (pos 4) refl refl no_more))
