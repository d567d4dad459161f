-- ===== src/Sharded/Tests.antt =====
-- io_uring_sharded.c on a submission queue that is a list: the life of one connection.
use mathlib.Core.Path.{subst}
use echo_server.Posix.Loopback.{net_with, loopback_server, loopback}
use echo_server.Sharded.Server.{Safe, start_server, start_server-Safe}
use echo_server.Prelude.{
  ℕ, ◌+◌, ◌≤◌, ◌<◌, ◌≡◌, refl, ap, List, [], ◌∷◌, ◌++◌, none, some, pos, length, ltb, if◌then◌else◌,
  arith,
}
use echo_server.Posix.{Fd, Run, ok, exit, fault}
use echo_server.Posix.Ends.{Ends, EndsOrFails}
use echo_server.Sharded.{
  accepted, received_msg, Threadlet, Cqe, Wait, batch, State, push, add_accept, main_loop,
}
use echo_server.Sharded.Liburing.{Op, Sqe, sqe, Uring, UringLaws}
use echo_server.Sharded.Handlers.{Good}
use echo_server.Sharded.System.{
  Delivers, nothing, completion, Reach, start, round, Feasible, Healthy, round_safe, main_loop_safe,
}
use echo_server.Sharded.Burst.{Fails, round_stays_up, burst_ends_server}

-- A queue of `entries` places.
abbrev pub list_ring : ℕ → Uring
list_ring entries = record {
  Ring = List Sqe;
  enqueue = λ e r. if ltb (length r) entries then some (r ++ e ∷ []) else none;
  submit = λ r. [];
}

pub list_ring-full :
    (entries : ℕ) (e : Sqe) (r : List Sqe)
    → entries ≤ length r
    → (if ltb (length r) entries then some (r ++ e ∷ []) else none) ≡ none
list_ring-full entries e r full = ground arith

pub list_ring-room :
    (entries : ℕ) (e : Sqe) (r : List Sqe)
    → length r < entries
    → (if ltb (length r) entries then some (r ++ e ∷ []) else none) ≡ some (r ++ e ∷ [])
list_ring-room entries e r room = ground arith

unfoldable pub list_laws : (entries : ℕ) → UringLaws (list_ring entries)
list_laws entries = record {
  entries = entries;
  queued = λ r. r;
  enqueue_full = list_ring-full entries;
  enqueue_room = λ e r room. (r ++ e ∷ [], list_ring-room entries e r room, refl);
  submit_all = λ r. refl;
}

abbrev pub listener : Fd
listener = pos 3

abbrev pub acceptor : Threadlet
acceptor = record { pc = accepted; fd = listener; buf = none }

abbrev pub waiting : ℕ → Sqe
waiting t = sqe (Op.accept listener) (some t)

-- the state at the top of the loop, and a first connection on descriptor 7
abbrev pub first : State (list_ring 8)
first = record { ring = waiting 0 ∷ []; threadlets = acceptor ∷ []; bufs = 0 }

abbrev pub connected : List Cqe
connected = record { user_data = some 0; res = pos 7 } ∷ []

first-Reach : Reach (list_laws 8) listener 4 first []
unfolding list_laws add_accept push
first-Reach = start {ring = []} refl refl

connected-Delivers : Delivers (waiting 0 ∷ []) connected []
connected-Delivers = completion (waiting 0) [] [] (pos 7) refl nothing

round_safe_example :
    EndsOrFails
      (λ _ s. Good (list_laws 8) listener 4 1 s [])
      (round (list_laws 8) listener 4 connected first)
unfolding list_laws
round_safe_example = round_safe (list_laws 8) listener 4 first-Reach connected-Delivers

round_stays_up_example :
    Ends
      (λ _ s. Good (list_laws 8) listener 4 1 s [])
      (round (list_laws 8) listener 4 connected first)
unfolding list_laws
round_stays_up_example =
    round_stays_up (list_laws 8) listener 4 first-Reach connected-Delivers (refl, tt) (omega arith)

abbrev state_of : Run (State (list_ring 8)) (Unit {0}) → State (list_ring 8)
state_of (ok _ s) = s
state_of (exit _ s) = s
state_of fault = first

first-Feasible :
    (s : State (list_ring 8))
    → add_accept (list_ring 8) listener (record { ring = []; threadlets = []; bufs = 0 }) ≡ ok tt s
    → Feasible (list_laws 8) listener 4 s [] (batch connected ∷ Wait.error ∷ [])
unfolding list_laws add_accept push
first-Feasible s e =
    subst (λ s. Feasible (list_laws 8) listener 4 s [] (batch connected ∷ Wait.error ∷ []))
      (ap state_of e) ([], connected-Delivers, λ _ _. tt)

main_loop_safe_example :
    EndsOrFails
      (Healthy (list_laws 8) listener 4)
      (main_loop (list_ring 8) listener 4 [] (batch connected ∷ Wait.error ∷ []))
unfolding list_laws
main_loop_safe_example =
    main_loop_safe (list_laws 8) listener 4 [] (batch connected ∷ Wait.error ∷ []) refl
      first-Feasible

start_server-Safe_example :
    EndsOrFails (Safe loopback_server (list_laws 8) 12345) (
      start_server loopback
        (list_ring 8)
        []
        (batch [] ∷ Wait.error ∷ [])
        (net_with (λ fd. []) ([])))
unfolding list_laws loopback_server
start_server-Safe_example =
    start_server-Safe loopback_server (list_laws 8) [] (batch [] ∷ Wait.error ∷ [])
      (net_with (λ fd. []) ([])) refl λ l s e. (_, nothing, λ _ _. tt)

-- Two connections whose messages are in, and a queue of three places.
abbrev pub talking : ℕ → Threadlet
talking b = record { pc = received_msg; fd = pos (7 + b); buf = some b }

abbrev busy : State (list_ring 3)
busy = record { ring = []; threadlets = talking 0 ∷ talking 1 ∷ []; bufs = 2 }

abbrev both : List Cqe
both = record { user_data = some 0; res = pos 4 } ∷ record { user_data = some 1; res = pos 4 } ∷ []

burst_ends_server_example :
    Fails (list_laws 3) listener 4 (round (list_laws 3) listener 4 both busy)
unfolding list_laws
burst_ends_server_example =
    burst_ends_server (list_laws 3) listener 4 busy both
      (
        record {
          t = 0;
          r = talking 0;
          b = 0;
          user = refl;
          here = refl;
          at = refl;
          holds = refl;
          whole = refl;
        },
        (
          record {
            t = 1;
            r = talking 1;
            b = 1;
            user = refl;
            here = refl;
            at = refl;
            holds = refl;
            whole = refl;
          },
          tt,
        ),
      )
      (omega arith)

-- Accept, greeting, one message; then the peer closes, and only `accept` is left.
life :
    main_loop (list_ring 8) listener 4 [] (
      batch connected
      ∷ batch (
          record { user_data = none; res = pos 4 }
          ∷ record { user_data = some 0; res = pos 2 }
          ∷ [])
      ∷ batch (record { user_data = some 0; res = pos 4 } ∷ [])
      ∷ batch (
          record { user_data = none; res = pos 4 }
          ∷ record { user_data = some 0; res = pos 0 }
          ∷ [])
      ∷ [])
    ≡ ok tt (record { ring = []; threadlets = talking 0 ∷ acceptor ∷ []; bufs = 1 })
unfolding main_loop push
life = refl
