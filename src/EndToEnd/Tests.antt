-- ===== src/EndToEnd/Tests.antt =====
-- Two messages of eight bytes, there and back.
use echo_server.Prelude.{
  ℕ, ◌≡◌, refl, List, [], ◌∷◌, ◌++◌, pos, int_eq, if◌then◌else◌, arith, replicate, length-replicate,
}
use echo_server.Posix.{Fd, recv_into, send_from, htonl}
use echo_server.Posix.Ends.{Ends}
use echo_server.Posix.Loopback.{net_with, Net, loopback, loopback_laws, loopback-Reliable}
use echo_server.Client.{Local, fill_words, store_word, next_rng, one_operation, handshake}
use echo_server.Client.Session.{operate, session}
use echo_server.Simple.{handle_conn}
use echo_server.Simple.Greet.{header}
use echo_server.EndToEnd.{Returned, world_after, session-Returned}

abbrev socket : Fd
socket = pos 5

-- The first two words of the generator.
abbrev two_words : List ℕ
two_words = 38 ∷ 0 ∷ 0 ∷ 0 ∷ 0 ∷ 0 ∷ 0 ∷ 0 ∷ 127 ∷ 5 ∷ 0 ∷ 0 ∷ 0 ∷ 0 ∷ 0 ∷ 0 ∷ []

abbrev holding : List ℕ → Net
holding bytes = net_with (λ fd. if int_eq socket fd then bytes else []) ([])

abbrev at_client : Net
at_client = holding (header 8 ++ two_words)

abbrev at_server : Net
at_server = holding (72 ∷ 105 ∷ two_words)

abbrev thread : Local
thread = record { buf = replicate 1024 0; rng_state = 1 }

served :
    loopback_laws.input socket at_client
    ≡ loopback_laws.output socket
        (world_after at_server (handle_conn loopback 2 socket (replicate 1024 0) 8 at_server))
unfolding loopback_laws handle_conn recv_into send_from htonl
served = refl

asked :
    loopback_laws.input socket at_server
    ≡ loopback_laws.output socket
        (world_after at_client (session loopback 2 socket (replicate 4 0) thread at_client))
unfolding loopback_laws session operate one_operation handshake fill_words store_word next_rng
    recv_into send_from htonl
asked = refl

session-Returned_example :
    Ends
      (Returned loopback_laws loopback_laws socket socket 2 8 at_client)
      (session loopback 2 socket (replicate 4 0) thread at_client)
unfolding loopback_laws
session-Returned_example =
    session-Returned loopback_laws loopback_laws socket socket 2 2 8 (replicate 4 0)
      (replicate 1024 0) thread at_client at_server (loopback-Reliable socket) (omega arith)
      (omega arith) (length-replicate {A = ℕ} 1024 0) (length-replicate {A = ℕ} 1024 0) refl refl
      served asked (omega arith)
