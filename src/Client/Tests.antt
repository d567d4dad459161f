-- ===== src/Client/Tests.antt =====
-- client.c at concrete inputs.
use echo_server.Posix.Laws.{Moved-refl}
use echo_server.Client.Thread.{ClientOs, Semaphore, measure}
use echo_server.Client.Count.{Counted, measure-Counted}
use echo_server.Prelude.{
  ltb, ℕ, ◌+◌, ◌*◌, ◌≤◌, ◌≡◌, refl, List, [], ◌∷◌, ◌++◌, ℤ, pos, negsuc, Option, none, some, length,
  int_eq, if◌then◌else◌, arith, replicate, length-replicate,
}
use echo_server.Posix.{Fd, Run, ok, fault, recv_into, send_from, htonl}
use echo_server.Posix.Ends.{Ends, EndsOrFails}
use echo_server.Posix.Loopback.{net_with, Net, loopback, loopback_laws, loopback-Reliable}
use echo_server.Simple.Greet.{header}
use echo_server.Client.{
  Local, ThreadArgs, next_rng, fill_words, store_word, rate, aggregate, one_operation, handshake,
}
use echo_server.Client.Report.{
  rate_nearest, total_ops, total_rate, aggregate-sums, aggregate-untimed,
}
use echo_server.Client.Message.{one_operation_overrun, one_operation-Exchanged, Exchanged}
use echo_server.Client.Handshake.{handshake-header}

abbrev server : Fd
server = pos 5

-- A server of messages of four bytes that has echoed one.
abbrev answers : Net
answers = net_with (λ fd. if int_eq server fd then header 4 ++ (1 ∷ 2 ∷ 3 ∷ 4 ∷ []) else []) ([])

abbrev new_thread : Local
new_thread = record { buf = replicate 1024 0; rng_state = 1 }

abbrev seed : ℕ
seed = 5

one_operation_overrun_example : one_operation loopback server (pos 200) new_thread answers ≡ fault
one_operation_overrun_example =
    one_operation_overrun loopback server 200 new_thread answers (omega arith)
      (length-replicate {A = ℕ} 1024 0)

one_operation-Exchanged_example :
    EndsOrFails
      (Exchanged loopback_laws server 8 new_thread answers)
      (one_operation loopback server (pos 8) new_thread answers)
one_operation-Exchanged_example =
    one_operation-Exchanged loopback_laws server 8 new_thread answers (omega arith)
      (length-replicate {A = ℕ} 1024 0)

handshake-header_example :
    Ends
      (λ n w'.
        (n ≡ pos 4)
        × (loopback_laws.input server w' ≡ 1 ∷ 2 ∷ 3 ∷ 4 ∷ [])
        × (loopback_laws.output server w' ≡ loopback_laws.output server answers ++ (72 ∷ 105 ∷ [])))
      (handshake loopback server (replicate 4 0) answers)
unfolding loopback_laws
handshake-header_example =
    handshake-header loopback_laws server (replicate 4 0) (omega arith) 4 (1 ∷ 2 ∷ 3 ∷ 4 ∷ [])
      answers (omega arith) (loopback-Reliable server) refl

abbrev two_threads : List ThreadArgs
two_threads =
    record { num_ops = 100; runtime = 2000000000 }
    ∷ record { num_ops = 7; runtime = 1000000000 }
    ∷ []

rate_nearest_example :
    (2 * (rate (record { num_ops = 7; runtime = 3 }) * 3) ≤ 2 * (7 * 1000000000) + 3)
    × (2 * (7 * 1000000000) ≤ 2 * (rate (record { num_ops = 7; runtime = 3 }) * 3) + 3)
rate_nearest_example =
    rate_nearest (record { num_ops = 7; runtime = 3 }) (omega arith) (omega arith)

two_rates : total_rate two_threads ≡ 57
unfolding rate
two_rates = refl

aggregate-sums_example :
    Ends
      (λ r v.
        (r.num_ops ≡ total_ops two_threads)
        × (r.throughput ≡ total_rate two_threads)
        × (v ≡ answers))
      (aggregate two_threads (record { num_ops = 0; throughput = 0 }) answers)
aggregate-sums_example =
    aggregate-sums two_threads answers (omega arith, (omega arith, tt)) (omega arith)
      (omega (arith, two_rates))

aggregate-untimed_example :
    aggregate
      (two_threads ++ (record { num_ops = 1; runtime = 0 } ∷ []))
      (record { num_ops = 0; throughput = 0 })
      answers
    ≡ fault
aggregate-untimed_example =
    aggregate-untimed two_threads [] (record { num_ops = 1; runtime = 0 })
      (record { num_ops = 0; throughput = 0 }) answers refl

-- The loopback machine, with a signal once the server was sent eight bytes.
abbrev signalled : Semaphore → Net → ℤ × Net
signalled s w = (if ltb (length (w.sent server)) 8 then negsuc 0 else pos 0, w)

abbrev client_machine : ClientOs
client_machine = record {
  os = loopback;
  getaddrinfo = λ w. (some (1 ∷ []), w);
  connect = λ fd address w. (pos 0, w);
  sem_post = λ s w. w;
  sem_trywait = signalled;
  clock_gettime = λ w. (some (record { tv_sec = 1; tv_nsec = length (w.incoming server) }), w);
}

measure-Counted_example :
    EndsOrFails
      (Counted client_machine loopback_laws server
        (λ s. Moved-refl loopback_laws server)
        2
        0
        4
        answers)
      (measure client_machine 3 server (pos 4) new_thread 0 answers)
unfolding loopback_laws
measure-Counted_example =
    measure-Counted client_machine loopback_laws server (λ s. Moved-refl loopback_laws server) 2 0 4
      8 new_thread answers (omega arith) (length-replicate {A = ℕ} 1024 0) (omega arith)
      (λ v h. ground arith) (omega arith)

counted : Run Net (Option (Local × ℕ)) → Option ℕ
counted (ok (some r) w) = some r.1
counted _ = none

-- Eight bytes are there: two operations of four bytes.
measure_run : counted (measure client_machine 3 server (pos 4) new_thread 0 answers) ≡ some 2
unfolding measure counted one_operation fill_words store_word next_rng recv_into send_from htonl
measure_run = refl
