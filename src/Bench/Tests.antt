-- ===== src/Bench/Tests.antt =====
-- bench with one client thread.
use echo_server.Prelude.{ℕ, ◌≡◌, ◌⊎◌, refl, [], ◌∷◌, length}
use echo_server.Posix.{ok}
use echo_server.Client.{ThreadArgs, aggregate, rate}
use echo_server.Bench.{
  warming, measuring, running, Sems, awaiting, collecting, aggregating, System, system, thread,
  no_args, start, begin, operate, finish, report, run_on, create, created, hear, heard, slept,
  signal, signalled, observed, end_one, ended, collect, collected, client, Reach, here, next,
  initial, totals,
}
use echo_server.Bench.Counts.{past_start, past_begin, past_finish, past_report, total, to_signal}
use echo_server.Bench.Order.{AllOf, measuring_order, aggregating-final}
use echo_server.Bench.Finish.{Finishes, Reach-Finishes}

abbrev sems : ℕ → ℕ → ℕ → ℕ → Sems
sems a b c d = record { started = a; should_measure = b; should_report = c; reported = d }

abbrev result : ℕ → ℕ → ThreadArgs
result ops time = record { num_ops = ops; runtime = time }

-- The thread has been created, and has told that it started.
warm : System
warm = system (awaiting 1) (sems 1 0 0 0) (thread warming no_args ∷ [])

to_warm : Reach 1 (initial 1) warm
unfolding warm
to_warm = next (next (next here create) created) (client [] [] start)

-- It has measured one operation, and was told to end.
measured : System
measured = system (collecting 1) (sems 0 0 1 0) (thread measuring (result 1 0) ∷ [])

to_measured : Reach 1 (initial 1) measured
unfolding warm measured
to_measured =
    next
      (next
        (next
          (next
            (next
              (next (next (next (next (next to_warm (hear 0 refl)) heard) slept) signal) signalled)
              (client [] [] (begin 0 refl)))
            (client [] [] (operate refl)))
          observed)
        end_one)
      ended

over : System
over = system aggregating (sems 0 0 0 0) (thread running (result 1 7) ∷ [])

to_over : Reach 1 (initial 1) over
unfolding measured over
to_over =
    next
      (next (next (next to_measured (client [] [] (finish 0 7 refl))) (client [] [] report))
        (collect 0 refl))
      collected

measuring_order_example :
    ((total past_begin measured.threads ≡ 0)
      ⊎ (AllOf past_start measured.threads × (length measured.threads ≡ 1)))
    × ((total past_finish measured.threads ≡ 0) ⊎ (to_signal 1 measured.main ≡ 0))
measuring_order_example = measuring_order 1 measured to_measured

aggregating-final_example :
    AllOf past_report over.threads × (length over.threads ≡ 1) × (over ≡ over)
unfolding over
aggregating-final_example =
    aggregating-final 1 over over to_over refl (next here (client [] [] run_on))

Reach-Finishes_example : Finishes 1 warm
unfolding warm total
Reach-Finishes_example = Reach-Finishes 1 warm to_warm refl

totals_run : totals over over ≡ ok (record { num_ops = 1; throughput = 142857143 }) over
unfolding totals over aggregate rate
totals_run = refl
