-- ===== src/X710/Sent.antt =====
-- x710.c, adminq_get_ver: where it puts its command, and what it prints.
use echo_server.Prelude.{
  ℕ, ◌+◌, ◌/◌, ◌%◌, ◌^◌, ◌<◌, ◌≡◌, refl, ap, ◌∙◌, List, ◌∷◌, true, false, Option, none, some, ◌==◌,
  Bool-cases, inl, inr, arith,
}
use native.Mathlib.Nat.{mod-eq_of_lt}
use echo_server.X710.Fill.{last_store_here}
use echo_server.Posix.Ends
use echo_server.Posix.Ends.{EndsOrFails, done, stops, Ends-EndsOrFails, Ends, ends}
use echo_server.Dma.{u32, u64}
use echo_server.Device.{Event, wrote, asked, looked, slept, stored, Card, Driver}
use echo_server.Device.Trace.{
  last_write, last_store, last_write-Quiet, last_store-Quiet, Quiet, same, then_asked, then_looked,
  Waited, loop_while-Waited, loop_while-WaitedOrFails,
}
use echo_server.X710.{words_of, Adminq, pf_atqt, pf_arqlen, adminq_check_rq, queue_full, unanswered}
use echo_server.X710.Command.{get_version, Version, read_version, adminq_get_ver}

module _ (card : Card) (pf : ℕ) (adminq : Adminq) where
  queue_full-Waited : (s : Driver) → Ends (λ b s'. Waited s s') (queue_full card pf s)
  unfolding queue_full
  queue_full-Waited s = ends (record { same_dma = refl; quiet = then_asked (then_asked same) })

  -- A round without an answer: reads, and the exit on an error.
  unanswered-Waited :
      (tqe : ℕ) (s : Driver) → EndsOrFails (λ b s'. Waited s s') (unanswered card pf adminq tqe s)
  unfolding unanswered adminq_check_rq
  unanswered-Waited tqe s = elim (Bool-cases (u32 (card.word s.log tqe) % 2 == 1)) [
    | inl e ↦ rw e (done (record { same_dma = refl; quiet = then_looked same }))
    | inr e ↦
        rw e
          (elim (Bool-cases
            (u32 (card.register (looked tqe ∷ s.log) (pf_arqlen pf)) / 2 ^ 30 == 1)) [
              | inl bad ↦ rw bad (stops refl)
              | inr good ↦ rw good (
                  done (record {
                    same_dma = refl;
                    quiet = then_asked (
                        then_asked
                          (then_asked (then_asked (then_asked (then_asked (then_looked same))))));
                  }))
            ])
  ]

  -- What is known when a version is printed.
  pub record Printed (tail : ℕ) (v : Version) (log : List Event) : Type 0 where
    pub at_tail : last_store log (u64 (adminq.tq + tail)) ≡ some (words_of get_version)
    pub tail_moved : last_write log (pf_atqt pf) ≡ some ((tail + 1) % 128)
    pub no_fw_minor : v.fw_minor ≡ 0
    pub no_api_second : v.api_second ≡ 0
    pub no_api_third : v.api_third ≡ 0

  abbrev pub PrintedOrWaiting : (tail : ℕ) → Option Version → List Event → Type 0
  PrintedOrWaiting tail none log = Unit
  PrintedOrWaiting tail (some v) log = Printed tail v log

  -- The log up to the command, and up to the move of the tail.
  abbrev command_log : (tail : ℕ) → List Event → List Event
  command_log tail log =
      stored (u64 (adminq.tq + tail)) (words_of get_version)
      ∷ asked (pf_atqt pf)
      ∷ slept 1000000000
      ∷ log

  abbrev sent_log : (tail : ℕ) → List Event → List Event
  sent_log tail log =
      wrote (pf_atqt pf) (u32 (u32 (tail + 1) % 128)) ∷ asked (pf_atqt pf) ∷ command_log tail log

  last_write_here :
      (o value : ℕ) (log : List Event) → last_write (wrote o value ∷ log) o ≡ some value
  last_write_here o value log = ground arith

  -- The seven reads of the version.
  abbrev read_log : (tqe : ℕ) → List Event → List Event
  read_log tqe log =
      looked (u64 (tqe + 28))
      ∷ looked (u64 (tqe + 28))
      ∷ looked (u64 (tqe + 28))
      ∷ looked (u64 (tqe + 24))
      ∷ looked (u64 (tqe + 24))
      ∷ looked (u64 (tqe + 20))
      ∷ looked (u64 (tqe + 16))
      ∷ log

  printed :
      (tail : ℕ) (log : List Event) (u : Driver)
      → Quiet (sent_log tail log) u.log
      → tail < 128
      → Ends (λ v s'. Printed tail v s'.log) (read_version card (u64 (adminq.tq + tail)) u)
  unfolding read_version
  printed tail log u q small =
      let q' : Quiet (sent_log tail log) (read_log (u64 (adminq.tq + tail)) u.log) =
        then_looked
          (then_looked (then_looked (then_looked (then_looked (then_looked (then_looked q)))))) in
      ends (record {
        at_tail =
            last_store-Quiet (u64 (adminq.tq + tail)) q'
            ∙ last_store_here (u64 (adminq.tq + tail)) (u64 (adminq.tq + tail))
                (words_of get_version) (asked (pf_atqt pf) ∷ slept 1000000000 ∷ log) refl;
        tail_moved =
            last_write-Quiet (pf_atqt pf) q'
            ∙ last_write_here (pf_atqt pf) (u32 (u32 (tail + 1) % 128))
                (asked (pf_atqt pf) ∷ command_log tail log)
            ∙ ap some (omega arith);
        no_fw_minor = omega arith;
        no_api_second = omega arith;
        no_api_third = omega arith;
      })

  -- On a card that reads back the transmit tail as it was last written, and where it was last
  -- written with t below 128, adminq_get_ver exits with status -1, or has not ended one of its
  -- waits after the rounds given, or has put its command at the start of the transmit queue
  -- plus t, has written t + 1 modulo 128 to the tail, and prints a minor number of the firmware
  -- and a second and third number of the API that are 0, whatever the card stored.
  pub adminq_get_ver-Printed :
      (k j tail : ℕ) (s : Driver)
      → ((log : List Event) (x : ℕ)
          → last_write log (pf_atqt pf) ≡ some x
          → card.register log (pf_atqt pf) ≡ x)
      → last_write s.log (pf_atqt pf) ≡ some tail
      → tail < 128
      → EndsOrFails (λ r s'. PrintedOrWaiting tail r s'.log) (adminq_get_ver card k j pf adminq s)
  unfolding adminq_get_ver
  adminq_get_ver-Printed k j tail s reads_back last small =
      Ends.bind_or_fail _
        (Ends-EndsOrFails (loop_while-Waited k (queue_full card pf) queue_full-Waited s))
        elim [
          | false ↦ λ v w. done tt
          | true ↦ λ v w.
              let same_tail : u32 tail ≡ tail = mod-eq_of_lt (omega arith) in
              let kept : last_write v.log (pf_atqt pf) ≡ some tail =
                last_write-Quiet (pf_atqt pf) w.quiet ∙ last in
              rw
                (
                  reads_back (slept 1000000000 ∷ v.log) tail kept,
                  same_tail,
                  reads_back (command_log tail v.log) tail kept,
                  same_tail,
                )
                (Ends.bind_or_fail _
                  (loop_while-WaitedOrFails j (unanswered card pf adminq (u64 (adminq.tq + tail)))
                    (unanswered-Waited (u64 (adminq.tq + tail)))
                    (record v { log = sent_log tail v.log }))
                  elim [
                    | false ↦ λ u x. done tt
                    | true ↦ λ u x.
                        Ends-EndsOrFails
                          (Ends.bind _ (printed tail v.log u x.quiet small) (λ version z p. ends p))
                  ])
        ]
