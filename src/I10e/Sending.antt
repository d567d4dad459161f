-- ===== src/I10e/Sending.antt =====
-- i10e.c, the wait of send_one for the packet, on a card that reports it in the end.
use echo_server.Prelude.{
  ℕ, zero, suc, ◌+◌, ◌%◌, ◌≤◌, ◌<◌, ◌≡◌, refl, List, ◌∷◌, true, false, Bool-cases, inl, inr, ◌==◌,
  arith,
}
use echo_server.Posix.Ends
use echo_server.Posix.Ends.{Ends, ends}
use echo_server.Dma.{u32, u64}
use echo_server.Device.{Event, looked, asked, slept, Card, Driver, loop_while}
use echo_server.Device.Trace.{
  Quiet, same, then_asked, then_looked, then_slept, Waited, Waited-trans, Quiet-trans, looks,
  looks-Quiet,
}
use echo_server.I10e.Init.{rdh, rdt, tdh, tdt}
use echo_server.I10e.Send.{sending}

-- The rest of a round of the wait for the packet.
abbrev round_log : (tqe : ℕ) → List Event → List Event
round_log tqe log =
    slept 1000000000
    ∷ looked (u64 (tqe + 12))
    ∷ looked (u64 (tqe + 8))
    ∷ looked (u64 (tqe + 4))
    ∷ looked tqe
    ∷ asked rdt
    ∷ asked rdh
    ∷ asked tdt
    ∷ asked tdh
    ∷ log

pub true-false : true ≡ false → ⊥
true-false e = cc

module _ (card : Card) (tqe : ℕ) where
  -- The word with the status of the descriptor.
  abbrev pub sta : ℕ
  sta = u64 (tqe + 12)

  sending-Waited :
      (s : Driver)
      → Ends (λ b s'. Waited s s' × (looks sta s.log < looks sta s'.log)) (sending card tqe s)
  unfolding sending
  sending-Waited s =
      let itself : (sta == sta) ≡ true = ground arith in
      let more : looks sta s.log < looks sta (looked sta ∷ s.log) = rw itself (omega arith) in
      elim (Bool-cases (u32 (card.word s.log sta) % 2 == 1)) [
        | inl sent ↦ rw sent (ends (record { same_dma = refl; quiet = then_looked same }, more))
        | inr not_yet ↦
            let rest : Quiet (looked sta ∷ s.log) (round_log tqe (looked sta ∷ s.log)) =
              then_slept (
                then_looked (
                  then_looked (
                    then_looked
                      (then_looked (then_asked (then_asked (then_asked (then_asked same)))))))) in
            rw not_yet (
              ends (
                record { same_dma = refl; quiet = Quiet-trans (then_looked same) rest },
                omega (arith, more, looks-Quiet sta rest),
              ))
      ]

  sending-over :
      (s : Driver)
      → u32 (card.word s.log sta) % 2 ≡ 1
      → Ends (λ b s'. (b ≡ false) × Waited s s') (sending card tqe s)
  unfolding sending
  sending-over s sent = rw sent (ends (refl, record { same_dma = refl; quiet = then_looked same }))

  -- Where the status says after `n` looks that the packet was sent, the wait is over in time.
  pub sending-loop :
      (n k : ℕ) (s : Driver)
      → ((log : List Event) → n ≤ looks sta log → u32 (card.word log sta) % 2 ≡ 1)
      → n ≤ looks sta s.log + k
      → Ends (λ b s'. (b ≡ true) × Waited s s') (loop_while (suc k) (sending card tqe) s)
  unfolding loop_while
  sending-loop n zero s reports enough =
      Ends.bind _ (sending-over s (reports s.log (omega arith)))
        elim [ true ↦ λ v w. absurd (true-false w.0) | false ↦ λ v w. ends (refl, w.1) ]
  sending-loop n (suc k) s reports enough = Ends.bind _ (sending-Waited s) elim [
    | true ↦ λ v w.
        Ends.weaken (sending-loop n k v reports (omega (arith, w.1)))
          λ b u x. (x.0, Waited-trans w.0 x.1)
    | false ↦ λ v w. ends (refl, w.0)
  ]
