-- ===== src/X710/Tests.antt =====
-- x710.c on small cards.
use echo_server.Prelude.{ℕ, ap, ◌∷◌, ◌≡◌, refl, [], Option, some, none, arith}
use echo_server.Posix.{Run, ok}
use echo_server.Posix.Ends.{Ends, EndsOrFails}
use echo_server.Device.{Card, Driver, wrote, loop_while}
use echo_server.Device.Trace.{last_write}
use echo_server.X710.{Adminq, pf_atqt, queue_full, unanswered}
use echo_server.X710.Command.{Version, read_version, adminq_get_ver}
use echo_server.X710.Sent.{PrintedOrWaiting, adminq_get_ver-Printed}

-- Every register reads 2, so that the reset never seems to be going on.
abbrev still_resetting : Card
still_resetting = record { register = λ log offset. 2; word = λ log address. 0 }

abbrev fresh : Driver
fresh = record { dma = record { region = 65536; next_free = 65536 }; log = [] }

abbrev or_zero : Option ℕ → ℕ
or_zero none = 0
or_zero (some x) = x

-- A register reads what was last written to it, and every word in memory is a flag that is set.
abbrev answering : Card
answering = record {
  register = λ log offset. or_zero (last_write log offset);
  word = λ log address. 65537;
}

-- The tail is at 3.
abbrev after_three : Driver
after_three = record fresh { log = wrote (pf_atqt 0) 3 ∷ [] }

abbrev queues : Adminq
queues = record { tq = 65536; rq = 69632 }

adminq_get_ver-Printed_example :
    EndsOrFails
      (λ r s'. PrintedOrWaiting answering 0 queues 3 r s'.log)
      (adminq_get_ver answering 1 1 0 queues after_three)
adminq_get_ver-Printed_example =
    adminq_get_ver-Printed answering 0 queues 1 1 3 after_three (λ log x e. ap or_zero e) refl
      (omega arith)

version_of : Run Driver (Option Version) → Option Version
version_of (ok r s) = r
version_of _ = none

-- A low half of 1 and a high half of 1: the second is not printed.
get_ver_run :
    version_of (adminq_get_ver answering 1 1 0 queues after_three)
    ≡ some (record {
      rom_build = 65537;
      fw_build = 65537;
      fw_major = 1;
      fw_minor = 0;
      api_first = 1;
      api_second = 0;
      api_third = 0;
    })
unfolding version_of adminq_get_ver queue_full unanswered read_version loop_while
get_ver_run = refl
