-- ===== src/X710/Command.antt =====
-- x710.c: adminq_get_ver, the one command that it gives to the card, and one_recv.
use echo_server.Prelude.{
  ℕ, zero, suc, ◌+◌, ◌*◌, ◌/◌, ◌%◌, ◌^◌, Option, none, some, not, if◌then◌else◌,
}
use echo_server.Posix.{Cmd, pure, ◌>>=◌, ◌>>◌}
use echo_server.Dma.{u32, u64}
use echo_server.Device.{Card, Driver, bar0_write, bar0_read, load, store, nanosleep, loop_while}
use echo_server.X710.{
  AdminqDesc, zero_desc, words_of, flag_si, adminq_size, pf_atqt, Adminq, adminq_init, queue_full,
  unanswered,
}

-- "Get version"
abbrev pub get_version : AdminqDesc
get_version = record zero_desc { opcode = 1; flags = flag_si }

-- The numbers that are printed, in this order.
pub record Version : Type 0 where
  pub rom_build : ℕ
  pub fw_build : ℕ
  pub fw_major : ℕ
  pub fw_minor : ℕ
  pub api_first : ℕ
  pub api_second : ℕ
  pub api_third : ℕ

module _ (card : Card) where
  -- `(__u16) x >> 16` and the like: the cast comes first.
  unfoldable pub read_version : (tqe : ℕ) → Cmd Driver Version
  read_version tqe = do
    param0 ← load card (u64 (tqe + 16))
    param1 ← load card (u64 (tqe + 20))
    high ← load card (u64 (tqe + 24))
    high' ← load card (u64 (tqe + 24))
    low ← load card (u64 (tqe + 28))
    low' ← load card (u64 (tqe + 28))
    low'' ← load card (u64 (tqe + 28))
    pure (record {
      rom_build = param0;
      fw_build = param1;
      fw_major = high % 2 ^ 16;
      fw_minor = high' % 2 ^ 16 / 2 ^ 16;
      api_first = low % 2 ^ 16;
      api_second = low' % 2 ^ 8 / 2 ^ 16;
      api_third = low'' % 2 ^ 8 / 2 ^ 24;
    })

  -- At most `k` rounds of the wait for space, and `j` of the wait for the answer.
  unfoldable pub adminq_get_ver : (k j pf : ℕ) → Adminq → Cmd Driver (Option Version)
  adminq_get_ver k j pf adminq = do
    space ← loop_while k (queue_full card pf)
    if not space then pure none else do
      nanosleep 1000000000
      tail ← bar0_read card (pf_atqt pf)
      let tqe = u64 (adminq.tq + tail)
      store tqe (words_of get_version)
      tail ← bar0_read card (pf_atqt pf)
      bar0_write (pf_atqt pf) (u32 (tail + 1) % adminq_size)
      answered ← loop_while j (unanswered card pf adminq tqe)
      if not answered then pure none else do version ← read_version tqe; pure (some version)

  -- The registers that are printed for the queues `i` and above, `left` of them.
  abbrev read_qallocs : (left i : ℕ) → Cmd Driver (Unit {0})
  read_qallocs zero i = pure tt
  read_qallocs (suc n) i = do _ ← bar0_read card (1836032 + 4 * i); read_qallocs n (i + 1)

  abbrev read_bases : (left i : ℕ) → Cmd Driver (Unit {0})
  read_bases zero i = pure tt
  read_bases (suc n) i = do
    _ ← bar0_read card (811520 + 4 * i)
    _ ← bar0_read card (811776 + 4 * i)
    _ ← bar0_read card (812032 + 4 * i)
    _ ← bar0_read card (812288 + 4 * i)
    read_bases n (i + 1)

  -- What is printed of the version, or `none` where a wait has not ended.
  unfoldable pub one_recv : (l k j : ℕ) → Cmd Driver (Option Version)
  unfolding adminq_get_ver
  one_recv l k j = do
    made ← adminq_init card l 0
    elim made [
      | none ↦ pure none
      | some adminq ↦ do
        version ← adminq_get_ver k j 0 adminq
        elim version [
          | none ↦ pure none
          | some v ↦ do read_qallocs 16 0; read_bases 16 0; pure (some v)
        ]
    ]
