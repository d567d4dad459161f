-- ===== src/Client.antt =====
-- client.c: a load generator. Each of its threads sends messages of the size that the server
-- announces and waits for each to come back; at the end the counts of the threads are combined.
pub mod Rng
pub mod Message
pub mod Handshake
pub mod Report
pub mod Thread
pub mod Count
pub mod Session
pub mod MainThread
mod Tests
use echo_server.Prelude.{
  ℕ, zero, suc, ◌+◌, ◌-◌, ◌*◌, ◌/◌, ◌%◌, ◌^◌, List, [], ◌∷◌, ◌++◌, Bool, true, false, ℤ, pos,
  negsuc, pos_part, to_size, to_int32, int_lt, int_eq, not, ltb, leb, ◌==◌, take, drop, length,
  if◌then◌else◌,
}
use echo_server.Posix.{
  Os, Fd, Run, ok, exit, fault, Cmd, pure, quit, failed, ◌>>=◌, ◌>>◌, call, recv_into, send_from,
  load32, htonl,
}

-- `BUF_SIZE`, in bytes
abbrev pub buf_size : ℕ
buf_size = 1024

-- The thread-local variables of `one_operation`. `buf` is an array of 128 words of 64 bits, here
-- by its bytes.
pub record Local : Type 0 where
  pub buf : List ℕ
  pub rng_state : ℕ

-- `rng_state*37 + 1`, on 64 bits
unfoldable pub next_rng : ℕ → ℕ
next_rng x = (x * 37 + 1) % 2 ^ 64

-- A 64-bit word in memory, lowest byte first.
abbrev pub bytes64 : ℕ → List ℕ
bytes64 x =
    x % 256
    ∷ x / 2 ^ 8 % 256
    ∷ x / 2 ^ 16 % 256
    ∷ x / 2 ^ 24 % 256
    ∷ x / 2 ^ 32 % 256
    ∷ x / 2 ^ 40 % 256
    ∷ x / 2 ^ 48 % 256
    ∷ x / 2 ^ 56 % 256
    ∷ []

-- `buf[i] = word`, for a word index `i` in the array.
unfoldable pub store_word : List ℕ → ℕ → ℕ → List ℕ
store_word buf i word = take (8 * i) buf ++ (bytes64 word ++ drop (8 * i + 8) buf)

-- The loop of `one_operation` from `i` on, with the rounds that are left. A write behind the end of
-- the array is undefined.
unfoldable pub fill_words : (rounds i : ℕ) → {W : Type 0} → Local → Cmd W Local
fill_words zero i t = pure t
fill_words (suc rounds) i t =
    if leb (8 * i + 8) (length t.buf)
    then fill_words rounds (i + 8) (record {
      buf = store_word t.buf i (next_rng t.rng_state);
      rng_state = next_rng t.rng_state;
    })
    else λ w. fault

-- `for (int i = 0; i < msg_size; i+=8)`: how often.
abbrev pub rounds_of : ℤ → ℕ
rounds_of msg_size = (pos_part msg_size + 7) / 8

module _ (os : Os) where
  open os use {World}

  unfoldable pub one_operation : Fd → (msg_size : ℤ) → Local → Cmd World Local
  one_operation conn_fd msg_size t = do
    t ← fill_words (rounds_of msg_size) 0 t
    n ← send_from os conn_fd t.buf (to_size msg_size)
    if int_lt n msg_size then quit failed else do
      (n, buf) ← recv_into os conn_fd t.buf (to_size msg_size)
      if int_lt n msg_size then quit failed else pure (record t { buf = buf })

  -- The start of `client` on a connection: say "Hi" and read the message size.
  unfoldable pub handshake : Fd → (stack : List ℕ) → Cmd World ℤ
  handshake conn_fd stack = do
    _ ← call (os.send conn_fd (72 ∷ 105 ∷ []))
    (n, bytes) ← recv_into os conn_fd stack 4
    if not (int_eq n (pos 4)) then quit failed else pure (to_int32 (htonl (load32 bytes)))

-- `struct client_thread_args`
pub record ThreadArgs : Type 0 where
  pub num_ops : ℕ
  pub runtime : ℕ

-- The totals that `bench` prints.
pub record Totals : Type 0 where
  pub num_ops : ℕ
  pub throughput : ℕ

-- `((num_ops*1000000000) + (runtime/2)) / runtime`, on 64 bits
unfoldable pub rate : ThreadArgs → ℕ
rate a = (a.num_ops * 1000000000 % 2 ^ 64 + a.runtime / 2) % 2 ^ 64 / a.runtime

-- "now aggregate the measurements": a runtime of zero is a division by zero.
unfoldable pub aggregate : List ThreadArgs → Totals → {W : Type 0} → Cmd W Totals
aggregate [] t = pure t
aggregate (a ∷ rest) t =
    if a.runtime == 0
    then (λ w. fault)
    else aggregate rest (record {
      num_ops = (t.num_ops + a.num_ops) % 2 ^ 64;
      throughput = (t.throughput + rate a) % 2 ^ 64;
    })
