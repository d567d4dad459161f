-- ===== src/Posix.antt =====
-- What the programs call of the operating system. The kernel and the C library are not part of the
-- repository, so they are a parameter `Os` of the model; a command reads and changes its `World`.
pub mod Laws
pub mod Listening
pub mod Loopback
pub mod Calls
pub mod Ends
use echo_server.Prelude.{
  ℕ, zero, suc, ◌*◌, ◌/◌, ◌%◌, ◌^◌, ◌+◌, Bool, true, false, List, [], ◌∷◌, ◌++◌, ℤ, pos, negsuc,
  length, take, drop, leb, if◌then◌else◌,
}

-- How a piece of code ends: normally, by `exit` or `err` (the process is gone), or in undefined
-- behaviour, such as an access beyond the end of a buffer.
pub data Run (W A : Type 0) : Type 0 where
  ok : A → W → Run W A
  exit : (status : ℤ) → W → Run W A
  fault : Run W A

abbrev pub failed : ℤ
failed = negsuc 0

abbrev pub Fd : Type 0
Fd = ℤ

-- Options of `setsockopt` that the servers set.
pub data SocketOption : Type 0 where
  reuse_addr reuse_port : SocketOption

-- The system calls, with the result that C sees (`-1` on an error) and the world afterwards.
-- `recv` also gives the bytes that it stored in the caller's buffer.
pub record Os : Type 1 where
  pub World : Type 0
  pub socket : World → ℤ × World
  pub setsockopt : Fd → SocketOption → World → ℤ × World
  pub bind : Fd → (port : ℕ) → World → ℤ × World
  pub listen : Fd → (backlog : ℕ) → World → ℤ × World
  pub accept : Fd → World → ℤ × World
  pub send : Fd → List ℕ → World → ℤ × World
  pub recv : Fd → (len : ℕ) → World → ℤ × List ℕ × World
  -- starts a thread that runs the server's handler on a connection
  pub pthread_create : (conn_fd : Fd) → World → ℤ × World

abbrev pub Cmd : Type 0 → Type 0 → Type 0
Cmd W A = W → Run W A

module _ {W : Type 0} where
  abbrev pub pure : {A : Type 0} → A → Cmd W A
  pure = ok

  abbrev pub quit : {A : Type 0} → ℤ → Cmd W A
  quit = exit

  abbrev pub and_then : {A B : Type 0} → Run W A → (A → Cmd W B) → Run W B
  and_then (ok a w) k = k a w
  and_then (exit s w) k = exit s w
  and_then fault k = fault

  infixl 5 ◌>>=◌ ◌>>◌
  abbrev pub ◌>>=◌ : {A B : Type 0} → Cmd W A → (A → Cmd W B) → Cmd W B
  m >>= k = λ w. and_then (m w) k

  abbrev pub ◌>>◌ : {B : Type 0} → Cmd W (Unit {0}) → Cmd W B → Cmd W B
  m >> k = m >>= λ _. k

  -- A call that gives one number.
  abbrev pub call : (W → ℤ × W) → Cmd W ℤ
  call f w = ok (f w).0 (f w).1

-- What `recv` leaves in a buffer: the bytes in front, the rest as it was.
abbrev pub fill : List ℕ → List ℕ → List ℕ
fill buf bytes = bytes ++ drop (length bytes) buf

module _ (os : Os) where
  open os use {World, send, recv}

  -- `n = recv(fd, buf, len, MSG_WAITALL)`: the result and the buffer. To ask for more bytes than the
  -- buffer holds is undefined.
  unfoldable pub recv_into : Fd → List ℕ → (len : ℕ) → Cmd World (ℤ × List ℕ)
  recv_into fd buf len w =
      if leb len (length buf)
      then ok ((recv fd len w).0, fill buf (recv fd len w).1) (recv fd len w).2
      else fault

  -- `n = send(fd, buf, len, 0)`: reads the first `len` bytes of the buffer.
  unfoldable pub send_from : Fd → List ℕ → (len : ℕ) → Cmd World ℤ
  send_from fd buf len w = if leb len (length buf) then call (send fd (take len buf)) w else fault

-- A 32-bit word in memory, lowest byte first, as on the x86 machines of the repository.
abbrev pub bytes32 : ℕ → List ℕ
bytes32 x = (x % 256) ∷ (x / 256 % 256) ∷ (x / 65536 % 256) ∷ (x / 16777216 % 256) ∷ []

abbrev pub load32 : List ℕ → ℕ
load32 (a ∷ b ∷ c ∷ d ∷ _) = a + 256 * b + 65536 * c + 16777216 * d
load32 _ = 0

-- `htonl` and `ntohl` of C's library on such a machine: the bytes of a word in reverse.
unfoldable pub htonl : ℕ → ℕ
htonl x = x % 256 * 16777216 + x / 256 % 256 * 65536 + x / 65536 % 256 * 256 + x / 16777216 % 256
