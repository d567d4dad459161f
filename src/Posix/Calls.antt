-- ===== src/Posix/Calls.antt =====
-- Contracts of `recv` into a buffer and of `send` from one, under the laws of the sockets.
use echo_server.Prelude.{
  ℕ, ◌≤◌, ◌≡◌, refl, ap, ◌∙◌, List, [], ℤ, pos, pos_part, arith, length, take, drop, le→leb,
  length-append, length-drop, length-take, take-length_append,
}
use echo_server.Posix.{Os, Fd, fill, recv_into, send_from}
use echo_server.Posix.Laws.{SocketLaws, Reliable, Moved, recv-Moved, send-Moved}
use echo_server.Posix.Ends.{Ends, ends}

module _ {os : Os} (laws : SocketLaws os) (fd : Fd) where
  open os use {World}

  -- `recv` of `len` bytes into `buf`
  pub record Received (len : ℕ) (buf : List ℕ) (w : World) (r : ℤ × List ℕ) (w' : World)
      : Type 0 where
    pub bytes : List ℕ
    pub moved : Moved laws fd w w' bytes []
    pub stored : r.1 ≡ fill buf bytes
    pub counted : length bytes ≡ pos_part r.0
    pub short : length bytes ≤ len
    pub full : Reliable laws fd → len ≤ length (laws.input fd w) → r.0 ≡ pos len

  -- `send` of the first `len` bytes of `buf`
  pub record Sent (len : ℕ) (buf : List ℕ) (w : World) (n : ℤ) (w' : World) : Type 0 where
    pub moved : Moved laws fd w w' [] (take (pos_part n) (take len buf))
    pub short : pos_part n ≤ len
    pub full : Reliable laws fd → n ≡ pos len

  pub length-take_le : (len : ℕ) (buf : List ℕ) → len ≤ length buf → length (take len buf) ≡ len
  length-take_le len buf h = omega (arith, length-take {0} len buf)

  pub recv_into-Ends :
      (len : ℕ) (buf : List ℕ) (w : World)
      → len ≤ length buf
      → Ends (Received len buf w) (recv_into os fd buf len w)
  unfolding recv_into
  recv_into-Ends len buf w fits = rw (le→leb len (length buf) fits) (
      ends (record {
        bytes = (os.recv fd len w).1;
        moved = recv-Moved laws fd len w;
        stored = refl;
        counted = laws.recv_count fd len w;
        short = omega (arith, laws.recv_count fd len w, laws.recv_le fd len w);
        full = λ r h. r.recv_full len w h;
      }))

  pub send_from-Ends :
      (len : ℕ) (buf : List ℕ) (w : World)
      → len ≤ length buf
      → Ends (Sent len buf w) (send_from os fd buf len w)
  unfolding send_from
  send_from-Ends len buf w fits = rw (le→leb len (length buf) fits) (
      ends (record {
        moved = send-Moved laws fd (take len buf) w;
        short = omega (arith, laws.send_le fd (take len buf) w, length-take_le len buf fits);
        full = λ r. r.send_full (take len buf) w ∙ ap pos (length-take_le len buf fits);
      }))

pub length-fill :
    (buf bytes : List ℕ) → length bytes ≤ length buf → length (fill buf bytes) ≡ length buf
length-fill buf bytes h =
    omega
      (arith, length-append {0} bytes (drop (length bytes) buf), length-drop {0} (length bytes) buf)

-- What is in front of a filled buffer is what was received.
pub take-fill : (n : ℕ) (buf bytes : List ℕ) → n ≡ length bytes → take n (fill buf bytes) ≡ bytes
take-fill n buf bytes h = take-length_append n bytes (drop (length bytes) buf) h
