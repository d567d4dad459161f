-- ===== src/Client/Handshake.antt =====
-- The handshake of client.c with a server of this repository.

use echo_server.Simple.Greet.{header}
use echo_server.Prelude.{
  ℕ, ◌^◌, ◌≤◌, ◌<◌, ◌≡◌, ap, ◌∙◌, sym, List, [], ◌∷◌, ◌++◌, pos, pos_part, arith, length, take,
  drop, take-length_append, drop-length_append, append-nil, to_int32,
}
use echo_server.Posix.{Os, Fd, fill, load32, bytes32, htonl}
use echo_server.Posix.Laws.{SocketLaws, Reliable, Moved, send-Moved}
use echo_server.Posix.Calls.{recv_into-Ends}
use echo_server.Posix.Ends
use echo_server.Posix.Ends.{Ends, ends, EndsOrFails, done, stops, bind_or_fail, Ends-EndsOrFails}
use echo_server.Client.{handshake}

htonl_involutive : (m : ℕ) → m < 2 ^ 32 → htonl (load32 (bytes32 (htonl m))) ≡ m
unfolding htonl
htonl_involutive m h = omega arith

small_int : (m : ℕ) → m < 2 ^ 31 → to_int32 m ≡ pos m
small_int m h = ground arith

-- "Hi"
abbrev pub greeting : List ℕ
greeting = 72 ∷ 105 ∷ []

module _ {os : Os} (laws : SocketLaws os) (fd : Fd) (stack : List ℕ) (fits : 4 ≤ length stack) where
  open os use {World}

  -- On a connection in good order on which the header of a server for messages of m bytes (m
  -- below 2^31) is what comes first, the handshake of the client sends "Hi", takes exactly the
  -- header and returns m.
  pub handshake-header :
      (m : ℕ) (rest : List ℕ) (w : World)
      → m < 2 ^ 31
      → Reliable laws fd
      → laws.input fd w ≡ header m ++ rest
      → Ends
          (λ n w'.
            (n ≡ pos m)
            × (laws.input fd w' ≡ rest)
            × (laws.output fd w' ≡ laws.output fd w ++ greeting))
          (handshake os fd stack w)
  unfolding handshake
  handshake-header m rest w small good announced =
      Ends.bind _ (recv_into-Ends laws fd 4 stack v fits) λ r u got.
        let first : r.0 ≡ pos 4 =
          got.full good (omega (arith, ap length (sym asked.reads ∙ announced))) in
        let stream : header m ++ rest ≡ got.bytes ++ laws.input fd u =
          sym announced ∙ asked.reads ∙ got.moved.reads in
        let count : 4 ≡ length got.bytes = omega (arith, ap pos_part first, got.counted) in
        let read : got.bytes ≡ header m =
          sym (ap (take 4) stream ∙ take-length_append 4 got.bytes _ count) in
        rw first (
          ends (
            ap (λ l. to_int32 (htonl (load32 l))) (got.stored ∙ ap (fill stack) read)
                ∙ ap to_int32 (htonl_involutive m (omega arith))
                ∙ small_int m small,
            sym (ap (drop 4) stream ∙ drop-length_append 4 got.bytes _ count),
            got.moved.writes
                ∙ append-nil _
                ∙ asked.writes
                ∙ ap (λ n. laws.output fd w ++ take (pos_part n) greeting)
                    (good.send_full greeting w),
          ))
    where
      v : World
      v = (os.send fd greeting w).1

      asked : Moved laws fd w v [] (take (pos_part (os.send fd greeting w).0) greeting)
      asked = send-Moved laws fd greeting w
