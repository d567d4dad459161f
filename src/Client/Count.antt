-- ===== src/Client/Count.antt =====
-- What a thread of client.c counts.
use echo_server.Prelude.{
  ℕ, zero, suc, ◌+◌, ◌*◌, ◌^◌, ◌≤◌, ◌<◌, ◌≡◌, refl, ap, ◌∙◌, inl, inr, false, Bool-cases, List, [],
  ◌++◌, Option, some, pos, is_neg, length, length-append, arith,
}
use native.Mathlib.Nat.{mod-eq_of_lt}
use echo_server.Posix.{Fd}
use echo_server.Posix.Laws.{SocketLaws, Moved, Moved-trans}
use echo_server.Posix.Ends.{EndsOrFails, done, bind_or_fail, weaken_or_fail}
use echo_server.Client.{buf_size, Local}
use echo_server.Client.Message.{Exchanged, one_operation-Exchanged}
use echo_server.Client.Thread.{ClientOs, Semaphore, should_report, measure}

module _ (sys : ClientOs) (sockets : SocketLaws sys.os) (fd : Fd)
    (quiet : (s : Semaphore) (w : sys.os.World)
      → Moved sockets fd w (sys.sem_trywait s w).1 [] []) where
  open sys use {os, sem_trywait}
  open os use {World}
  open sockets use {output}

  -- The loop from a count of `n` on has ended with the count in `last`, after at most `k` more
  -- operations, and each operation that is counted has sent and received a message.
  pub record Counted (k n m : ℕ) (w : World) (r : Option (Local × ℕ)) (w' : World) : Type 0 where
    pub last : Local × ℕ
    pub ended : r ≡ some last
    pub got : List ℕ
    pub sent : List ℕ
    pub moved : Moved sockets fd w w' got sent
    pub sends : length sent + n * m ≡ last.1 * m
    pub gets : length got + n * m ≡ last.1 * m
    pub at_least : n ≤ last.1
    pub at_most : last.1 ≤ n + k

  -- The signal is there at the first look.
  Counted-now :
      (k n m : ℕ) (t : Local) (w : World)
      → Counted k n m w (some (t, n)) (sem_trywait should_report w).1
  Counted-now k n m t w = record {
    last = (t, n);
    ended = refl;
    got = [];
    sent = [];
    moved = quiet should_report w;
    sends = omega arith;
    gets = omega arith;
    at_least = omega arith;
    at_most = omega arith;
  }

  -- One operation, and then the rest of the rounds.
  Counted-more :
      (k n m : ℕ) (t : Local) (w : World) (t' : Local) (v : World)
      → Exchanged sockets fd m t (sem_trywait should_report w).1 t' v
      → (r : Option (Local × ℕ)) (u : World) → Counted k (n + 1) m v r u
      → Counted (suc k) n m w r u
  Counted-more k n m t w t' v x r u c =
      let tried = (sem_trywait should_report w).1 in
      record {
        last = c.last;
        ended = c.ended;
        got = x.got ++ c.got;
        sent = x.sent ++ c.sent;
        moved =
            Moved-trans sockets fd w tried u [] [] (x.got ++ c.got) (x.sent ++ c.sent)
              (quiet should_report w)
              (Moved-trans sockets fd tried v u x.got x.sent c.got c.sent x.moved c.moved);
        sends = omega (arith, c.sends, x.sends, length-append {0} x.sent c.sent);
        gets = omega (arith, c.gets, x.gets, length-append {0} x.got c.got);
        at_least = omega (arith, c.at_least);
        at_most = omega (arith, c.at_most);
      }

  -- An operation after a look for the signal sends m bytes.
  output-Exchanged :
      (m : ℕ) (t : Local) (w : World) (t' : Local) (v : World)
      → Exchanged sockets fd m t (sem_trywait should_report w).1 t' v
      → length (output fd v) ≡ length (output fd w) + m
  output-Exchanged m t w t' v x = omega (
    arith,
    ap length x.moved.writes,
    ap length (quiet should_report w).writes,
    length-append {0} (output fd (sem_trywait should_report w).1) x.sent,
    length-append {0} (output fd w) [],
    x.sends,
  )

  -- Where asking for the signal moves no byte, the signal is there once b bytes have been sent
  -- on the connection, k operations of m bytes reach these b bytes, m is at most 128, the
  -- buffer has 1024 bytes and the count stays below 2^64, the measuring loop of a thread from a
  -- count of n on exits with status -1, or ends within k + 1 rounds with a count between n and
  -- n + k, and has sent and received exactly m bytes for each operation that it counted beyond
  -- n.
  pub measure-Counted :
      (k n m bytes : ℕ) (t : Local) (w : World)
      → m ≤ 128
      → length t.buf ≡ buf_size
      → n + k < 2 ^ 64
      → ((v : World)
          → bytes ≤ length (output fd v)
          → is_neg (sem_trywait should_report v).0 ≡ false)
      → bytes ≤ length (output fd w) + k * m
      → EndsOrFails (Counted k n m w) (measure sys (suc k) fd (pos m) t n w)
  unfolding measure
  measure-Counted zero n m bytes t w small size room signal enough =
      rw (signal w (omega arith)) (done (Counted-now zero n m t w))
  measure-Counted (suc k) n m bytes t w small size room signal enough =
      elim (Bool-cases (is_neg (sem_trywait should_report w).0)) [
        | inr there ↦ rw there (done (Counted-now (suc k) n m t w))
        | inl none_yet ↦ rw none_yet (
            bind_or_fail _ (one_operation-Exchanged sockets fd m t _ small size) λ t' v x.
              rw (mod-eq_of_lt {n = n + 1} {m = 2 ^ 64} (omega arith)) (
                weaken_or_fail
                  (measure-Counted k (n + 1) m bytes t' v small (x.keeps ∙ size) (omega arith)
                    signal (omega (arith, output-Exchanged m t w t' v x)))
                  λ r u c. Counted-more k n m t w t' v x r u c))
      ]
