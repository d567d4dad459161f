-- ===== src/Paired/Round.antt =====
-- One round of uring2.c: a reply and a read side by side.

use echo_server.Prelude.{
  ℕ, ◌≤◌, ◌≡◌, refl, sym, ap, ◌∙◌, false, ◌||◌, Bool-cases, inl, inr, List, [], ◌++◌, pos_part,
  below, below-le, le→leb, length, take, drop, length-append, length-take, length-drop, take_all,
  take-length_append, IsPrefix, IsPrefix-take, arith,
}
use echo_server.Posix.{Os, Fd, fill}
use echo_server.Posix.Laws.{SocketLaws, Moved, Moved-ask, Moved-reply, send-Moved, recv-Moved}
use echo_server.Posix.Calls.{length-fill, take-fill}
use echo_server.Posix.Ends.{Ends, ends}
use echo_server.Ringed.Operations.{Completion}
use echo_server.Paired.{
  Progress, looping, returned, stored, any_short, enqueue, complete_both, pair_round,
}
use echo_server.Paired.Rings.{
  PairRings, PairLaws, Both, InAnyOrder, first, second, CarriedOut, reply_first, read_first,
}

abbrev pub buf_size : ℕ
buf_size = 1024

any_short-both :
    (m : ℕ) {a b : Completion} {cs : List Completion}
    → InAnyOrder a b cs
    → any_short m cs ≡ (below a.res m || below b.res m)
any_short-both m {a} {b} first = ground arith
any_short-both m {a} {b} second = ground arith

stored-both :
    (buf : List ℕ) {a b : Completion} {cs : List Completion}
    → InAnyOrder a b cs
    → a.bytes ≡ []
    → stored buf cs ≡ fill buf b.bytes
stored-both buf {a} {b} first silent = rw silent refl
stored-both buf {a} {b} second silent = rw silent refl

module _ {os : Os} (laws : SocketLaws os) (fd : Fd) where
  open os use {World}

  -- What the two operations have moved.
  record Transfer (bytes : List ℕ) (len : ℕ) (w : World) (reply read : Completion) (w' : World)
      : Type 0 where
    moved : Moved laws fd w w' read.bytes (take (pos_part reply.res) bytes)
    silent : reply.bytes ≡ []
    counted : length read.bytes ≡ pos_part read.res
    short : pos_part read.res ≤ len

  transfer :
      (bytes : List ℕ) (len : ℕ) (w : World) {reply read : Completion} {w' : World}
      → CarriedOut os fd bytes len w reply read w'
      → Transfer bytes len w reply read w'
  transfer bytes len w reply_first =
      let v = (os.send fd bytes w).1 in
      record {
        moved = Moved-ask laws fd w v _ _ _ (send-Moved laws fd bytes w) (recv-Moved laws fd len v);
        silent = refl;
        counted = laws.recv_count fd len v;
        short = laws.recv_le fd len v;
      }
  transfer bytes len w read_first =
      let v = (os.recv fd len w).2 in
      record {
        moved =
            Moved-reply laws fd w v _ _ _ (recv-Moved laws fd len w) (send-Moved laws fd bytes v);
        silent = refl;
        counted = laws.recv_count fd len w;
        short = laws.recv_le fd len w;
      }

  -- After a round that goes on, the reply is out whole and the next message is in front of the
  -- array to send; otherwise a beginning of the reply is out.
  abbrev pub RoundSo : (m : ℕ) (send_buf : List ℕ) → Progress → (got sent : List ℕ) → Type 0
  RoundSo m send_buf (looping send_buf' recv_buf') got sent =
      (sent ≡ take m send_buf)
      × (take m send_buf' ≡ got)
      × (length got ≡ m)
      × (length send_buf' ≡ buf_size)
      × (length recv_buf' ≡ buf_size)
  RoundSo m send_buf returned got sent = IsPrefix sent (take m send_buf)

  pub record Round (m : ℕ) (send_buf : List ℕ) (w : World) (p : Progress) (w' : World)
      : Type 0 where
    pub got : List ℕ
    pub sent : List ℕ
    pub moved : Moved laws fd w w' got sent
    pub so : RoundSo m send_buf p got sent

  module _ (m : ℕ) (sb rb : List ℕ) (w : World) (small : m ≤ buf_size)
      (s_size : length sb ≡ buf_size) (r_size : length rb ≡ buf_size) where
    went_on :
        {reply read : Completion} {w' : World}
        → Transfer (take m sb) m w reply read w'
        → (below reply.res m || below read.res m) ≡ false
        → Round m sb w (looping (take m (fill rb read.bytes) ++ drop m sb) (fill rb read.bytes)) w'
    went_on {reply} {read} t whole =
        let out : m ≤ pos_part reply.res = below-le reply.res m (ground arith) in
        let inn : m ≤ pos_part read.res = below-le read.res m (ground arith) in
        let count : m ≡ length read.bytes = omega (arith, t.counted, t.short) in
        let taken : take m (fill rb read.bytes) ≡ read.bytes = take-fill m rb read.bytes count in
        record {
          got = read.bytes;
          sent = take (pos_part reply.res) (take m sb);
          moved = t.moved;
          so = (
            take_all (pos_part reply.res) (take m sb) (omega (arith, length-take {0} m sb)),
            take-length_append m (take m (fill rb read.bytes)) (drop m sb)
                  (omega (arith, ap length taken))
                ∙ taken,
            sym count,
            omega (
              arith,
              ap length taken,
              length-append {0} (take m (fill rb read.bytes)) (drop m sb),
              length-drop {0} m sb,
            ),
            length-fill rb read.bytes (omega arith) ∙ r_size,
          );
        }

    stopped :
        {reply read : Completion} {w' : World}
        → Transfer (take m sb) m w reply read w'
        → Round m sb w returned w'
    stopped {reply} {read} t = record {
      got = read.bytes;
      sent = take (pos_part reply.res) (take m sb);
      moved = t.moved;
      so = IsPrefix-take (pos_part reply.res) (take m sb);
    }

module _ {rings : PairRings} (plaws : PairLaws rings) (laws : SocketLaws rings.os) (fd : Fd) where
  open rings use {os, Ring}
  open os use {World}

  -- The ring of a loop that goes on is idle.
  abbrev pub IdleAfter : Progress → Ring → Type 0
  IdleAfter (looping _ _) r = plaws.Idle r
  IdleAfter returned r = Unit

  module _ (m : ℕ) (sb rb : List ℕ) (w : World) (small : m ≤ buf_size)
      (s_size : length sb ≡ buf_size) (r_size : length rb ≡ buf_size) where
    abbrev Rounded : Progress × Ring → World → Type 0
    Rounded p w' = Round laws fd m sb w p.0 w' × IdleAfter p.0 p.1

    completed :
        (r : Ring) (b : Both rings plaws.Idle fd (take m sb) m r w)
        → Ends Rounded (complete_both rings sb rb m b.with_both w)
    unfolding complete_both
    completed r b =
        let t = transfer laws fd (take m sb) m w b.carried_out in
        rw (b.waited, any_short-both m b.listed, stored-both rb b.listed t.silent)
          (elim (Bool-cases (below b.reply.res m || below b.read.res m)) [
            | inl short ↦ rw short (ends (stopped laws fd m sb rb w small s_size r_size t, tt))
            | inr whole ↦
                rw whole (ends (went_on laws fd m sb rb w small s_size r_size t whole, b.idle))
          ])

    pub pair_round-Ends : (r : Ring) → plaws.Idle r → Ends Rounded (pair_round rings fd sb rb m r w)
    unfolding pair_round enqueue
    pair_round-Ends r idle =
        let b = plaws.both fd (take m sb) m r w idle in
        rw
          (
            le→leb m (length sb) (omega arith),
            le→leb m (length rb) (omega arith),
            b.first_place,
            enqueue,
            b.second_place,
          )
          (completed r b)
