-- ===== src/Posix/Laws.antt =====
-- What the programs rely on of the socket calls, as POSIX documents it for a stream socket.
use echo_server.Prelude.{
  ℕ, ◌≤◌, ◌≡◌, refl, List, [], ◌++◌, pos, pos_part, append-nil, append_assoc, ap, ◌∙◌, sym, length,
  take,
}
use mathlib.Core.Path.{subst}
use echo_server.Posix.{Os, Fd}

-- `input` is what the peer sends and the program has not read yet, whether it has arrived or not;
-- `output` is what the program has sent so far. A negative result moves no byte.
pub record SocketLaws (os : Os) : Type 0 where
  pub input : Fd → os.World → List ℕ
  pub output : Fd → os.World → List ℕ
  pub recv_takes :
      (fd : Fd) (len : ℕ) (w : os.World)
      → input fd w ≡ (os.recv fd len w).1 ++ input fd (os.recv fd len w).2
  pub recv_count :
      (fd : Fd) (len : ℕ) (w : os.World)
      → length (os.recv fd len w).1 ≡ pos_part (os.recv fd len w).0
  pub recv_le : (fd : Fd) (len : ℕ) (w : os.World) → pos_part (os.recv fd len w).0 ≤ len
  pub recv_silent :
      (fd : Fd) (len : ℕ) (w : os.World) → output fd (os.recv fd len w).2 ≡ output fd w
  pub send_puts :
      (fd : Fd) (bytes : List ℕ) (w : os.World)
      → output fd (os.send fd bytes w).1
        ≡ output fd w ++ take (pos_part (os.send fd bytes w).0) bytes
  pub send_le :
      (fd : Fd) (bytes : List ℕ) (w : os.World) → pos_part (os.send fd bytes w).0 ≤ length bytes
  pub send_keeps :
      (fd : Fd) (bytes : List ℕ) (w : os.World) → input fd (os.send fd bytes w).1 ≡ input fd w

-- A connection in good order: a call with `MSG_WAITALL` waits until the peer has sent all that was
-- asked for, and a call of `send` takes all that it is given.
pub record Reliable {os : Os} (laws : SocketLaws os) (fd : Fd) : Type 0 where
  pub recv_full :
      (len : ℕ) (w : os.World) → len ≤ length (laws.input fd w) → (os.recv fd len w).0 ≡ pos len
  pub send_full : (bytes : List ℕ) (w : os.World) → (os.send fd bytes w).0 ≡ pos (length bytes)

module _ {os : Os} (laws : SocketLaws os) (fd : Fd) where
  open laws use {input, output}

  -- From `w` to `w'` the program has read `got` and sent `sent` on the connection.
  pub record Moved (w w' : os.World) (got sent : List ℕ) : Type 0 where
    pub reads : input fd w ≡ got ++ input fd w'
    pub writes : output fd w' ≡ output fd w ++ sent

  pub Moved-refl : (w : os.World) → Moved w w [] []
  Moved-refl w = record { reads = refl; writes = sym (append-nil _) }

  pub Moved-trans :
      (w v u : os.World) (g s h t : List ℕ)
      → Moved w v g s
      → Moved v u h t
      → Moved w u (g ++ h) (s ++ t)
  Moved-trans w v u g s h t a b = record {
    reads = a.reads ∙ ap (λ l. g ++ l) b.reads ∙ sym (append_assoc g h _);
    writes = b.writes ∙ ap (λ l. l ++ t) a.writes ∙ append_assoc _ s t;
  }

  pub recv-Moved : (len : ℕ) (w : os.World) → Moved w (os.recv fd len w).2 (os.recv fd len w).1 []
  recv-Moved len w = record {
    reads = laws.recv_takes fd len w;
    writes = laws.recv_silent fd len w ∙ sym (append-nil _);
  }

  pub send-Moved :
      (bytes : List ℕ) (w : os.World)
      → Moved w (os.send fd bytes w).1 [] (take (pos_part (os.send fd bytes w).0) bytes)
  send-Moved bytes w = record {
    reads = sym (laws.send_keeps fd bytes w);
    writes = laws.send_puts fd bytes w;
  }

  -- What is read first and then sent.
  pub Moved-reply :
      (w v u : os.World) (got sent : List ℕ)
      → Moved w v got []
      → Moved v u [] sent
      → Moved w u got sent
  Moved-reply w v u got sent a b =
      subst (λ g. Moved w u g sent) (append-nil got) (Moved-trans w v u got [] [] sent a b)

  -- What is sent first, and then an answer read.
  pub Moved-ask :
      (w v u : os.World) (got sent : List ℕ)
      → Moved w v [] sent
      → Moved v u got []
      → Moved w u got sent
  Moved-ask w v u got sent a b =
      subst (λ s. Moved w u got s) (append-nil sent) (Moved-trans w v u [] sent got [] a b)
