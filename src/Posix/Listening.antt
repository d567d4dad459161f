-- ===== src/Posix/Listening.antt =====
-- What the servers rely on of the calls that make a listening socket and start threads, as POSIX
-- documents them.
use echo_server.Prelude.{ℕ, ◌≡◌, List, [], ◌∷◌, ◌++◌, Option, some, pos, int_eq, if◌then◌else◌}
use echo_server.Posix.{Os, Fd, SocketOption}

-- `bound` is the port that a descriptor is bound to, `listening` the port on which it takes
-- connections, and `threads` the connections for which a thread was started so far, in order. A
-- call that does not give 0 has no such effect.
pub record ServerLaws (os : Os) : Type 0 where
  pub bound : Fd → os.World → Option ℕ
  pub listening : Fd → os.World → Option ℕ
  pub threads : os.World → List Fd
  pub bind_binds :
      (fd : Fd) (port : ℕ) (w : os.World)
      → (os.bind fd port w).0 ≡ pos 0
      → bound fd (os.bind fd port w).1 ≡ some port
  pub listen_listens :
      (fd : Fd) (backlog : ℕ) (w : os.World)
      → (os.listen fd backlog w).0 ≡ pos 0
      → listening fd (os.listen fd backlog w).1 ≡ bound fd w
  pub accept_listens :
      (fd other : Fd) (w : os.World) → listening other (os.accept fd w).1 ≡ listening other w
  pub create_listens :
      (fd other : Fd) (w : os.World)
      → listening other (os.pthread_create fd w).1 ≡ listening other w
  pub create_starts :
      (fd : Fd) (w : os.World)
      → threads (os.pthread_create fd w).1
        ≡ threads w ++ (if int_eq (os.pthread_create fd w).0 (pos 0) then fd ∷ [] else [])
  pub socket_threads : (w : os.World) → threads (os.socket w).1 ≡ threads w
  pub setsockopt_threads :
      (fd : Fd) (option : SocketOption) (w : os.World)
      → threads (os.setsockopt fd option w).1 ≡ threads w
  pub bind_threads : (fd : Fd) (port : ℕ) (w : os.World) → threads (os.bind fd port w).1 ≡ threads w
  pub listen_threads :
      (fd : Fd) (backlog : ℕ) (w : os.World) → threads (os.listen fd backlog w).1 ≡ threads w
  pub accept_threads : (fd : Fd) (w : os.World) → threads (os.accept fd w).1 ≡ threads w
