-- ===== src/Client/Thread.antt =====
-- A thread of client.c, from its connection to its report.
use echo_server.Prelude.{
  ℕ, zero, suc, ◌+◌, ◌-◌, ◌*◌, ◌%◌, ◌^◌, List, [], ◌∷◌, Option, none, some, ℤ, pos, negsuc, is_neg,
  int_eq, not, if◌then◌else◌,
}
use echo_server.Posix.{Os, Fd, ok, exit, Cmd, pure, quit, failed, call, ◌>>=◌, ◌>>◌}
use echo_server.Client.{Local, ThreadArgs, one_operation, handshake}

pub data Semaphore : Type 0 where
  started should_measure should_report reported : Semaphore

-- `struct timespec`
pub record Time : Type 0 where
  pub tv_sec : ℕ
  pub tv_nsec : ℕ

-- What a thread calls besides the sockets. Addresses are what `getaddrinfo` lists; `none` is an error.
pub record ClientOs : Type 1 where
  pub os : Os
  pub getaddrinfo : os.World → Option (List ℕ) × os.World
  pub connect : Fd → (address : ℕ) → os.World → ℤ × os.World
  pub sem_post : Semaphore → os.World → os.World
  pub sem_trywait : Semaphore → os.World → ℤ × os.World
  pub clock_gettime : os.World → Option Time × os.World

-- `(end.tv_sec - start.tv_sec)*1000000000 + end.tv_nsec - start.tv_nsec`, stored in 64 bits
unfoldable pub elapsed : (start end : Time) → ℕ
elapsed start end =
    (end.tv_sec * 1000000000 + end.tv_nsec + 2 ^ 64 - (start.tv_sec * 1000000000 + start.tv_nsec))
    % 2 ^ 64

-- `for (int i = 0; i < N; i++)` around one call
abbrev pub for_each_thread : {W : Type 0} → ℕ → (W → W) → Cmd W (Unit {0})
for_each_thread zero f = pure tt
for_each_thread (suc n) f = λ w. for_each_thread n f (f w)

module _ (sys : ClientOs) where
  open sys use {os, getaddrinfo, connect, sem_post, sem_trywait, clock_gettime}
  open os use {World}

  -- A call that gives nothing on an error, after which the program exits.
  abbrev pub or_exit : {A : Type 0} → (World → Option A × World) → Cmd World A
  or_exit f w = elim (f w).0 [ none ↦ exit failed (f w).1 | some a ↦ ok a (f w).1 ]

  abbrev pub post : Semaphore → Cmd World (Unit {0})
  post s w = ok tt (sem_post s w)

  -- The loop over the addresses: a socket and a connection for each, of which the last is kept.
  unfoldable pub connect_all : List ℕ → (conn_fd : Fd) → Cmd World Fd
  connect_all [] conn_fd = pure conn_fd
  connect_all (address ∷ rest) _ = do
    conn_fd ← call os.socket
    if is_neg conn_fd then quit failed else do
      e ← call (connect conn_fd address)
      if not (int_eq e (pos 0)) then quit failed else connect_all rest conn_fd

  -- At most `k` rounds of the warm-up; `none` if the signal has not come by then.
  unfoldable pub warm_up : ℕ → Fd → (msg_size : ℤ) → Local → Cmd World (Option Local)
  warm_up zero conn_fd msg_size t = pure none
  warm_up (suc k) conn_fd msg_size t = do
    e ← call (sem_trywait should_measure)
    if not (is_neg e)
        then pure (some t)
        else do t ← one_operation os conn_fd msg_size t; warm_up k conn_fd msg_size t

  -- At most `k` rounds of the measurement, with the count so far.
  unfoldable pub measure :
      ℕ → Fd → (msg_size : ℤ) → Local → (num_ops : ℕ) → Cmd World (Option (Local × ℕ))
  measure zero conn_fd msg_size t num_ops = pure none
  measure (suc k) conn_fd msg_size t num_ops = do
    e ← call (sem_trywait should_report)
    if not (is_neg e) then pure (some (t, num_ops)) else do
      t ← one_operation os conn_fd msg_size t
      measure k conn_fd msg_size t ((num_ops + 1) % 2 ^ 64)

  -- The operations after the report, the first `k` of them.
  unfoldable pub run_on : ℕ → Fd → (msg_size : ℤ) → Local → Cmd World (Unit {0})
  run_on zero conn_fd msg_size t = pure tt
  run_on (suc k) conn_fd msg_size t = do
    t ← one_operation os conn_fd msg_size t
    run_on k conn_fd msg_size t

  -- The measurement between two readings of the clock, the report, and what follows.
  unfoldable pub report : (j i : ℕ) → Fd → (msg_size : ℤ) → Local → Cmd World (Option ThreadArgs)
  unfolding measure run_on
  report j i conn_fd msg_size t = do
    start ← or_exit clock_gettime
    measured ← measure j conn_fd msg_size t 0
    elim measured [
      | none ↦ pure none
      | some m ↦ do
        end ← or_exit clock_gettime
        post reported
        run_on i conn_fd msg_size m.0
        pure (some (record { num_ops = m.1; runtime = elapsed start end }))
    ]

  -- `client`, with at most `k`, `j` and `i` rounds of its three loops: what it stores in `args`, or
  -- `none` if it has not got there. `stack` is the uninitialised `msg_size`.
  unfoldable pub client : (k j i : ℕ) → (stack : List ℕ) → Local → Cmd World (Option ThreadArgs)
  unfolding connect_all warm_up report
  client k j i stack t = do
    addresses ← or_exit getaddrinfo
    conn_fd ← connect_all addresses (negsuc 0)
    msg_size ← handshake os conn_fd stack
    t ← one_operation os conn_fd msg_size t
    post started
    warmed ← warm_up k conn_fd msg_size t
    elim warmed [ none ↦ pure none | some t ↦ report j i conn_fd msg_size t ]
