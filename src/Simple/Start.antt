-- ===== src/Simple/Start.antt =====
-- start_server of simple.c.
use echo_server.Prelude.{
  ℕ, zero, suc, ◌≡◌, refl, sym, ap, ◌∙◌, inl, inr, false, List, [], ◌∷◌, ◌++◌, some, is_neg, ℤ, pos,
  int_eq, int_eq-eq, int_lt, not, length, append-nil, append_assoc, arith, Bool-cases,
  if◌then◌else◌,
}
use echo_server.Posix.{Os, Fd, reuse_addr, reuse_port}
use echo_server.Posix.Ends.{EndsOrFails, done, stops, bind_or_fail}
use echo_server.Posix.Listening.{ServerLaws}
use echo_server.Simple.{buf_size, Conn, Server, open_listener, accept_loop, start_server}

abbrev pub AllOpen : List Conn → Type 0
AllOpen [] = Unit
AllOpen (c ∷ conns) = (is_neg c.conn_fd ≡ false) × AllOpen conns

-- The connections whose `pthread_create` gave 0.
abbrev pub started : List Conn → List Fd
started [] = []
started (c ∷ conns) = (if int_eq c.created (pos 0) then c.conn_fd ∷ [] else []) ++ started conns

module _ {os : Os} (laws : ServerLaws os) where
  open os use {World}
  open laws use {listening, threads}

  -- the state of `open_listener` after the two options, and after `bind`
  abbrev optioned : World → World
  optioned w =
      let fd = (os.socket w).0 in
      (os.setsockopt fd reuse_port (os.setsockopt fd reuse_addr (os.socket w).1).1).1

  abbrev bound : ℕ → World → ℤ × World
  bound port w = os.bind (os.socket w).0 port (optioned w)

  -- A descriptor that listens on the port, and no thread more than before.
  pub record Opened (port : ℕ) (w : World) (fd : Fd) (w' : World) : Type 0 where
    pub is_open : is_neg fd ≡ false
    pub listens : listening fd w' ≡ some port
    pub same_threads : threads w' ≡ threads w

  is_zero : (a : ℤ) → not (int_eq a (pos 0)) ≡ false → a ≡ pos 0
  is_zero a h = int_eq-eq a (pos 0) (ground arith)

  opened :
      (port : ℕ) (w : World)
      → is_neg (os.socket w).0 ≡ false
      → not (int_eq (bound port w).0 (pos 0)) ≡ false
      → not (int_eq (os.listen (os.socket w).0 1024 (bound port w).1).0 (pos 0)) ≡ false
      → Opened port w (os.socket w).0 (os.listen (os.socket w).0 1024 (bound port w).1).1
  opened port w open_fd good listens = record {
    is_open = open_fd;
    listens =
        laws.listen_listens (os.socket w).0 1024 (bound port w).1 (is_zero _ listens)
        ∙ laws.bind_binds (os.socket w).0 port (optioned w) (is_zero _ good);
    same_threads =
        laws.listen_threads (os.socket w).0 1024 (bound port w).1
        ∙ laws.bind_threads (os.socket w).0 port (optioned w)
        ∙ laws.setsockopt_threads (os.socket w).0 reuse_port _
        ∙ laws.setsockopt_threads (os.socket w).0 reuse_addr _
        ∙ laws.socket_threads w;
  }

  pub open_listener-Ends :
      (port : ℕ) (w : World) → EndsOrFails (Opened port w) (open_listener os port w)
  unfolding open_listener
  open_listener-Ends port w = elim (Bool-cases (is_neg (os.socket w).0)) [
    | inl bad ↦ rw bad (stops refl)
    | inr open_fd ↦ rw open_fd (elim (Bool-cases (not (int_eq (bound port w).0 (pos 0)))) [
      | inl bad ↦ rw bad (stops refl)
      | inr good ↦
          rw good
            (elim (Bool-cases
              (not (int_eq (os.listen (os.socket w).0 1024 (bound port w).1).0 (pos 0)))) [
                | inl bad ↦ rw bad (stops refl)
                | inr listens ↦ rw listens (done (opened port w open_fd good listens))
              ])
    ])
  ]

  -- After `k` connections from `w` on.
  record Accepted (k : ℕ) (w : World) (conns : List Conn) (w' : World) : Type 0 where
    pub count : length conns ≡ k
    pub all_open : AllOpen conns
    pub handlers : threads w' ≡ threads w ++ started conns
    pub listens : (fd : Fd) → listening fd w' ≡ listening fd w

  Accepted-more :
      (k : ℕ) (listen_fd : Fd) (w : World) (conns : List Conn) (u : World)
      → is_neg (os.accept listen_fd w).0 ≡ false
      → Accepted k (os.pthread_create (os.accept listen_fd w).0 (os.accept listen_fd w).1).1 conns u
      → Accepted
          (suc k)
          w
          (record {
            conn_fd = (os.accept listen_fd w).0;
            created = (os.pthread_create (os.accept listen_fd w).0 (os.accept listen_fd w).1).0;
          }
            ∷ conns)
          u
  Accepted-more k listen_fd w conns u open_fd a =
      let got = os.accept listen_fd w in
      record {
        count = ap suc a.count;
        all_open = (open_fd, a.all_open);
        handlers =
            a.handlers
            ∙ ap (λ l. l ++ started conns)
                (laws.create_starts got.0 got.1
                  ∙ ap
                      (λ l.
                        l
                        ++ (if int_eq (os.pthread_create got.0 got.1).0 (pos 0)
                            then got.0 ∷ []
                            else []))
                      (laws.accept_threads listen_fd w))
            ∙ append_assoc (threads w) _ (started conns);
        listens = λ fd.
            a.listens fd ∙ laws.create_listens got.0 fd got.1 ∙ laws.accept_listens listen_fd fd w;
      }

  accept_loop-Ends :
      (k : ℕ) (listen_fd : Fd) (w : World)
      → EndsOrFails (Accepted k w) (accept_loop os k listen_fd w)
  unfolding accept_loop
  accept_loop-Ends zero listen_fd w =
      done (record {
        count = refl;
        all_open = tt;
        handlers = sym (append-nil _);
        listens = λ fd. refl;
      })
  accept_loop-Ends (suc k) listen_fd w = elim (Bool-cases (is_neg (os.accept listen_fd w).0)) [
    | inl bad ↦ rw bad (stops refl)
    | inr open_fd ↦ rw open_fd (
        bind_or_fail _ (accept_loop-Ends k listen_fd _)
          λ conns u a. done (Accepted-more k listen_fd w conns u open_fd a))
  ]

  -- A server that has taken `k` connections from `w` on.
  pub record Running (k port : ℕ) (msg_sz : ℤ) (w : World) (server : Server) (w' : World)
      : Type 0 where
    pub size : server.msg_size ≡ msg_sz
    pub small : int_lt (pos buf_size) server.msg_size ≡ false
    pub listen_fd : Fd
    pub is_open : is_neg listen_fd ≡ false
    pub listens : listening listen_fd w' ≡ some port
    pub count : length server.conns ≡ k
    pub all_open : AllOpen server.conns
    pub handlers : threads w' ≡ threads w ++ started server.conns

  -- Under the laws of the calls that make a listening socket and start threads, for every
  -- message size, start_server with k rounds of its accept loop exits with status -1, or the
  -- message size that its threads read is the one it was given and not above 1024, an open
  -- descriptor listens on the port, k connections were accepted on open descriptors, and the
  -- threads that were started since the call are those of the connections whose pthread_create
  -- gave 0, in this order.
  pub start_server_guarantees :
      (k port : ℕ) (msg_sz : ℤ) (w : World)
      → EndsOrFails (Running k port msg_sz w) (start_server os k port msg_sz w)
  unfolding start_server
  start_server_guarantees k port msg_sz w = elim (Bool-cases (int_lt (pos buf_size) msg_sz)) [
    | inl large ↦ rw large (stops refl)
    | inr small ↦ rw small (
        bind_or_fail _ (open_listener-Ends port w) λ fd v o.
          bind_or_fail _ (accept_loop-Ends k fd v) λ conns u a. done (record {
            size = refl;
            small = small;
            listen_fd = fd;
            is_open = o.is_open;
            listens = a.listens fd ∙ o.listens;
            count = a.count;
            all_open = a.all_open;
            handlers = a.handlers ∙ ap (λ l. l ++ started conns) o.same_threads;
          }))
  ]
