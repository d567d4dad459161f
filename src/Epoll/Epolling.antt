-- ===== src/Epoll/Epolling.antt =====
-- What the epoll servers call of Linux besides the sockets, a parameter of the model.
use echo_server.Prelude.{◌≡◌, List, [], ◌∷◌, Option, some, ℤ, ◌⊎◌}
use echo_server.Posix.{Os, Fd}

-- `get_flags` and `set_flags` are `fcntl` with F_GETFL and F_SETFL. `epoll_wait` gives the
-- descriptors that the events name, or `none` where it returns a negative number.
pub record EpollOs : Type 1 where
  pub os : Os
  pub get_flags : Fd → os.World → ℤ × os.World
  pub set_flags : Fd → ℤ → os.World → ℤ × os.World
  pub epoll_create : os.World → ℤ × os.World
  pub epoll_ctl_add : (epfd fd : Fd) → os.World → ℤ × os.World
  pub epoll_ctl_del : (epfd fd : Fd) → os.World → ℤ × os.World
  pub epoll_wait : (epfd : Fd) → os.World → Option (List Fd) × os.World

abbrev pub AllOf : (Fd → Type 0) → List Fd → Type 0
AllOf P [] = Unit
AllOf P (fd ∷ fds) = P fd × AllOf P fds

-- An epoll instance watches what was added to it, and reports only what it watches. A new instance
-- watches nothing.
pub record EpollLaws (epoll : EpollOs) : Type 1 where
  pub Watches : (epfd : Fd) → epoll.os.World → Fd → Type 0
  pub create_empty :
      (w : epoll.os.World) (fd : Fd)
      → Watches (epoll.epoll_create w).0 (epoll.epoll_create w).1 fd
      → ⊥
  pub add_one :
      (epfd fd : Fd) (w : epoll.os.World) (other : Fd)
      → Watches epfd (epoll.epoll_ctl_add epfd fd w).1 other
      → (other ≡ fd) ⊎ Watches epfd w other
  pub wait_reports :
      (epfd : Fd) (w : epoll.os.World) (fds : List Fd)
      → (epoll.epoll_wait epfd w).0 ≡ some fds
      → AllOf (Watches epfd w) fds
  pub wait_less :
      (epfd : Fd) (w : epoll.os.World) (other : Fd)
      → Watches epfd (epoll.epoll_wait epfd w).1 other
      → Watches epfd w other
