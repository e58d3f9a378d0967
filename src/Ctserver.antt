-- ===== src/Ctserver.antt =====
-- ctserver/src/ctserver.c: the table of children, which the handlers of the event loop use. A file descriptor
-- or process id of -1 is none. The table has `max_childs` + 1 entries, and an operation on an index
-- outside of it returns none. System calls are arguments: what they return.
pub mod Config
pub mod Connection
pub mod Events
pub mod Table
pub mod Accept
pub mod Hangup
mod Tests
use carrots.Base.{
  ℕ, zero, suc, ◌+◌, ◌-◌, List, [], ◌∷◌, ◌++◌, Option, none, some, Bool, true, false, ◌==◌, ◌&&◌,
  if◌then◌else◌, length, get_elem?, set, take, ◌>>=◌,
}
use carrots.Base.Int.{ℤ, pos, negsuc}

-- `client_t`
pub record Client : Type 0 where
  pub fd : Option ℕ
  pub ip : List ℕ
  pub port : List ℕ

-- `childs_t`
pub record Child : Type 0 where
  pub used : ℕ
  pub pid : Option ℕ
  pub sid : List ℕ
  pub pfd_r : Option ℕ
  pub pfd_w : Option ℕ
  pub client_info : Client

-- The globals that the handlers change, the descriptors that the process has open, and the clients
-- that were sent an error.
pub record Server : Type 0 where
  pub childs : List Child
  pub open_fds : List ℕ
  pub watched : List ℕ
  pub epoll_num_running : ℤ
  pub refused : List ℕ

-- The loop of `get_idle_idx_from_childs`, from the index `i` on.
unfoldable pub get_idle_idx : List Child → ℕ → Option ℕ
get_idle_idx [] i = none
get_idle_idx (c ∷ cs) i = let rest = get_idle_idx cs (suc i) in if c.used == 0 then some i else rest

-- `get_idle_idx_from_childs`; none is -1.
unfoldable pub get_idle_idx_from_childs : List Child → Option ℕ
get_idle_idx_from_childs childs = get_idle_idx childs 0

unfoldable pub is_fd : Option ℕ → ℕ → Bool
is_fd none fd = false
is_fd (some p) fd = p == fd

-- `get_idx_with_sockfd`: it returns the loop's counter and not the index that was found.
unfoldable pub idx_loop : List Child → ℕ → ℕ → ℕ
idx_loop [] sockfd i = i
idx_loop (c ∷ cs) sockfd i =
    let rest = idx_loop cs sockfd (suc i) in if is_fd c.pfd_r sockfd && c.used == 1 then i else rest

unfoldable pub get_idx_with_sockfd : List Child → ℕ → ℕ
get_idx_with_sockfd childs sockfd = idx_loop childs sockfd 0

abbrev pub idle_child : Child
idle_child = record {
  used = 0;
  pid = none;
  sid = [];
  pfd_r = none;
  pfd_w = none;
  client_info = record { fd = none; ip = []; port = [] };
}

-- `init_child_with_idx`
unfoldable pub init_child_with_idx : List Child → ℕ → Option (List Child)
init_child_with_idx childs i = do c ← get_elem? childs i; some (set childs i idle_child)

-- `close`
unfoldable pub close : ℕ → List ℕ → List ℕ
close fd [] = []
close fd (f ∷ fs) = if f == fd then fs else f ∷ close fd fs

-- `if (fd != -1) close(fd)`
unfoldable pub close_some : Option ℕ → List ℕ → List ℕ
unfolding close
close_some none fds = fds
close_some (some fd) fds = close fd fds

-- `clean_child_with_idx`
unfoldable pub clean_child_with_idx : Server → ℕ → Option Server
unfolding close_some
clean_child_with_idx server i = do
  c ← get_elem? server.childs i
  some (record server {
    childs = set server.childs i idle_child;
    open_fds =
        close_some c.client_info.fd (close_some c.pfd_w (close_some c.pfd_r server.open_fds));
  })

abbrev pub less_one : ℤ → ℤ
less_one (pos zero) = negsuc 0
less_one (pos (suc n)) = pos n
less_one (negsuc n) = negsuc (suc n)

abbrev pub more_one : ℤ → ℤ
more_one (pos n) = pos (suc n)
more_one (negsuc zero) = pos 0
more_one (negsuc (suc n)) = negsuc n

-- `epoll_delete_evt`; the Boolean says whether epoll_ctl succeeds.
unfoldable pub epoll_delete_evt : Bool → Server → ℕ → Server
unfolding close
epoll_delete_evt deleted server fd =
    if deleted
    then record server {
      watched = close fd server.watched;
      epoll_num_running = less_one server.epoll_num_running;
    }
    else server
