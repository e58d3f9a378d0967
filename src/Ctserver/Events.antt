-- ===== src/Ctserver/Events.antt =====
-- ctserver/src/ctserver.c: the handler of EPOLLHUP and the body of the event loop.
use carrots.Base.{ℕ, Option, none, some, Bool, ◌==◌, if◌then◌else◌, get_elem?, ◌>>=◌}
use carrots.Ctserver.{Server, get_idx_with_sockfd, clean_child_with_idx, epoll_delete_evt}
use carrots.Ctserver.Connection.{Calls, accept_client}

unfoldable pub delete_reader : Bool → Server → Option ℕ → Server
unfolding epoll_delete_evt
delete_reader deleted server none = server
delete_reader deleted server (some fd) = epoll_delete_evt deleted server fd

unfoldable pub hangup_idx : Bool → Server → ℕ → Option Server
unfolding delete_reader
hangup_idx deleted server idx = do
  c ← get_elem? server.childs idx
  clean_child_with_idx (delete_reader deleted server c.pfd_r) idx

-- The handler of EPOLLHUP on a descriptor that is not the listening one: the test `idx < 0` never
-- holds.
unfoldable pub child_hangup : Bool → Server → ℕ → Option Server
unfolding hangup_idx
child_hangup deleted server evt_fd =
    hangup_idx deleted server (get_idx_with_sockfd server.childs evt_fd)

-- An event of epoll_wait: its descriptor, and whether EPOLLIN and EPOLLHUP are set.
pub record Event : Type 0 where
  pub fd : ℕ
  pub readable : Bool
  pub hung_up : Bool

-- The body of the event loop. A readable descriptor of a child is read, and what was read is only
-- logged; the index is that of `get_idx_with_sockfd`, which may lie outside of the table.
unfoldable pub handle_event : ℕ → Calls → Bool → Event → Server → Option Server
handle_event listen_fd calls deleted event server =
    let accepted = accept_client calls server in
    let hangup = child_hangup deleted server event.fd in
    if event.fd == listen_fd
    then accepted
    else (if event.readable
        then (get_elem? server.childs (get_idx_with_sockfd server.childs event.fd) >>= λ c.
            some server)
        else (if event.hung_up then hangup else some server))
