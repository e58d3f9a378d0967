-- ===== src/Ctserver/Connection.antt =====
-- ctserver/src/ctserver.c: the handler of a new connection, in the parent.
use carrots.Base.{
  ℕ, List, ◌∷◌, Option, none, some, Bool, if◌then◌else◌, get_elem?, set, take, ◌>>=◌,
}
use carrots.Ctserver.{Child, Server, get_idle_idx_from_childs, close, more_one}

-- What the system calls of one accepted connection return, in order: the descriptor, the peer, two
-- pipes as (read end, write end), the unique id, the process id of the child, and whether epoll_ctl
-- succeeds.
pub record Calls : Type 0 where
  pub connfd : ℕ
  pub peer : Option (List ℕ × List ℕ)
  pub pipe1 : Option (ℕ × ℕ)
  pub pipe2 : Option (ℕ × ℕ)
  pub unique_id : Option (List ℕ)
  pub fork : Option ℕ
  pub epoll_ctl : Bool

unfoldable pub write_error : Server → ℕ → Server
write_error server connfd = record server { refused = connfd ∷ server.refused }

-- `snprintf` of the peer's address into the client's fields
unfoldable pub set_peer : Option (List ℕ × List ℕ) → Child → Child
set_peer none c = c
set_peer (some (ip, port)) c = record c {
  client_info = record c.client_info { ip = take 19 ip; port = take 19 port };
}

unfoldable pub update : Server → ℕ → Child → Server
update server i c = record server { childs = set server.childs i c }

-- The parent behind `fork`.
unfoldable pub add_child : Calls → ℕ → Child → (ℕ × ℕ) → (ℕ × ℕ) → ℕ → Server → Server
unfolding close update
add_child calls i c pi1 pi2 f server =
    let fds = close calls.connfd (close pi2.1 (close pi1.0 server.open_fds)) in
    record server {
      childs =
          set server.childs i (record c { pid = some f; pfd_r = some pi2.0; pfd_w = some pi1.1 });
      open_fds = fds;
      watched = if calls.epoll_ctl then pi2.0 ∷ server.watched else server.watched;
      epoll_num_running = more_one server.epoll_num_running;
    }

-- From `fork` on: both pipes are open.
unfoldable pub fork_child : Calls → ℕ → Child → (ℕ × ℕ) → (ℕ × ℕ) → Server → Server
unfolding close add_child write_error
fork_child calls i c pi1 pi2 server = elim calls.fork [
  | none ↦
      write_error
        (record server {
          open_fds = close pi2.1 (close pi2.0 (close pi1.1 (close pi1.0 server.open_fds)));
        })
        calls.connfd
  | some f ↦ add_child calls i c pi1 pi2 f server
]

-- `create_unique_id` and what follows it.
unfoldable pub name_child : Calls → ℕ → Child → (ℕ × ℕ) → (ℕ × ℕ) → Server → Server
unfolding close fork_child write_error update
name_child calls i c pi1 pi2 server = elim calls.unique_id [
  | none ↦
      write_error
        (record server {
          open_fds = close pi2.1 (close pi2.0 (close pi1.1 (close pi1.0 server.open_fds)));
        })
        calls.connfd
  | some sid ↦
      let named = record c { sid = sid } in fork_child calls i named pi1 pi2 (update server i named)
]

unfoldable pub second_pipe : Calls → ℕ → Child → (ℕ × ℕ) → Server → Server
unfolding close name_child write_error
second_pipe calls i c pi1 server = elim calls.pipe2 [
  | none ↦
      write_error (record server { open_fds = close pi1.1 (close pi1.0 server.open_fds) })
        calls.connfd
  | some pi2 ↦
      name_child calls i c pi1 pi2 (record server { open_fds = pi2.0 ∷ pi2.1 ∷ server.open_fds })
]

unfoldable pub first_pipe : Calls → ℕ → Child → Server → Server
unfolding second_pipe write_error
first_pipe calls i c server = elim calls.pipe1 [
  | none ↦ write_error server calls.connfd
  | some pi1 ↦
      second_pipe calls i c pi1 (record server { open_fds = pi1.0 ∷ pi1.1 ∷ server.open_fds })
]

-- The handler of a new connection with the index of an idle child, or none.
unfoldable pub accept_into : Calls → Server → Option ℕ → Option Server
unfolding first_pipe write_error update set_peer
accept_into calls server none = some (write_error server calls.connfd)
accept_into calls server (some i) = do
  c ← get_elem? server.childs i
  let taken = set_peer calls.peer (record c { used = 1 })
  some (first_pipe calls i taken (update server i taken))

-- The handler of a new connection, in the parent.
unfoldable pub accept_client : Calls → Server → Option Server
unfolding accept_into
accept_client calls server =
    accept_into calls (record server { open_fds = calls.connfd ∷ server.open_fds })
      (get_idle_idx_from_childs server.childs)
