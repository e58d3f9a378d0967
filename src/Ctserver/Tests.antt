-- ===== src/Ctserver/Tests.antt =====
-- ctserver/src/ctserver.c: runs at concrete inputs.
use carrots.Base.{◌≡◌, refl, [], ◌∷◌, none, some, true, arith}
use carrots.Base.Int.{pos}
use carrots.Ctserver.{Child, Server, idle_child, is_fd}
use carrots.Ctserver.Connection.{Calls, accept_client}
use carrots.Ctserver.Events.{child_hangup}
use carrots.Ctserver.Accept.{AreFresh}
use carrots.Ctserver.Hangup.{
  running, no_fork, Leaks, accept_client-child_hangup, accept_client-Leaks,
}

-- A running child, whose pipes are 7 and 8.
abbrev first : Child
first = running (some 100) (65 ∷ []) 7 8 [] []

abbrev server : Server
server = record {
  childs = first ∷ [];
  open_fds = 7 ∷ 8 ∷ 3 ∷ [];
  watched = 7 ∷ 3 ∷ [];
  epoll_num_running = pos 1;
  refused = [];
}

fresh : AreFresh 9 10 11 12 13
fresh = record {
  r₂r₁ = λ e. omega (arith, e);
  r₂w₁ = λ e. omega (arith, e);
  r₂w₂ = λ e. omega (arith, e);
  r₂c = λ e. omega (arith, e);
  w₂r₁ = λ e. omega (arith, e);
  w₂w₁ = λ e. omega (arith, e);
  r₁w₁ = λ e. omega (arith, e);
  w₁c = λ e. omega (arith, e);
}

accept_client-child_hangup_example :
    (s : Server) × (accept_client
        (record {
          connfd = 9;
          peer = none;
          pipe1 = some (10, 11);
          pipe2 = some (12, 13);
          unique_id = some (65 ∷ []);
          fork = some 101;
          epoll_ctl = true;
        })
        (record server { childs = first ∷ idle_child ∷ [] })
      ≡ some s)
    × (s.open_fds ≡ 12 ∷ 11 ∷ server.open_fds)
    × (s.watched ≡ 12 ∷ server.watched)
    × (child_hangup true s 12 ≡ some (record server { childs = first ∷ idle_child ∷ [] }))
unfolding is_fd
accept_client-child_hangup_example =
    accept_client-child_hangup server (first ∷ []) [] 9 10 11 12 13 none (65 ∷ []) 101 (refl, tt)
      (refl, tt) fresh

abbrev failing : Calls
failing = record {
  connfd = 9;
  peer = none;
  pipe1 = some (10, 11);
  pipe2 = some (12, 13);
  unique_id = some (65 ∷ []);
  fork = none;
  epoll_ctl = true;
}

accept_client-Leaks_example :
    Leaks server
      (first ∷ [])
      idle_child
      []
      9
      (accept_client failing (record server { childs = first ∷ idle_child ∷ [] }))
accept_client-Leaks_example =
    accept_client-Leaks server (first ∷ []) idle_child [] 9 10 11 12 13 none failing (refl, tt) refl
      fresh (no_fork (65 ∷ []) true)
