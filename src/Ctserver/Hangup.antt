-- ===== src/Ctserver/Hangup.antt =====
-- ctserver/src/ctserver.c: from a connection to the end of its child, and what is lost on the way.
use carrots.Base.{
  false-ne, ℕ, zero, suc, ◌≤◌, ◌≡◌, refl, sym, ap, ◌∙◌, inl, inr, List, [], ◌∷◌, ◌++◌, Option, none,
  some, Bool, true, false, ◌==◌, ==_iff, ◌&&◌, Bool-cases, length, take, All, arith, if◌then◌else◌,
  get_elem?, get_elem?-middle, set-middle,
}
use carrots.Base.Int.{ℤ, pos, negsuc}
use carrots.Ctserver.{
  Child, Server, is_fd, get_idx_with_sockfd, idle_child, close, close_some, clean_child_with_idx,
  less_one, more_one, epoll_delete_evt, idx_loop,
}
use carrots.Ctserver.Connection.{Calls, accept_client, set_peer}
use carrots.Ctserver.Events.{child_hangup, hangup_idx, delete_reader}
use carrots.Ctserver.Table.{IsBusy, IsOther, idx_with-reader, get_idx_with_sockfd_cases}
use carrots.Ctserver.Accept.{
  AreFresh, taken, accept_starts, accept_no_pipe, accept_one_pipe, accept_no_id, accept_no_fork,
  close_head,
}

less_one-more_one : (n : ℤ) → less_one (more_one n) ≡ n
less_one-more_one (pos n) = refl
less_one-more_one (negsuc zero) = refl
less_one-more_one (negsuc (suc n)) = refl

abbrev pub running : Option ℕ → List ℕ → ℕ → ℕ → List ℕ → List ℕ → Child
running pid sid r w ip port = record {
  used = 1;
  pid = pid;
  sid = sid;
  pfd_r = some r;
  pfd_w = some w;
  client_info = record { fd = none; ip = ip; port = port };
}

clean-slot :
    (server : Server) (before : List Child) (c : Child) (after : List Child)
    → clean_child_with_idx (record server { childs = before ++ c ∷ after }) (length before)
      ≡ some (record server {
        childs = before ++ idle_child ∷ after;
        open_fds =
            close_some c.client_info.fd (close_some c.pfd_w (close_some c.pfd_r server.open_fds));
      })
unfolding clean_child_with_idx
clean-slot server before c after =
    rw (get_elem?-middle before c after, set-middle before c after idle_child) refl

-- The child with the index of the descriptor is removed from epoll and cleaned.
hangup_running :
    (server : Server) (before : List Child) (after : List Child) (pid : Option ℕ)
    (sid ip port : List ℕ) (r w : ℕ)
    → All (IsOther r) before
    → child_hangup true (record server { childs = before ++ running pid sid r w ip port ∷ after }) r
      ≡ some (record server {
        childs = before ++ idle_child ∷ after;
        open_fds = close w (close r server.open_fds);
        watched = close r server.watched;
        epoll_num_running = less_one server.epoll_num_running;
      })
unfolding child_hangup hangup_idx delete_reader get_idx_with_sockfd epoll_delete_evt close_some
    is_fd
hangup_running server before after pid sid ip port r w others =
    let c = running pid sid r w ip port in
    let found : idx_loop (before ++ c ∷ after) r 0 ≡ length before =
      idx_with-reader r before c after 0 others (rw ((==_iff r r).1 refl) refl) ∙ omega arith in
    ap (hangup_idx true (record server { childs = before ++ c ∷ after })) found
    ∙ rw (get_elem?-middle before c after, hangup_idx) refl
    ∙ clean-slot (epoll_delete_evt true server r) before c after

-- The server when the child has hung up.
hangup_started :
    (server : Server) (before after : List Child) (connfd r₁ w₁ r₂ w₂ : ℕ)
    (peer : Option (List ℕ × List ℕ)) (sid : List ℕ) (f : ℕ)
    → AreFresh connfd r₁ w₁ r₂ w₂
    → All (IsOther r₂) before
    → child_hangup true
        (record server {
          childs =
              before
              ++ record (taken peer idle_child) {
                sid = sid;
                pid = some f;
                pfd_r = some r₂;
                pfd_w = some w₁;
              }
                ∷ after;
          open_fds = r₂ ∷ w₁ ∷ server.open_fds;
          watched = r₂ ∷ server.watched;
          epoll_num_running = more_one server.epoll_num_running;
        })
        r₂
      ≡ some (record server { childs = before ++ idle_child ∷ after })
unfolding set_peer
hangup_started server before after connfd r₁ w₁ r₂ w₂ none sid f n others =
    hangup_running
      (record server {
        open_fds = r₂ ∷ w₁ ∷ server.open_fds;
        watched = r₂ ∷ server.watched;
        epoll_num_running = more_one server.epoll_num_running;
      })
      before after (some f) sid [] [] r₂ w₁ others
    ∙ rw
        (
          close_head r₂ (w₁ ∷ server.open_fds),
          close_head w₁ server.open_fds,
          close_head r₂ server.watched,
          less_one-more_one server.epoll_num_running,
        )
        refl
hangup_started server before after connfd r₁ w₁ r₂ w₂ (some (ip, port)) sid f n others =
    hangup_running
      (record server {
        open_fds = r₂ ∷ w₁ ∷ server.open_fds;
        watched = r₂ ∷ server.watched;
        epoll_num_running = more_one server.epoll_num_running;
      })
      before after (some f) sid (take 19 ip) (take 19 port) r₂ w₁ others
    ∙ rw
        (
          close_head r₂ (w₁ ∷ server.open_fds),
          close_head w₁ server.open_fds,
          close_head r₂ server.watched,
          less_one-more_one server.epoll_num_running,
        )
        refl

-- A connection for which every call succeeds, and gives descriptors that differ, takes the first
-- idle child, leaves open the parent's ends of the two pipes and nothing else, and watches the one
-- to read; when that child then hangs up and no child before it has the same descriptor, the
-- server is exactly as it was before the connection.
pub accept_client-child_hangup :
    (server : Server) (before after : List Child) (connfd r₁ w₁ r₂ w₂ : ℕ)
    (peer : Option (List ℕ × List ℕ)) (sid : List ℕ) (f : ℕ)
    → All IsBusy before
    → All (IsOther r₂) before
    → AreFresh connfd r₁ w₁ r₂ w₂
    → (s : Server) × (accept_client
          (record {
            connfd = connfd;
            peer = peer;
            pipe1 = some (r₁, w₁);
            pipe2 = some (r₂, w₂);
            unique_id = some sid;
            fork = some f;
            epoll_ctl = true;
          })
          (record server { childs = before ++ idle_child ∷ after })
        ≡ some s)
      × (s.open_fds ≡ r₂ ∷ w₁ ∷ server.open_fds)
      × (s.watched ≡ r₂ ∷ server.watched)
      × (child_hangup true s r₂ ≡ some (record server { childs = before ++ idle_child ∷ after }))
accept_client-child_hangup server before after connfd r₁ w₁ r₂ w₂ peer sid f busy others fresh = (
  record server {
    childs =
        before
        ++ record (taken peer idle_child) {
          sid = sid;
          pid = some f;
          pfd_r = some r₂;
          pfd_w = some w₁;
        }
          ∷ after;
    open_fds = r₂ ∷ w₁ ∷ server.open_fds;
    watched = r₂ ∷ server.watched;
    epoll_num_running = more_one server.epoll_num_running;
  },
  accept_starts server before idle_child after busy refl connfd r₁ w₁ r₂ w₂ peer sid f true fresh,
  refl,
  refl,
  hangup_started server before after connfd r₁ w₁ r₂ w₂ peer sid f fresh others,
)

at_reader :
    (fd : ℕ) (before : List Child) (here : Child) (after : List Child)
    → All (IsOther fd) (before ++ here ∷ after)
    → (is_fd here.pfd_r fd && here.used == 1) ≡ false
at_reader fd [] here after others = others.0
at_reader fd (c ∷ cs) here after others = at_reader fd cs here after others.1

-- How many children are not used.
unfoldable pub count_idle : List Child → ℕ
count_idle [] = 0
count_idle (c ∷ cs) = let rest = count_idle cs in if c.used == 0 then suc rest else rest

count_idle-slot :
    (before : List Child) (c d : Child) (after : List Child)
    → c.used ≡ 1
    → d.used ≡ 0
    → suc (count_idle (before ++ c ∷ after)) ≡ count_idle (before ++ d ∷ after)
unfolding count_idle
count_idle-slot [] c d after used idle = rw (used, idle) refl
count_idle-slot (x ∷ xs) c d after used idle = elim (Bool-cases (x.used == 0)) [
  | inl on ↦ rw on (ap suc (count_idle-slot xs c d after used idle))
  | inr off ↦ rw off (count_idle-slot xs c d after used idle)
]

taken-used : (peer : Option (List ℕ × List ℕ)) (c : Child) → (taken peer c).used ≡ 1
unfolding set_peer
taken-used none c = refl
taken-used (some (ip, port)) c = refl

taken-pfd_r : (peer : Option (List ℕ × List ℕ)) (c : Child) → (taken peer c).pfd_r ≡ c.pfd_r
unfolding set_peer
taken-pfd_r none c = refl
taken-pfd_r (some (ip, port)) c = refl

-- Calls of which one fails behind `accept`.
pub data Fails (connfd r₁ w₁ r₂ w₂ : ℕ) (peer : Option (List ℕ × List ℕ)) : Calls → Type 0 where
  no_pipe :
      (pipe2 : Option (ℕ × ℕ)) (sid : Option (List ℕ)) (f : Option ℕ) (watch : Bool)
      → Fails connfd r₁ w₁ r₂ w₂ peer (record {
        connfd = connfd;
        peer = peer;
        pipe1 = none;
        pipe2 = pipe2;
        unique_id = sid;
        fork = f;
        epoll_ctl = watch;
      })
  one_pipe :
      (sid : Option (List ℕ)) (f : Option ℕ) (watch : Bool)
      → Fails connfd r₁ w₁ r₂ w₂ peer (record {
        connfd = connfd;
        peer = peer;
        pipe1 = some (r₁, w₁);
        pipe2 = none;
        unique_id = sid;
        fork = f;
        epoll_ctl = watch;
      })
  no_id :
      (f : Option ℕ) (watch : Bool)
      → Fails connfd r₁ w₁ r₂ w₂ peer (record {
        connfd = connfd;
        peer = peer;
        pipe1 = some (r₁, w₁);
        pipe2 = some (r₂, w₂);
        unique_id = none;
        fork = f;
        epoll_ctl = watch;
      })
  no_fork :
      (sid : List ℕ) (watch : Bool)
      → Fails connfd r₁ w₁ r₂ w₂ peer (record {
        connfd = connfd;
        peer = peer;
        pipe1 = some (r₁, w₁);
        pipe2 = some (r₂, w₂);
        unique_id = some sid;
        fork = none;
        epoll_ctl = watch;
      })

-- What a failed connection leaves: a used slot that no descriptor leads to.
unfoldable pub Leaks : Server → List Child → Child → List Child → ℕ → Option Server → Type 0
Leaks server before here after connfd o =
    (c : Child) × (o
      ≡ some (record server {
        childs = before ++ c ∷ after;
        open_fds = connfd ∷ server.open_fds;
        refused = connfd ∷ server.refused;
      }))
    × (c.used ≡ 1)
    × (c.pfd_r ≡ here.pfd_r)
    × (suc (count_idle (before ++ c ∷ after)) ≡ count_idle (before ++ here ∷ after))

-- When a pipe, the unique id or the fork fails, and the descriptors opened differ, the handler
-- closes the pipes that it has opened and sends the error; but the connection stays open, and the
-- first idle slot becomes used although it still has the descriptor of an idle child, so that one
-- idle child fewer is left.
pub accept_client-Leaks :
    (server : Server) (before : List Child) (here : Child) (after : List Child)
    (connfd r₁ w₁ r₂ w₂ : ℕ) (peer : Option (List ℕ × List ℕ)) (calls : Calls)
    → All IsBusy before
    → here.used ≡ 0
    → AreFresh connfd r₁ w₁ r₂ w₂
    → Fails connfd r₁ w₁ r₂ w₂ peer calls
    → Leaks server before here after connfd
        (accept_client calls (record server { childs = before ++ here ∷ after }))
unfolding Leaks
accept_client-Leaks server before here after connfd r₁ w₁ r₂ w₂ peer _ busy idle n
      (no_pipe pipe2 sid f watch) =
    (
      taken peer here,
      accept_no_pipe server before here after busy idle connfd r₁ w₁ r₂ w₂ peer pipe2 sid f watch,
      taken-used peer here,
      taken-pfd_r peer here,
      count_idle-slot before (taken peer here) here after (taken-used peer here) idle,
    )
accept_client-Leaks server before here after connfd r₁ w₁ r₂ w₂ peer _ busy idle n
      (one_pipe sid f watch) =
    (
      taken peer here,
      accept_one_pipe server before here after busy idle connfd r₁ w₁ r₂ w₂ peer sid f watch n,
      taken-used peer here,
      taken-pfd_r peer here,
      count_idle-slot before (taken peer here) here after (taken-used peer here) idle,
    )
accept_client-Leaks server before here after connfd r₁ w₁ r₂ w₂ peer _ busy idle n (no_id f watch) =
    (
      taken peer here,
      accept_no_id server before here after busy idle connfd r₁ w₁ r₂ w₂ peer f watch n,
      taken-used peer here,
      taken-pfd_r peer here,
      count_idle-slot before (taken peer here) here after (taken-used peer here) idle,
    )
accept_client-Leaks server before here after connfd r₁ w₁ r₂ w₂ peer _ busy idle n
      (no_fork sid watch) =
    (
      record (taken peer here) { sid = sid },
      accept_no_fork server before here after busy idle connfd r₁ w₁ r₂ w₂ peer sid watch n,
      taken-used peer here,
      taken-pfd_r peer here,
      count_idle-slot before (record (taken peer here) { sid = sid }) here after
          (taken-used peer here) idle,
    )

get_elem?-outside : (cs : List Child) (n : ℕ) → length cs ≤ n → get_elem? cs n ≡ none
get_elem?-outside [] n h = refl
get_elem?-outside (c ∷ cs) zero h = absurd (omega arith)
get_elem?-outside (c ∷ cs) (suc n) h = get_elem?-outside cs n (omega arith)

-- EPOLLHUP on a descriptor that no used child reads: the handler goes on with the entry behind the
-- end of the table.
pub child_hangup-unknown :
    (server : Server) (deleted : Bool) (fd : ℕ)
    → All (IsOther fd) server.childs
    → child_hangup deleted server fd ≡ none
unfolding child_hangup hangup_idx
child_hangup-unknown server deleted fd others = elim (get_idx_with_sockfd_cases server.childs fd) [
  | inl all ↦
      ap (hangup_idx deleted server) all.0
      ∙ rw (get_elem?-outside server.childs (length server.childs) (omega arith), hangup_idx) refl
  | inr found ↦
      let (i, stop, r) = found in
      absurd
        (false-ne (sym (at_reader fd r.before r.here r.after (rw r.whole at others)) ∙ r.reads))
]
