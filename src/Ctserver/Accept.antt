-- ===== src/Ctserver/Accept.antt =====
-- ctserver/src/ctserver.c: what the handler of a new connection leaves.
use carrots.Base.{
  ℕ, suc, ◌+◌, ◌≡◌, ◌≢◌, refl, ap, ◌∙◌, List, [], ◌∷◌, ◌++◌, Option, none, some, Bool, false, ◌==◌,
  ==_iff, length, All, arith, if◌then◌else◌, get_elem?-middle, set-middle,
}
use carrots.Ctserver.{Child, Server, get_idle_idx, get_idle_idx_from_childs, close, more_one}
use carrots.Ctserver.Connection.{
  Calls, write_error, set_peer, update, add_child, fork_child, name_child, second_pipe, first_pipe,
  accept_into, accept_client,
}
use carrots.Ctserver.Table.{IsBusy}

idle_with :
    (before : List Child) (here : Child) (after : List Child) (i : ℕ)
    → All IsBusy before
    → here.used ≡ 0
    → get_idle_idx (before ++ here ∷ after) i ≡ some (i + length before)
unfolding get_idle_idx
idle_with [] here after i busy idle = rw idle (ap some (omega arith))
idle_with (c ∷ cs) here after i busy idle =
    rw (busy.0) (idle_with cs here after (suc i) busy.1 idle ∙ ap some (omega arith))

pub idle_none : (childs : List Child) (i : ℕ) → All IsBusy childs → get_idle_idx childs i ≡ none
unfolding get_idle_idx
idle_none [] i busy = refl
idle_none (c ∷ cs) i busy = rw (busy.0) (idle_none cs (suc i) busy.1)

pub close_head : (fd : ℕ) (fds : List ℕ) → close fd (fd ∷ fds) ≡ fds
unfolding close
close_head fd fds = rw ((==_iff fd fd).1 refl) refl

pub close_tail : (fd f : ℕ) (fds : List ℕ) → f ≢ fd → close fd (f ∷ fds) ≡ f ∷ close fd fds
unfolding close
close_tail fd f fds ne = let other : (f == fd) ≡ false = ground arith in rw other refl

-- Two pipes and a connection: descriptors that the system has just opened.
pub record AreFresh (connfd r₁ w₁ r₂ w₂ : ℕ) : Type 0 where
  pub r₂r₁ : r₂ ≢ r₁
  pub r₂w₁ : r₂ ≢ w₁
  pub r₂w₂ : r₂ ≢ w₂
  pub r₂c : r₂ ≢ connfd
  pub w₂r₁ : w₂ ≢ r₁
  pub w₂w₁ : w₂ ≢ w₁
  pub r₁w₁ : r₁ ≢ w₁
  pub w₁c : w₁ ≢ connfd

-- The parent's ends stay open, the child's ends and the connection are closed.
close_child_ends :
    (connfd r₁ w₁ r₂ w₂ : ℕ) (fds : List ℕ)
    → AreFresh connfd r₁ w₁ r₂ w₂
    → close connfd (close w₂ (close r₁ (r₂ ∷ w₂ ∷ r₁ ∷ w₁ ∷ connfd ∷ fds))) ≡ r₂ ∷ w₁ ∷ fds
close_child_ends connfd r₁ w₁ r₂ w₂ fds n =
    rw
      (
        close_tail r₁ r₂ (w₂ ∷ r₁ ∷ w₁ ∷ connfd ∷ fds) n.r₂r₁,
        close_tail r₁ w₂ (r₁ ∷ w₁ ∷ connfd ∷ fds) n.w₂r₁,
        close_head r₁ (w₁ ∷ connfd ∷ fds),
        close_tail w₂ r₂ (w₂ ∷ w₁ ∷ connfd ∷ fds) n.r₂w₂,
        close_head w₂ (w₁ ∷ connfd ∷ fds),
        close_tail connfd r₂ (w₁ ∷ connfd ∷ fds) n.r₂c,
        close_tail connfd w₁ (connfd ∷ fds) n.w₁c,
        close_head connfd fds,
      )
      refl

close_pipe : (r w : ℕ) (fds : List ℕ) → r ≢ w → close w (close r (r ∷ w ∷ fds)) ≡ fds
close_pipe r w fds ne = rw (close_head r (w ∷ fds)) (close_head w fds)

close_pipes :
    (r₁ w₁ r₂ w₂ : ℕ) (fds : List ℕ)
    → r₂ ≢ r₁
    → r₂ ≢ w₁
    → w₂ ≢ r₁
    → w₂ ≢ w₁
    → close w₂ (close r₂ (close w₁ (close r₁ (r₂ ∷ w₂ ∷ r₁ ∷ w₁ ∷ fds)))) ≡ fds
close_pipes r₁ w₁ r₂ w₂ fds a b c d =
    rw
      (
        close_tail r₁ r₂ (w₂ ∷ r₁ ∷ w₁ ∷ fds) a,
        close_tail r₁ w₂ (r₁ ∷ w₁ ∷ fds) c,
        close_head r₁ (w₁ ∷ fds),
        close_tail w₁ r₂ (w₂ ∷ w₁ ∷ fds) b,
        close_tail w₁ w₂ (w₁ ∷ fds) d,
        close_head w₁ fds,
        close_head r₂ (w₂ ∷ fds),
      )
      (close_head w₂ fds)

-- The child's entry once the slot is taken: it is used, and has the peer's address.
abbrev pub taken : Option (List ℕ × List ℕ) → Child → Child
taken peer here = set_peer peer (record here { used = 1 })

-- The handler when the first idle child stands between these.
module _ (server : Server) (before : List Child) (here : Child) (after : List Child)
    (busy : All IsBusy before) (idle : here.used ≡ 0) where
  abbrev with_table : Child → Server
  with_table c = record server { childs = before ++ c ∷ after }

  update-slot :
      (s : Server) (c d : Child)
      → update (record s { childs = before ++ c ∷ after }) (length before) d
        ≡ record s { childs = before ++ d ∷ after }
  unfolding update
  update-slot s c d = ap (λ (l : List Child). record s { childs = l }) (set-middle before c after d)

  accept-first :
      (calls : Calls)
      → accept_client calls (with_table here)
        ≡ some (
            first_pipe calls (length before) (taken calls.peer here) (record server {
              childs = before ++ taken calls.peer here ∷ after;
              open_fds = calls.connfd ∷ server.open_fds;
            }))
  unfolding accept_client accept_into get_idle_idx_from_childs
  accept-first calls =
      let start : get_idle_idx (before ++ here ∷ after) 0 ≡ some (length before) =
        idle_with before here after 0 busy idle ∙ ap some (omega arith) in
      let opened : Server = record server { open_fds = calls.connfd ∷ server.open_fds } in
      ap (accept_into calls (record opened { childs = before ++ here ∷ after })) start
      ∙ rw (get_elem?-middle before here after, accept_into)
          (ap (λ (s : Server). some (first_pipe calls (length before) (taken calls.peer here) s))
            (update-slot opened here (taken calls.peer here)))

  module _ (connfd r₁ w₁ r₂ w₂ : ℕ) (peer : Option (List ℕ × List ℕ)) where
    -- The calls of a connection: what each of them returns, in order.
    abbrev pub calls_of :
        Option (ℕ × ℕ) → Option (ℕ × ℕ) → Option (List ℕ) → Option ℕ → Bool → Calls
    calls_of pipe1 pipe2 unique_id fork epoll_ctl = record {
      connfd = connfd;
      peer = peer;
      pipe1 = pipe1;
      pipe2 = pipe2;
      unique_id = unique_id;
      fork = fork;
      epoll_ctl = epoll_ctl;
    }

    pub accept_starts :
        (sid : List ℕ) (f : ℕ) (watch : Bool)
        → AreFresh connfd r₁ w₁ r₂ w₂
        → accept_client
            (calls_of (some (r₁, w₁)) (some (r₂, w₂)) (some sid) (some f) watch)
            (with_table here)
          ≡ some (record server {
            childs =
                before
                ++ record (taken peer here) {
                  sid = sid;
                  pid = some f;
                  pfd_r = some r₂;
                  pfd_w = some w₁;
                }
                  ∷ after;
            open_fds = r₂ ∷ w₁ ∷ server.open_fds;
            watched = if watch then r₂ ∷ server.watched else server.watched;
            epoll_num_running = more_one server.epoll_num_running;
          })
    unfolding first_pipe second_pipe name_child fork_child add_child update
    accept_starts sid f watch fresh =
        accept-first (calls_of (some (r₁, w₁)) (some (r₂, w₂)) (some sid) (some f) watch)
        ∙ rw
            (
              set-middle before (taken peer here) after (record (taken peer here) { sid = sid }),
              set-middle before (record (taken peer here) { sid = sid }) after
                  (record (taken peer here) {
                    sid = sid;
                    pid = some f;
                    pfd_r = some r₂;
                    pfd_w = some w₁;
                  }),
              close_child_ends connfd r₁ w₁ r₂ w₂ server.open_fds fresh,
            )
            refl

    -- What every failure leaves: the slot is taken for good, and the connection stays open.
    abbrev pub leaked : Child → Server
    leaked c = record server {
      childs = before ++ c ∷ after;
      open_fds = connfd ∷ server.open_fds;
      refused = connfd ∷ server.refused;
    }

    pub accept_no_pipe :
        (pipe2 : Option (ℕ × ℕ)) (sid : Option (List ℕ)) (f : Option ℕ) (watch : Bool)
        → accept_client (calls_of none pipe2 sid f watch) (with_table here)
          ≡ some (leaked (taken peer here))
    unfolding first_pipe write_error
    accept_no_pipe pipe2 sid f watch = accept-first (calls_of none pipe2 sid f watch)

    pub accept_one_pipe :
        (sid : Option (List ℕ)) (f : Option ℕ) (watch : Bool)
        → AreFresh connfd r₁ w₁ r₂ w₂
        → accept_client (calls_of (some (r₁, w₁)) none sid f watch) (with_table here)
          ≡ some (leaked (taken peer here))
    unfolding first_pipe second_pipe write_error
    accept_one_pipe sid f watch fresh =
        accept-first (calls_of (some (r₁, w₁)) none sid f watch)
        ∙ rw (close_pipe r₁ w₁ (connfd ∷ server.open_fds) fresh.r₁w₁) refl

    pub accept_no_id :
        (f : Option ℕ) (watch : Bool)
        → AreFresh connfd r₁ w₁ r₂ w₂
        → accept_client (calls_of (some (r₁, w₁)) (some (r₂, w₂)) none f watch) (with_table here)
          ≡ some (leaked (taken peer here))
    unfolding first_pipe second_pipe name_child write_error
    accept_no_id f watch n =
        accept-first (calls_of (some (r₁, w₁)) (some (r₂, w₂)) none f watch)
        ∙ rw (close_pipes r₁ w₁ r₂ w₂ (connfd ∷ server.open_fds) n.r₂r₁ n.r₂w₁ n.w₂r₁ n.w₂w₁) refl

    pub accept_no_fork :
        (sid : List ℕ) (watch : Bool)
        → AreFresh connfd r₁ w₁ r₂ w₂
        → accept_client
            (calls_of (some (r₁, w₁)) (some (r₂, w₂)) (some sid) none watch)
            (with_table here)
          ≡ some (leaked (record (taken peer here) { sid = sid }))
    unfolding first_pipe second_pipe name_child fork_child write_error update
    accept_no_fork sid watch n =
        accept-first (calls_of (some (r₁, w₁)) (some (r₂, w₂)) (some sid) none watch)
        ∙ rw
            (
              set-middle before (taken peer here) after (record (taken peer here) { sid = sid }),
              close_pipes r₁ w₁ r₂ w₂ (connfd ∷ server.open_fds) n.r₂r₁ n.r₂w₁ n.w₂r₁ n.w₂w₁,
            )
            refl
