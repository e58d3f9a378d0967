-- ===== src/Ctutils/Move.antt =====
-- ctserver/src/ctutils.c and ctserver.c: which files are behind the descriptors after the moves.
use carrots.Base.{
  ℕ, ◌≤◌, ◌<◌, ◌≡◌, ◌≢◌, ◌⊎◌, refl, sym, ap, subst, ◌∙◌, List, [], ◌∷◌, All, if◌then◌else◌, Option,
  none, some, true, false, ◌==◌, ==_iff, inl, inr, Bool-cases, arith,
}
use carrots.Ctutils.{Fds, FdResult, close_fd, put_fd, fd_copy, fd_move, and_move, take_descriptors}

-- F_DUPFD gives the lowest free descriptor from the given one on, and it gives one when that is free.
pub record IsLowest (dup : Fds → ℕ → Option ℕ) : Type 0 where
  pub lowest :
      (fds : Fds) (to d : ℕ)
      → dup fds to ≡ some d
      → (to ≤ d) × ((k : ℕ) → to ≤ k → k < d → fds k ≢ none)
  pub gives : (fds : Fds) (to : ℕ) → fds to ≡ none → (d : ℕ) × (dup fds to ≡ some d)

same : (x : ℕ) → (x == x) ≡ true
same x = (==_iff x x).1 refl

other : (x y : ℕ) → x ≢ y → (x == y) ≡ false
other x y ne = ground arith

-- What a move leaves.
pub record HasMoved (to from file : ℕ) (fds : Fds) (m : FdResult) : Type 0 where
  pub ok : m.ok ≡ true
  pub moved : m.fds to ≡ some file
  pub closed : m.fds from ≡ none
  pub kept : (x : ℕ) → x ≢ to → x ≢ from → m.fds x ≡ fds x

-- The first of a range of numbers, or a later one.
lt-cases : (a b : ℕ) → a ≤ b → (b ≡ a) ⊎ (a < b)
lt-cases a b h = elim (Bool-cases (a == b)) [
  | inl e ↦ inl (sym ((==_iff a b).0 e))
  | inr e ↦ inr (ground arith)
]

dup-to :
    {dup : Fds → ℕ → Option ℕ}
    → IsLowest dup
    → (fds : Fds) (to : ℕ) → fds to ≡ none
    → dup fds to ≡ some to
dup-to l fds to free =
    let (d, gives) = l.gives fds to free in
    let (above, taken) = l.lowest fds to d gives in
    elim (lt-cases to d above) [
      | inl e ↦ gives ∙ ap some e
      | inr below ↦ absurd (taken to (omega arith) below free)
    ]

fd_move-HasMoved :
    {dup : Fds → ℕ → Option ℕ}
    → IsLowest dup
    → (fds : Fds) (to from file : ℕ) → to ≢ from
    → fds from ≡ some file
    → HasMoved to from file fds (fd_move dup to from fds)
unfolding fd_move fd_copy put_fd close_fd
fd_move-HasMoved {dup} l fds to from file ne open_file =
    let apart = other to from ne in
    let apart₂ = other from to (λ e. ne (sym e)) in
    let got = dup-to l (close_fd to fds) to (rw (same to) refl) in
    record {
      ok = rw (apart, open_file, got) refl;
      moved = rw (apart, open_file, got, same to, apart₂) (rw (apart, open_file) refl);
      closed = rw (apart, open_file, got, same from) refl;
      kept = λ x a b. rw (apart, open_file, got, other x to a, other x from b) refl;
    }

abbrev pub DifferFrom : List ℕ → ℕ → Type 0
DifferFrom ys x = All (λ y. x ≢ y) ys

-- The descriptors without the ends that the child does not use.
unfoldable pub without_ends : ℕ → (ℕ × ℕ) → (ℕ × ℕ) → Fds → Fds
without_ends listen_fd pi1 pi2 fds = close_fd listen_fd (close_fd pi2.0 (close_fd pi1.1 fds))

without_ends-other :
    (listen_fd : ℕ) (pi1 pi2 : ℕ × ℕ) (fds : Fds) (x : ℕ)
    → DifferFrom (listen_fd ∷ pi2.0 ∷ pi1.1 ∷ []) x
    → without_ends listen_fd pi1 pi2 fds x ≡ fds x
unfolding without_ends close_fd
without_ends-other listen_fd pi1 pi2 fds x d =
    rw (other x listen_fd d.0, other x pi2.0 d.1.0, other x pi1.1 d.1.1.0) refl

-- What the child has when it starts its program.
pub record HasTaken (connfd in_fd out_fd socket input output : ℕ) (left : Fds) (m : FdResult)
    : Type 0 where
  pub ok : m.ok ≡ true
  pub error_end : m.fds 2 ≡ some socket
  pub input_end : m.fds 0 ≡ some input
  pub output_end : m.fds 1 ≡ some output
  pub closed : (m.fds connfd ≡ none) × (m.fds in_fd ≡ none) × (m.fds out_fd ≡ none)
  pub kept : (x : ℕ) → 3 ≤ x → DifferFrom (connfd ∷ in_fd ∷ out_fd ∷ []) x → m.fds x ≡ left x

and_move-HasMoved :
    {dup : Fds → ℕ → Option ℕ}
    → IsLowest dup
    → (m : FdResult) (to from file : ℕ) → m.ok ≡ true
    → to ≢ from
    → m.fds from ≡ some file
    → HasMoved to from file m.fds (and_move dup to from m)
unfolding and_move
and_move-HasMoved {dup} l m to from file ok ne open_file =
    subst (λ b. HasMoved to from file m.fds (if b then fd_move dup to from m.fds else m)) (sym ok)
      (fd_move-HasMoved l m.fds to from file ne open_file)

three_moves :
    {dup : Fds → ℕ → Option ℕ}
    → IsLowest dup
    → (left : Fds) (connfd in_fd out_fd socket input output : ℕ) → 3 ≤ connfd
    → 3 ≤ in_fd
    → 3 ≤ out_fd
    → connfd ≢ in_fd
    → connfd ≢ out_fd
    → in_fd ≢ out_fd
    → left connfd ≡ some socket
    → left in_fd ≡ some input
    → left out_fd ≡ some output
    → HasTaken connfd in_fd out_fd socket input output left
        (and_move dup 1 out_fd (and_move dup 0 in_fd (fd_move dup 2 connfd left)))
three_moves {dup} l left connfd in_fd out_fd socket input output a b c d e f open1 open2 open3 =
    let n1 = fd_move dup 2 connfd left in
    let n2 = and_move dup 0 in_fd n1 in
    let m1 = fd_move-HasMoved l left 2 connfd socket (omega arith) open1 in
    let open2' = m1.kept in_fd (omega arith) (omega arith) ∙ open2 in
    let m2 = and_move-HasMoved l n1 0 in_fd input m1.ok (omega arith) open2' in
    let open3' =
      m2.kept out_fd (omega arith) (omega arith)
      ∙ m1.kept out_fd (omega arith) (omega arith)
      ∙ open3 in
    let m3 = and_move-HasMoved l n2 1 out_fd output m2.ok (omega arith) open3' in
    record {
      ok = m3.ok;
      error_end =
          m3.kept 2 (omega arith) (omega arith) ∙ m2.kept 2 (omega arith) (omega arith) ∙ m1.moved;
      input_end = m3.kept 0 (omega arith) (omega arith) ∙ m2.moved;
      output_end = m3.moved;
      closed = (
        m3.kept connfd (omega arith) e ∙ m2.kept connfd (omega arith) d ∙ m1.closed,
        m3.kept in_fd (omega arith) f ∙ m2.closed,
        m3.closed,
      );
      kept = λ x above differs.
          m3.kept x (omega arith) differs.1.1.0
          ∙ m2.kept x (omega arith) differs.1.0
          ∙ m1.kept x (omega arith) differs.0;
    }

-- Behind fork, when the descriptors of the connection and of the two pipe ends that the child uses
-- are open, are at least 3 and differ from each other and from those that are closed, and F_DUPFD
-- gives the lowest free descriptor: all three moves succeed, 2, 0 and 1 stand for the connection,
-- the input and the output, the three old descriptors are closed, and every other from 3 on is as
-- it was once the ends that the child does not use are closed.
pub take_descriptors-HasTaken :
    (dup : Fds → ℕ → Option ℕ) (listen_fd connfd : ℕ) (pi1 pi2 : ℕ × ℕ) (fds : Fds)
    (socket input output : ℕ)
    → IsLowest dup
    → 3 ≤ connfd
    → 3 ≤ pi1.0
    → 3 ≤ pi2.1
    → DifferFrom (pi1.0 ∷ pi2.1 ∷ listen_fd ∷ pi2.0 ∷ pi1.1 ∷ []) connfd
    → DifferFrom (pi2.1 ∷ listen_fd ∷ pi2.0 ∷ pi1.1 ∷ []) pi1.0
    → DifferFrom (listen_fd ∷ pi2.0 ∷ pi1.1 ∷ []) pi2.1
    → fds connfd ≡ some socket
    → fds pi1.0 ≡ some input
    → fds pi2.1 ≡ some output
    → HasTaken connfd pi1.0 pi2.1 socket input output
        (without_ends listen_fd pi1 pi2 fds)
        (take_descriptors dup listen_fd connfd pi1 pi2 fds)
unfolding take_descriptors without_ends
take_descriptors-HasTaken dup listen_fd connfd pi1 pi2 fds socket input output l a b c d e f open1
      open2 open3 =
    let rest = without_ends-other listen_fd pi1 pi2 fds in
    three_moves l (without_ends listen_fd pi1 pi2 fds) connfd pi1.0 pi2.1 socket input output a b c
      d.0 d.1.0 e.0 (rest connfd d.1.1 ∙ open1) (rest pi1.0 e.1 ∙ open2) (rest pi2.1 f ∙ open3)
