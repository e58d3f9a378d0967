-- ===== src/Ctserver/Table.antt =====
-- ctserver/src/ctserver.c: the two searches of the table of children.
use carrots.Base.{
  ℕ, suc, ◌+◌, ◌≡◌, ◌⊎◌, refl, ap, ◌∙◌, inl, inr, List, [], ◌∷◌, ◌++◌, none, some, true, false,
  ◌==◌, ==_iff, ◌&&◌, Bool-cases, length, All, arith,
}
use carrots.Ctserver.{
  Child, get_idle_idx, get_idle_idx_from_childs, is_fd, idx_loop, get_idx_with_sockfd,
}

abbrev pub IsBusy : Child → Type 0
IsBusy c = (c.used == 0) ≡ false

-- The first idle child of a table.
pub record Idle (childs : List Child) (i : ℕ) : Type 0 where
  pub before : List Child
  pub here : Child
  pub after : List Child
  pub whole : childs ≡ before ++ here ∷ after
  pub index : i ≡ length before
  pub busy : All IsBusy before
  pub idle : here.used ≡ 0

Idle-loop :
    (childs : List Child) (i : ℕ)
    → ((get_idle_idx childs i ≡ none) × All IsBusy childs)
      ⊎ ((k : ℕ) × (get_idle_idx childs i ≡ some (i + k)) × Idle childs k)
unfolding get_idle_idx
Idle-loop [] i = inl (refl, tt)
Idle-loop (c ∷ cs) i = elim (Bool-cases (c.used == 0)) [
  | inl on ↦ rw on (
      inr (
        0,
        ap some (omega arith),
        record {
          before = [];
          here = c;
          after = cs;
          whole = refl;
          index = refl;
          busy = tt;
          idle = (==_iff c.used 0).0 on;
        },
      ))
  | inr off ↦ elim (Idle-loop cs (suc i)) [
    | inl all ↦ rw off (inl (all.0, (refl, all.1)))
    | inr found ↦
        let (k, stop, r) = found in
        rw off (
          inr (
            suc k,
            stop ∙ ap some (omega arith),
            record {
              before = c ∷ r.before;
              here = r.here;
              after = r.after;
              whole = ap (◌∷◌ c) r.whole;
              index = ap suc r.index;
              busy = (off, r.busy);
              idle = r.idle;
            },
          ))
  ]
]

-- get_idle_idx_from_childs returns -1 when every child is used, else the index of the first child
-- that is not.
pub get_idle_idx_from_childs_cases :
    (childs : List Child)
    → ((get_idle_idx_from_childs childs ≡ none) × All IsBusy childs)
      ⊎ ((i : ℕ) × (get_idle_idx_from_childs childs ≡ some i) × Idle childs i)
unfolding get_idle_idx_from_childs
get_idle_idx_from_childs_cases childs = elim (Idle-loop childs 0) [
  | inl all ↦ inl all
  | inr found ↦ let (k, stop, r) = found in inr (k, stop ∙ ap some (omega arith), r)
]

abbrev pub IsOther : ℕ → Child → Type 0
IsOther fd c = (is_fd c.pfd_r fd && c.used == 1) ≡ false

-- The first used child whose pipe is read on a descriptor.
pub record Reader (fd : ℕ) (childs : List Child) (i : ℕ) : Type 0 where
  pub before : List Child
  pub here : Child
  pub after : List Child
  pub whole : childs ≡ before ++ here ∷ after
  pub index : i ≡ length before
  pub others : All (IsOther fd) before
  pub reads : (is_fd here.pfd_r fd && here.used == 1) ≡ true

Reader-loop :
    (fd : ℕ) (childs : List Child) (i : ℕ)
    → ((idx_loop childs fd i ≡ i + length childs) × All (IsOther fd) childs)
      ⊎ ((k : ℕ) × (idx_loop childs fd i ≡ i + k) × Reader fd childs k)
unfolding idx_loop
Reader-loop fd [] i = inl (omega arith, tt)
Reader-loop fd (c ∷ cs) i = elim (Bool-cases (is_fd c.pfd_r fd && c.used == 1)) [
  | inl on ↦ rw on (
      inr (
        0,
        omega arith,
        record {
          before = [];
          here = c;
          after = cs;
          whole = refl;
          index = refl;
          others = tt;
          reads = on;
        },
      ))
  | inr off ↦ elim (Reader-loop fd cs (suc i)) [
    | inl all ↦ rw off (inl (omega (arith, all.0), (refl, all.1)))
    | inr found ↦
        let (k, stop, r) = found in
        rw off (
          inr (
            suc k,
            omega (arith, stop),
            record {
              before = c ∷ r.before;
              here = r.here;
              after = r.after;
              whole = ap (◌∷◌ c) r.whole;
              index = ap suc r.index;
              others = (off, r.others);
              reads = r.reads;
            },
          ))
  ]
]

-- get_idx_with_sockfd returns the index of the first used child with that descriptor; when there
-- is none it returns the size of the table, which is outside of it, and never -1.
pub get_idx_with_sockfd_cases :
    (childs : List Child) (fd : ℕ)
    → ((get_idx_with_sockfd childs fd ≡ length childs) × All (IsOther fd) childs)
      ⊎ ((i : ℕ) × (get_idx_with_sockfd childs fd ≡ i) × Reader fd childs i)
unfolding get_idx_with_sockfd
get_idx_with_sockfd_cases childs fd = elim (Reader-loop fd childs 0) [
  | inl all ↦ inl (omega (arith, all.0), all.1)
  | inr found ↦ let (k, stop, r) = found in inr (k, omega (arith, stop), r)
]

-- The index of a child that is known to be the first with its descriptor.
pub idx_with-reader :
    (fd : ℕ) (before : List Child) (here : Child) (after : List Child) (i : ℕ)
    → All (IsOther fd) before
    → (is_fd here.pfd_r fd && here.used == 1) ≡ true
    → idx_loop (before ++ here ∷ after) fd i ≡ i + length before
unfolding idx_loop
idx_with-reader fd [] here after i others reads = rw reads (omega arith)
idx_with-reader fd (c ∷ cs) here after i others reads =
    rw (others.0) (idx_with-reader fd cs here after (suc i) others.1 reads ∙ omega arith)
