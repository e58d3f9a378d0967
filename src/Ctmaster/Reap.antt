-- ===== src/Ctmaster/Reap.antt =====
-- ctprocesslog/ctmaster.c: a child from `process_via_child` to `sigchld_exit`.
use carrots.Base.{
  ℕ, suc, ◌+◌, ◌≡◌, ◌⊎◌, refl, ap, ◌∙◌, inl, inr, List, [], ◌∷◌, ◌++◌, Option, none, some, false,
  ◌==◌, ==_iff, Bool-cases, length, All, arith, get_elem?-middle, set-middle,
}
use carrots.Ctmaster.{
  Worker, idle_worker, idle_from, get_idle_idx_from_childs_t, has_pid, reap, sigchld_exit,
  fork_until, record_child, process_via_child,
}

abbrev pub IsTaken : Worker → Type 0
IsTaken w = (w.used == 0) ≡ false

-- The first idle entry of the table.
pub record Vacant (childs : List Worker) : Type 0 where
  pub before : List Worker
  pub here : Worker
  pub after : List Worker
  pub whole : childs ≡ before ++ here ∷ after
  pub taken : All IsTaken before
  pub idle : here.used ≡ 0

vacant : (childs : List Worker) → All IsTaken childs ⊎ Vacant childs
vacant [] = inl tt
vacant (w ∷ ws) = elim (Bool-cases (w.used == 0)) [
  | inl on ↦ inr (record {
    before = [];
    here = w;
    after = ws;
    whole = refl;
    taken = tt;
    idle = (==_iff w.used 0).0 on;
  })
  | inr off ↦ elim (vacant ws) [
    | inl all ↦ inl (off, all)
    | inr v ↦ inr (record {
      before = w ∷ v.before;
      here = v.here;
      after = v.after;
      whole = ap (◌∷◌ w) v.whole;
      taken = (off, v.taken);
      idle = v.idle;
    })
  ]
]

idle_from-none : (childs : List Worker) (i : ℕ) → All IsTaken childs → idle_from childs i ≡ none
unfolding idle_from
idle_from-none [] i t = refl
idle_from-none (w ∷ ws) i t = rw (t.0) (idle_from-none ws (suc i) t.1)

idle_from-first :
    (before : List Worker) (here : Worker) (after : List Worker) (i : ℕ)
    → All IsTaken before
    → here.used ≡ 0
    → idle_from (before ++ here ∷ after) i ≡ some (i + length before)
unfolding idle_from
idle_from-first [] here after i t idle = rw idle (ap some (omega arith))
idle_from-first (w ∷ ws) here after i t idle =
    rw (t.0) (idle_from-first ws here after (suc i) t.1 idle ∙ ap some (omega arith))

abbrev pub started : ℕ → Worker
started pid = record { used = 1; pid = some pid }

record_child-first :
    (pid : ℕ) (before : List Worker) (here : Worker) (after : List Worker)
    → record_child (some (length before)) pid (before ++ here ∷ after)
      ≡ some (before ++ started pid ∷ after)
unfolding record_child
record_child-first pid before here after =
    rw (get_elem?-middle before here after, set-middle before here after (started pid)) refl

process_first :
    (forks : List (Option ℕ)) (pid : ℕ) (before : List Worker) (here : Worker) (after : List Worker)
    → fork_until forks ≡ some pid
    → All IsTaken before
    → here.used ≡ 0
    → process_via_child forks (before ++ here ∷ after) ≡ some (before ++ started pid ∷ after)
unfolding process_via_child get_idle_idx_from_childs_t
process_first forks pid before here after forked t idle = rw (forked) (
    ap (λ (o : Option ℕ). record_child o pid (before ++ here ∷ after))
      (idle_from-first before here after 0 t idle ∙ ap some (omega arith))
    ∙ record_child-first pid before here after)

-- process_via_child, once a fork succeeds: the first idle entry is the new process; without an
-- idle entry the code writes in front of the table.
pub process_via_child_cases :
    (forks : List (Option ℕ)) (pid : ℕ) (childs : List Worker)
    → fork_until forks ≡ some pid
    → (All IsTaken childs × (process_via_child forks childs ≡ none))
      ⊎ ((v : Vacant childs) × (process_via_child forks childs
            ≡ some (v.before ++ started pid ∷ v.after)))
unfolding process_via_child get_idle_idx_from_childs_t record_child
process_via_child_cases forks pid childs forked = elim (vacant childs) [
  | inl all ↦ inl (
    all,
    rw (forked) (ap (λ (o : Option ℕ). record_child o pid childs) (idle_from-none childs 0 all)),
  )
  | inr v ↦ inr (
    v,
    ap (process_via_child forks) v.whole
        ∙ process_first forks pid v.before v.here v.after forked v.taken v.idle,
  )
]

abbrev pub IsOther : ℕ → Worker → Type 0
IsOther pid w = has_pid pid w ≡ false

reap_first :
    (pid : ℕ) (before : List Worker) (after : List Worker)
    → All (IsOther pid) before
    → reap pid (before ++ started pid ∷ after) ≡ before ++ idle_worker ∷ after
unfolding reap has_pid
reap_first pid [] after others = rw ((==_iff pid pid).1 refl) refl
reap_first pid (w ∷ ws) after others = rw (others.0) (ap (◌∷◌ w) (reap_first pid ws after others.1))

-- A process that process_via_child starts in the first entry that is idle, with an id that no
-- entry before it has, and whose exit sigchld_exit then takes: the table is as it was.
pub process_via_child-sigchld_exit :
    (forks : List (Option ℕ)) (pid : ℕ) (before after : List Worker)
    → fork_until forks ≡ some pid
    → All IsTaken before
    → All (IsOther pid) before
    → (childs : List Worker) × (process_via_child forks (before ++ idle_worker ∷ after)
        ≡ some childs)
      × (sigchld_exit (pid ∷ []) childs ≡ before ++ idle_worker ∷ after)
unfolding sigchld_exit
process_via_child-sigchld_exit forks pid before after forked t others = (
  before ++ started pid ∷ after,
  process_first forks pid before idle_worker after forked t refl,
  reap_first pid before after others,
)
