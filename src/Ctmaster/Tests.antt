-- ===== src/Ctmaster/Tests.antt =====
-- ctprocesslog/ctmaster.c and ctutils.c: runs at concrete inputs.
use carrots.Base.{ℕ, ◌≡◌, refl, List, [], ◌∷◌, none, some, Bool, true}
use carrots.Ctmaster.{
  Worker, idle_worker, has_pid, fork_until, process_via_child, sigchld_exit, exists, dir_loop,
  is_dir_exits,
}
use carrots.Ctmaster.Reap.{started, process_via_child-sigchld_exit}

abbrev mkdir : List ℕ → Bool
mkdir path = true

-- The path a/b: a is made, b is not.
abbrev path : List ℕ
path = 97 ∷ 47 ∷ 98 ∷ []

made_one : is_dir_exits mkdir path [] ≡ some (0, (97 ∷ []) ∷ [])
unfolding is_dir_exits dir_loop exists
made_one = refl

process_via_child-sigchld_exit_example :
    (childs : List Worker) × (process_via_child (none ∷ some 8 ∷ []) (started 7 ∷ idle_worker ∷ [])
      ≡ some childs)
    × (sigchld_exit (8 ∷ []) childs ≡ started 7 ∷ idle_worker ∷ [])
unfolding fork_until has_pid
process_via_child-sigchld_exit_example =
    process_via_child-sigchld_exit (none ∷ some 8 ∷ []) 8 (started 7 ∷ []) [] refl (refl, tt)
      (refl, tt)
