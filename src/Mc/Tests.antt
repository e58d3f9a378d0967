-- ===== src/Mc/Tests.antt =====
-- ctapi_mc/ctapi_mc.c: runs at concrete inputs.
use carrots.Base.{ℕ, ◌<◌, ◌≤◌, ◌≡◌, ◌⊎◌, refl, List, [], ◌∷◌, some, true, length, replicate, arith}
use carrots.Mc.{
  not_found, Replies, created, no_block_set, timeout_set, appended, pushed, list_freed, set_value,
  freed, set_mc, get_mc, delete_mc,
}
use carrots.Mc.Calls.{IsBalanced, mc-IsBalanced, set_mc-length}

abbrev reachable : Replies
reachable = record {
  creates = true;
  appends = true;
  pushes = true;
  answer = not_found;
  value = some (7 ∷ []);
}

abbrev long_value : List ℕ
long_value = replicate 130 65

mc-IsBalanced_example :
    IsBalanced (set_mc reachable (1 ∷ []) (2 ∷ 3 ∷ []))
    × IsBalanced (get_mc reachable (1 ∷ []))
    × IsBalanced (delete_mc reachable (1 ∷ []))
mc-IsBalanced_example = mc-IsBalanced reachable (1 ∷ []) (2 ∷ 3 ∷ []) refl

set_mc-length_example :
    (ret n : ℕ) × (set_mc reachable (1 ∷ []) long_value
      ≡ some (
        ret,
        created
            ∷ no_block_set
            ∷ timeout_set
            ∷ appended
            ∷ pushed
            ∷ list_freed
            ∷ set_value (1 ∷ []) long_value n
            ∷ freed
            ∷ [],
      ))
    × (((length long_value < 128) × (n ≡ length long_value))
        ⊎ ((128 ≤ length long_value) × (length long_value < n)))
set_mc-length_example = set_mc-length reachable (1 ∷ []) long_value refl refl refl (omega arith)
