-- ===== src/Ctutils/Tests.antt =====
-- ctserver/src/ctutils.c: runs at concrete inputs.
use carrots.Base.{ℕ, ◌+◌, ◌≡◌, refl, List, [], ◌∷◌, Option, none, some, ltb, if◌then◌else◌, arith}
use carrots.Ctutils.{Fds, take_descriptors, create_unique_id, hex_digit, byte_copy}
use carrots.Ctutils.Move.{IsLowest, HasTaken, without_ends, take_descriptors-HasTaken}
use carrots.Ctutils.Bytes.{create_unique_id-injective}

-- The descriptor that is asked for, when it is free.
abbrev free_at : Option ℕ → ℕ → Option ℕ
free_at none to = some to
free_at (some file) to = none

abbrev dup_there : Fds → ℕ → Option ℕ
dup_there fds to = free_at (fds to) to

free_at-same : (file : Option ℕ) (to d : ℕ) → free_at file to ≡ some d → to ≡ d
free_at-same none to d e = cc
free_at-same (some file) to d e = absurd cc

dup_there-IsLowest : IsLowest dup_there
dup_there-IsLowest = record {
  lowest = λ fds to d e.
      let same = free_at-same (fds to) to d e in
      (omega arith, λ k above below. absurd (omega arith));
  gives = λ fds to free. (to, rw free refl);
}

-- Descriptor 3 listens, 4 is the connection, 5 to 8 are the ends of the pipes.
abbrev open_fds : Fds
open_fds x = if ltb x 9 then some (100 + x) else none

take_descriptors-HasTaken_example :
    HasTaken 4 5 8 104 105 108
      (without_ends 3 (5, 6) (7, 8) open_fds)
      (take_descriptors dup_there 3 4 (5, 6) (7, 8) open_fds)
take_descriptors-HasTaken_example =
    take_descriptors-HasTaken dup_there 3 4 (5, 6) (7, 8) open_fds 104 105 108 dup_there-IsLowest
      (omega arith) (omega arith) (omega arith)
      (omega arith, (omega arith, (omega arith, (omega arith, (omega arith, tt)))))
      (omega arith, (omega arith, (omega arith, (omega arith, tt))))
      (omega arith, (omega arith, (omega arith, tt))) refl refl refl

-- The bytes 10 and 255 give "0AFF".
create_unique_id_test : create_unique_id (10 ∷ 255 ∷ []) ≡ 48 ∷ 65 ∷ 70 ∷ 70 ∷ []
unfolding create_unique_id hex_digit
create_unique_id_test = refl

create_unique_id-injective_example : ◌≡◌ {A = List ℕ} (10 ∷ 255 ∷ []) (10 ∷ 255 ∷ [])
create_unique_id-injective_example =
    create_unique_id-injective (10 ∷ 255 ∷ []) (10 ∷ 255 ∷ []) (omega arith, (omega arith, tt))
      (omega arith, (omega arith, tt)) refl

byte_copy_test : byte_copy (1 ∷ 2 ∷ 3 ∷ []) 2 (7 ∷ 8 ∷ []) ≡ some (7 ∷ 8 ∷ 3 ∷ [])
unfolding byte_copy
byte_copy_test = refl
