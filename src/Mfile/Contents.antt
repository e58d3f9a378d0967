-- ===== src/Mfile/Contents.antt =====
-- libmfile/mfile.c: the bytes that a queue of blocks holds, and those that a reader has before it.
use carrots.Base.{
  get_elem?-middle, ℕ, suc, ◌≡◌, refl, ap, List, [], ◌∷◌, ◌++◌, append_assoc, append-nil, Option,
  none, some, Bool, true, false, length, drop,
}
use carrots.Mfile.{DataBlock, Mfile, rewind_blocks, block_at}

-- All bytes of the file, in order.
abbrev pub contents : List DataBlock → List ℕ
contents [] = []
contents (b ∷ bs) = b.written ++ contents bs

-- The bytes from each block's read count on.
abbrev pub pending : List DataBlock → List ℕ
pending [] = []
pending (b ∷ bs) = drop b.current_read_count b.written ++ pending bs

abbrev unread_from : List DataBlock → Option ℕ → Bool → List ℕ
unread_from bs none drained = pending bs
unread_from bs (some p) false = pending (drop p bs)
unread_from bs (some p) true = pending (drop (suc p) bs)

-- What is left to read: a drained block is left behind, whatever it holds.
abbrev pub unread : Mfile → List ℕ
unread h = unread_from h.head h.current_read_p h.is_empty

pub contents-append : (xs ys : List DataBlock) → contents (xs ++ ys) ≡ contents xs ++ contents ys
contents-append [] ys = refl
contents-append (b ∷ xs) ys = rw (contents-append xs ys, append_assoc)

pub contents-snoc :
    (xs : List DataBlock) (b : DataBlock) → contents (xs ++ b ∷ []) ≡ contents xs ++ b.written
contents-snoc xs b = rw (contents-append, append-nil)

pub contents-rewind : (bs : List DataBlock) → contents (rewind_blocks bs) ≡ contents bs
unfolding rewind_blocks
contents-rewind [] = refl
contents-rewind (b ∷ bs) = ap (◌++◌ b.written) (contents-rewind bs)

-- A rewound queue has everything before its reader.
pub pending-rewind : (bs : List DataBlock) → pending (rewind_blocks bs) ≡ contents bs
unfolding rewind_blocks
pending-rewind [] = refl
pending-rewind (b ∷ bs) = ap (◌++◌ b.written) (pending-rewind bs)

pub length-rewind : (bs : List DataBlock) → length (rewind_blocks bs) ≡ length bs
unfolding rewind_blocks
length-rewind [] = refl
length-rewind (b ∷ bs) = ap suc (length-rewind bs)

pub drop-middle {ℓ} : {A : Type ℓ} (xs ys : List A) → drop (length xs) (xs ++ ys) ≡ ys
drop-middle [] ys = refl
drop-middle (x ∷ xs) ys = drop-middle xs ys

-- A pointer to a block of the queue, followed.
pub block_at-middle :
    (xs : List DataBlock) (b : DataBlock) (ys : List DataBlock)
    → block_at (xs ++ b ∷ ys) (some (length xs)) ≡ some (length xs, b)
unfolding block_at
block_at-middle xs b ys = rw (get_elem?-middle xs b ys, block_at)
