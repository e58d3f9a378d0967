-- ===== src/Mfile/Invariant.antt =====
-- libmfile/mfile.c: when a handler is well formed for writing and for reading.
use carrots.Base.{none, false, ◌⊎◌, ℕ, ◌<◌, ◌≤◌, ◌≡◌, List, [], ◌∷◌, ◌++◌, some, false, length, All}
use carrots.Mfile.{DataBlock, Mfile, current_write_count}

abbrev pub Fits : ℕ → DataBlock → Type 0
Fits size b = current_write_count b ≤ size

abbrev pub IsFilled : DataBlock → Type 0
IsFilled b = 0 < current_write_count b

-- The last block has room, and `current_write_p` points to it.
pub record HasRoom (h : Mfile) : Type 0 where
  pub before : List DataBlock
  pub last : DataBlock
  pub whole : h.head ≡ before ++ last ∷ []
  pub pointer : h.current_write_p ≡ some (length before)
  pub room : current_write_count last < h.data_block_size

-- No block overflows, the blocks are counted, and a handler that is not full has room at its tail.
pub record IsValid (h : Mfile) : Type 0 where
  pub positive : 0 < h.data_block_size
  pub counted : h.block_num ≡ length h.head
  pub fits : All (Fits h.data_block_size) h.head
  pub tail_room : h.is_full ≡ false → HasRoom h

-- A block that no read has touched, and that holds something.
abbrev pub IsFresh : DataBlock → Type 0
IsFresh b = (b.current_read_count ≡ 0) × (0 < current_write_count b)

-- The reader has not started.
pub record AtStart (h : Mfile) : Type 0 where
  pub pointer : h.current_read_p ≡ none
  pub undrained : h.is_empty ≡ false
  pub fresh : All IsFresh h.head

-- The reader is at a block; it is inside of it unless the block is marked as drained.
pub record AtBlock (h : Mfile) : Type 0 where
  pub before : List DataBlock
  pub here : DataBlock
  pub after : List DataBlock
  pub whole : h.head ≡ before ++ here ∷ after
  pub pointer : h.current_read_p ≡ some (length before)
  pub fresh : All IsFresh after
  pub inside : h.is_empty ≡ false → here.current_read_count < current_write_count here

-- No block between the reader and the end of the file stops a read early.
abbrev pub IsReadable : Mfile → Type 0
IsReadable h = AtStart h ⊎ AtBlock h
