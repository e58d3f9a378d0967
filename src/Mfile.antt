-- ===== src/Mfile.antt =====
-- libmfile/mfile.c: a growing in-memory file kept as a queue of data blocks.
-- Here are the handler and the operations that open it, write, rewind, seek, read and copy;
-- `Mfile.Line` has the reading by character and by line, `Mfile.Output` the writing to a descriptor.
-- A block pointer is the block's position in the queue, so an insertion at the head shifts it.
pub mod Contents
pub mod Invariant
pub mod Write
pub mod Read
pub mod Seek
pub mod Copy
pub mod Head
pub mod RoundTrip
pub mod Line
pub mod Output
mod Tests
use carrots.Base.{
  ℕ, zero, suc, ◌+◌, ◌-◌, ◌%◌, ◌^◌, min, List, [], ◌∷◌, ◌++◌, Option, none, some, Bool, true, false,
  ltb, leb, ◌==◌, if◌then◌else◌, length, get_elem?, set, take, drop,
}
use carrots.Base.Int.{ℤ, pos, negsuc}

-- `DATA_BLOCK`: the bytes written so far, whose number is `current_write_count` and `data_len`,
-- and `current_read_count`. What lies behind them in the buffer is not initialised.
pub record DataBlock : Type 0 where
  pub written : List ℕ
  pub current_read_count : ℕ

-- `MFILE`. The allocator is an argument of the writes; `MAX_BLOCK_NUMBER` is never used. `total_size` and
-- `new_header_size` are the sums before they wrap around, which is when they are read.
pub record Mfile : Type 0 where
  pub total_size : ℕ
  pub new_header_size : ℕ
  pub head : List DataBlock
  pub block_num : ℕ
  pub current_write_p : Option ℕ
  pub current_read_p : Option ℕ
  pub is_full : Bool
  pub is_empty : Bool
  pub data_block_size : ℕ
  pub ccache : ℕ

abbrev pub current_write_count : DataBlock → ℕ
current_write_count b = length b.written

-- What `mopen` does: the handler is cleared before it is tested for NULL, so a failed allocation
-- is a write through NULL.
pub data Opened : Type 0 where
  refused null_write : Opened
  opened : Mfile → Opened

abbrev pub default_block_size : ℕ
default_block_size = 8888

abbrev pub fresh_handler : ℕ → Mfile
fresh_handler data_block_size = record {
  total_size = 0;
  new_header_size = 0;
  head = [];
  block_num = 0;
  current_write_p = none;
  current_read_p = none;
  is_full = true;
  is_empty = false;
  data_block_size = if data_block_size == 0 then default_block_size else data_block_size;
  ccache = b'\n';
}

-- The flags say whether `af` and `fe` are given, and whether the allocation succeeds.
unfoldable pub mopen : ℕ → Bool → Bool → Bool → Opened
mopen size true false allocated = refused
mopen size false true allocated = refused
mopen size _ _ allocated = if allocated then opened (fresh_handler size) else null_write

-- `current_block->current_write_count` grows by the bytes copied behind the written ones.
abbrev pub append_block : List ℕ → DataBlock → DataBlock
append_block bytes b = record b { written = b.written ++ bytes }

abbrev pub empty_block : DataBlock
empty_block = record { written = []; current_read_count = 0 }

-- A new block at the tail, which becomes `current_write_p`.
abbrev pub add_block : Mfile → Mfile
add_block h = record h {
  block_num = h.block_num + 1;
  current_write_p = some (length h.head);
  head = h.head ++ empty_block ∷ [];
}

-- The head of the loop of `mwrite`: a new block when the last one is full. `alloc k` says whether
-- the two allocations succeed when the handler holds `k` blocks.
unfoldable pub open_block : (ℕ → Bool) → Mfile → Option Mfile
open_block alloc h =
    if h.is_full then (if alloc h.block_num then some (add_block h) else none) else some h

abbrev pub store_block : ℕ → DataBlock → Bool → Mfile → Mfile
store_block p b full h = record h { head = set h.head p b; is_full = full }

-- A block pointer followed: the position and the block; none for NULL.
unfoldable pub block_at : List DataBlock → Option ℕ → Option (ℕ × DataBlock)
block_at bs none = none
block_at bs (some p) = elim (get_elem? bs p) [ none ↦ none | some b ↦ some (p, b) ]

unfoldable pub current_block : Mfile → Option (ℕ × DataBlock)
current_block h = block_at h.head h.current_write_p

-- `while (writed < len)`; the list is what is left of `data`. The result is the return value and
-- the handler; `none` is a NULL block pointer, or fuel that ran out.
unfoldable pub write_loop : (ℕ → Bool) → ℕ → List ℕ → Mfile → Option (ℤ × Mfile)
write_loop alloc zero rest h = none
write_loop alloc (suc fuel) [] h = some (pos 1, h)
write_loop alloc (suc fuel) (c ∷ rest) h = elim (open_block alloc h) [
  | none ↦ some (negsuc 0, h)
  | some h₁ ↦ elim (current_block h₁) [
    | none ↦ none
    | some (p, b) ↦
        let free_count = h₁.data_block_size - current_write_count b in
        let b₁ = append_block (take free_count (c ∷ rest)) b in
        let again = write_loop alloc fuel (drop free_count (c ∷ rest)) (store_block p b₁ true h₁) in
        if leb (length (c ∷ rest)) free_count
        then some (pos 1, store_block p b₁ (current_write_count b₁ == h₁.data_block_size) h₁)
        else again
  ]
]

-- `mwrite`: the length is added to `total_size` before anything is stored.
unfoldable pub mwrite : (ℕ → Bool) → List ℕ → Mfile → Option (ℤ × Mfile)
mwrite alloc bytes h =
    write_loop alloc (suc (length bytes)) bytes
      (record h { total_size = h.total_size + length bytes })

abbrev pub shift_pointer : Option ℕ → Option ℕ
shift_pointer none = none
shift_pointer (some p) = some (suc p)

-- `mwrite_head`: a block of its own before all others.
unfoldable pub mwrite_head : (ℕ → Bool) → List ℕ → Mfile → ℤ × Mfile
mwrite_head alloc bytes h =
    if ltb h.data_block_size (length bytes)
    then (negsuc 0, h)
    else (if alloc h.block_num
        then (
          pos 1,
          record h {
            total_size = h.total_size + length bytes;
            new_header_size = (h.new_header_size + length bytes) % 2 ^ 32;
            block_num = h.block_num + 1;
            head = record { written = bytes; current_read_count = 0 } ∷ h.head;
            current_write_p = shift_pointer h.current_write_p;
            current_read_p = shift_pointer h.current_read_p;
          },
        )
        else (negsuc 0, record h { total_size = h.total_size + length bytes }))

abbrev pub rewind_block : DataBlock → DataBlock
rewind_block b = record b { current_read_count = 0 }

unfoldable pub rewind_blocks : List DataBlock → List DataBlock
rewind_blocks [] = []
rewind_blocks (b ∷ bs) = rewind_block b ∷ rewind_blocks bs

-- `mseek`
unfoldable pub mseek : Mfile → Mfile
mseek h = record h { is_empty = false; current_read_p = none; head = rewind_blocks h.head }

-- The loop of `mseek_pos`: the index and the read count of the block that it stops at.
unfoldable pub seek_blocks : ℕ → ℕ → List DataBlock → Option (ℕ × ℕ)
seek_blocks target i [] = none
seek_blocks target i (b ∷ bs) =
    if leb target (current_write_count b)
    then some (i, target)
    else seek_blocks (target - current_write_count b) (suc i) bs

abbrev pub set_read_count : ℕ → DataBlock → DataBlock
set_read_count n b = record b { current_read_count = n }

abbrev pub place_reader : Mfile → ℕ → Option (ℕ × DataBlock) → Mfile
place_reader h n none = h
place_reader h n (some (p, b)) = record h {
  current_read_p = some p;
  head = set h.head p (set_read_count n b);
}

abbrev pub stop_at : Mfile → Option (ℕ × ℕ) → Mfile
stop_at h none = h
stop_at h (some (p, n)) = place_reader h n (block_at h.head (some p))

-- `mseek_pos`, whose negative positions are 0
unfoldable pub mseek_pos : Mfile → ℕ → Mfile
mseek_pos h target = stop_at (mseek h) (seek_blocks target 0 h.head)

-- `handler->current_read_p`, or the first block, which then becomes it.
unfoldable pub start_reader : Mfile → Option Mfile
start_reader h = elim h.current_read_p [
  | some p ↦ some h
  | none ↦ elim h.head [ [] ↦ none | b ∷ bs ↦ some (record h { current_read_p = some 0 }) ]
]

unfoldable pub reading_block : Mfile → Option (ℕ × DataBlock)
reading_block h = block_at h.head h.current_read_p

next_block : List DataBlock → Option ℕ → Option ℕ
next_block bs none = none
next_block bs (some p) = if ltb (suc p) (length bs) then some (suc p) else none

-- When the current block is drained the reader goes on to the next; none if there is no next.
unfoldable pub advance_reader : Mfile → Option Mfile
unfolding next_block
advance_reader h =
    if h.is_empty
    then elim (next_block h.head h.current_read_p) [
      | none ↦ none
      | some p ↦ some (record h { current_read_p = some p })
    ]
    else some h

abbrev pub store_reader : ℕ → DataBlock → Bool → Mfile → Mfile
store_reader p b drained h = record h { head = set h.head p b; is_empty = drained }

-- `while (readed < len)` of `mread`, with the bytes copied so far; the result is those bytes and
-- the handler. `none` is a NULL block pointer, or fuel that ran out.
unfoldable pub read_loop : ℕ → ℕ → List ℕ → Mfile → Option (List ℕ × Mfile)
read_loop zero len out h = none
read_loop (suc fuel) len out h = elim (ltb (length out) len) [
  | false ↦ some (out, h)
  | true ↦ elim (advance_reader h) [
    | none ↦ some (out, h)
    | some h₁ ↦ elim (reading_block h₁) [
      | none ↦ none
      | some (p, b) ↦
          let could_read = current_write_count b - b.current_read_count in
          let want = len - length out in
          let rest = drop b.current_read_count b.written in
          let count = b.current_read_count + want in
          let drained = set_read_count (b.current_read_count + could_read) b in
          let again =
            read_loop fuel len (out ++ take could_read rest) (store_reader p drained true h₁) in
          if could_read == 0
          then some (out, h₁)
          else (if leb want could_read
              then some (
                out ++ take want rest,
                store_reader p (set_read_count count b) (count == current_write_count b) h₁,
              )
              else again)
    ]
  ]
]

-- What `mread` returns: -1 at no block at all, else the number of the bytes that it read.
pub record ReadResult : Type 0 where
  pub returned : ℤ
  pub bytes : List ℕ
  pub handler : Mfile

unfoldable pub mread : ℕ → Mfile → Option ReadResult
mread len h = elim (start_reader h) [
  | none ↦ some (record { returned = negsuc 0; bytes = []; handler = h })
  | some h₁ ↦ elim (read_loop (suc len) len [] h₁) [
    | none ↦ none
    | some (out, h₂) ↦ some (record { returned = pos (length out); bytes = out; handler = h₂ })
  ]
]

-- The int that 32 bits stand for.
unfoldable pub int_of : ℕ → ℤ
int_of n =
    let bits = n % 2 ^ 32 in if ltb bits (2 ^ 31) then pos bits else negsuc (2 ^ 32 - 1 - bits)

-- `msize`, of an int that has wrapped around as often as the sum of all lengths passed it.
unfoldable pub msize : Mfile → ℤ
msize h = int_of h.total_size

-- `mfile_new_header_size`, an unsigned number

pub mfile_new_header_size : Mfile → ℕ
mfile_new_header_size h = h.new_header_size % 2 ^ 32

abbrev pub buffer_size : ℕ
buffer_size = 1024

-- What `mfile_copy` returns, the destination and the source.
pub record CopyResult : Type 0 where
  pub returned : ℤ
  pub dest : Mfile
  pub source : Mfile

-- One round of `mfile_copy`: `mread` into the buffer and, unless that returns 0 or -1, `mwrite` of
-- what was read, whose result is not looked at.
pub data Chunk : Type 0 where
  failed : Mfile → Chunk
  copied : ℕ → Mfile → Mfile → Chunk

copy_read : (ℕ → Bool) → Mfile → List ℕ → Mfile → Option Chunk
copy_read alloc dest [] source = some (failed source)
copy_read alloc dest (c ∷ cs) source = elim (mwrite alloc (c ∷ cs) dest) [
  | none ↦ none
  | some (_, dest₁) ↦ some (copied (length (c ∷ cs)) dest₁ source)
]

unfoldable pub copy_chunk : (ℕ → Bool) → ℕ → Mfile → Mfile → Option Chunk
unfolding copy_read
copy_chunk alloc j dest source = elim (mread j source) [
  | none ↦ none
  | some r ↦ copy_read alloc dest r.bytes r.handler
]

-- `while (i < end)` of `mfile_copy`
unfoldable pub copy_loop : (ℕ → Bool) → ℕ → ℕ → ℕ → ℕ → Mfile → Mfile → Option CopyResult
copy_loop alloc zero start i end dest source = none
copy_loop alloc (suc fuel) start i end dest source = elim (ltb i end) [
  | false ↦
      some (record { returned = int_of (end + (2 ^ 32 - start)); dest = dest; source = source })
  | true ↦
      let j = min (end - i) buffer_size in
      elim (copy_chunk alloc j dest source) [
        | none ↦ none
        | some (failed source₁) ↦
            some (record { returned = negsuc 0; dest = dest; source = source₁ })
        | some (copied n dest₁ source₁) ↦ elim (ltb n buffer_size) [
          | true ↦ some (record {
            returned = int_of (end + (2 ^ 32 - start));
            dest = dest₁;
            source = source₁;
          })
          | false ↦ copy_loop alloc fuel start (i + j) end dest₁ source₁
        ]
      ]
]

-- An unsigned position that is handed on as an int, of which `mseek_pos` makes 0 when it is negative.
unfoldable pub int_position : ℕ → ℕ
int_position n = if ltb (n % 2 ^ 32) (2 ^ 31) then n % 2 ^ 32 else 0

-- `mfile_copy`
unfoldable pub mfile_copy : (ℕ → Bool) → Mfile → Mfile → ℕ → ℕ → Option CopyResult
mfile_copy alloc dest source start end =
    copy_loop alloc (suc (end - start)) start start end dest (mseek_pos source (int_position start))
