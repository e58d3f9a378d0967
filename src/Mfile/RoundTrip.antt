-- ===== src/Mfile/RoundTrip.antt =====
-- libmfile/mfile.c: what was written comes back.
use carrots.Base.{
  ℕ, ◌+◌, ◌^◌, ◌<◌, ◌≤◌, ◌≡◌, ap, ◌∙◌, List, ◌++◌, Bool, true, some, length, take, All, take-length,
  length-append, arith,
}
use carrots.Base.Int.{pos}
use carrots.Mfile.{Mfile, ReadResult, mwrite, mread, mseek, msize, int_of}
use carrots.Mfile.Contents.{contents}
use carrots.Mfile.Invariant.{IsFilled, IsValid}
use carrots.Mfile.Copy.{mwrite_granted, mread_some, int_of-small}
use carrots.Mfile.Seek.{mseek-unread}

-- With memory at hand, on a valid file whose blocks all hold something, when the buffer and the
-- total size are below 2 ^ 31: after mwrite of at least one byte and mseek, one mread of enough
-- bytes returns the number of all bytes of the file, and these are the former contents with the
-- new bytes behind them; msize was the total size before, and has grown by the number of the bytes
-- written.
pub mread-mseek-mwrite :
    (alloc : ℕ → Bool) (bytes : List ℕ) (len : ℕ) {h : Mfile}
    → ((k : ℕ) → alloc k ≡ true)
    → IsValid h
    → All IsFilled h.head
    → 0 < length bytes
    → length (contents h.head) + length bytes ≤ len
    → len < 2 ^ 31
    → h.total_size + length bytes < 2 ^ 31
    → (h' : Mfile) × (r : ReadResult) × (mwrite alloc bytes h ≡ some (pos 1, h'))
      × (mread len (mseek h') ≡ some r)
      × (r.bytes ≡ contents h.head ++ bytes)
      × (r.returned ≡ pos (length (contents h.head) + length bytes))
      × (msize h ≡ pos h.total_size)
      × (msize h' ≡ pos (h.total_size + length bytes))
unfolding msize
mread-mseek-mwrite alloc bytes len {h} granted v filled some_byte enough int_len int_size =
    let (h', runs, _, stored, total, keeps) = mwrite_granted alloc bytes granted v in
    let (ahead, same, readable) = mseek-unread h' (keeps filled) in
    let size = length-append (contents h.head) bytes in
    let whole = ahead ∙ stored in
    let r = mread_some len readable (omega (arith, ap length whole)) in
    let all =
      r.bytes ∙ ap (take len) whole ∙ take-length len (contents h.head ++ bytes) (omega arith) in
    (
      h',
      r.read,
      runs,
      r.runs,
      all,
      r.counted ∙ ap pos (ap length all ∙ size),
      int_of-small h.total_size (omega arith),
      ap int_of total ∙ int_of-small (h.total_size + length bytes) int_size,
    )
