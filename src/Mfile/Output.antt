-- ===== src/Mfile/Output.antt =====
-- libmfile/mfile.c: `mwrite_file` hands the blocks to `writev`.
use carrots.Base.{
  append-nil, append_assoc, ap₂, ◌⊎◌, ◌≢◌, ℕ, ◌+◌, ◌<◌, ◌≤◌, ◌≡◌, refl, ap, sym, ◌∙◌, List, [], ◌∷◌,
  ◌++◌, Option, none, some, false, leb, ◌==◌, if◌then◌else◌, length, length-append, Bool-cases, inl,
  inr, arith, tests,
}
use carrots.Base.Int.{ℤ, pos, negsuc}
use carrots.Mfile.{DataBlock, Mfile, current_write_count}
use carrots.Mfile.Contents.{contents}

abbrev pub max_block_number : ℕ
max_block_number = 1024

-- The `iovec` array and `file_size` after the loop over the blocks, none when it leaves early.
gather : List DataBlock → List (List ℕ) → ℕ → Option (List (List ℕ) × ℕ)
gather [] iov size = some (iov, size)
gather (b ∷ bs) iov size =
    let rest = gather bs (iov ++ b.written ∷ []) (size + current_write_count b) in
    if leb max_block_number (length iov + 1) then none else rest

-- What the return value of `writev` becomes.
abbrev pub or_minus_one : ℤ → ℤ
or_minus_one (pos n) = pos n
or_minus_one (negsuc n) = negsuc 0

-- `writev` is the system's: its result, negative on an error, is a function of the buffers.
pub mwrite_file : (List (List ℕ) → ℤ) → Mfile → ℤ
unfolding gather
mwrite_file writev h = elim (gather h.head [] 0) [
  | none ↦ negsuc 0
  | some (iov, size) ↦ if size == 0 then pos 0 else or_minus_one (writev iov)
]

abbrev pub bytes_of : List (List ℕ) → List ℕ
bytes_of [] = []
bytes_of (b ∷ bs) = b ++ bytes_of bs

abbrev pub buffers : List DataBlock → List (List ℕ)
buffers [] = []
buffers (b ∷ bs) = b.written ∷ buffers bs

bytes_of-buffers : (bs : List DataBlock) → bytes_of (buffers bs) ≡ contents bs
bytes_of-buffers [] = refl
bytes_of-buffers (b ∷ bs) = ap (◌++◌ b.written) (bytes_of-buffers bs)

gather_all :
    (bs : List DataBlock) (iov : List (List ℕ)) (size : ℕ)
    → length iov + length bs < max_block_number
    → gather bs iov size ≡ some (iov ++ buffers bs, size + length (contents bs))
unfolding gather
gather_all [] iov size few = ap₂ (λ l n. some (l, n)) (sym (append-nil iov)) (omega arith)
gather_all (b ∷ bs) iov size few =
    let count = length-append iov (b.written ∷ []) in
    let on : leb max_block_number (length iov + 1) ≡ false = ground arith in
    rw on (
      gather_all bs (iov ++ b.written ∷ []) (size + current_write_count b) (omega (arith, count))
      ∙ ap₂ (λ l n. some (l, n)) (append_assoc iov (b.written ∷ []) (buffers bs))
          (omega (arith, length-append b.written (contents bs))))

gather_stops :
    (bs : List DataBlock) (iov : List (List ℕ)) (size : ℕ)
    → length iov < max_block_number
    → max_block_number ≤ length iov + length bs
    → gather bs iov size ≡ none
unfolding gather
gather_stops [] iov size few many = absurd (omega arith)
gather_stops (b ∷ bs) iov size few many =
    elim (Bool-cases (leb max_block_number (length iov + 1))) [
      | inl stop ↦ rw stop
      | inr on ↦
          let count = length-append iov (b.written ∷ []) in
          rw on (
            gather_stops bs (iov ++ b.written ∷ []) (size + current_write_count b)
              (omega (tests, count)) (omega (arith, count)))
    ]

no_bytes : (l : List ℕ) → length l ≡ 0 → l ≡ []
no_bytes [] e = refl
no_bytes (x ∷ l) e = absurd (omega arith)

not_empty : (l : List ℕ) → ((0 + length l) == 0) ≡ false → l ≡ [] → ⊥
not_empty l ne e = ground (arith, ap length e)

-- mwrite_file returns -1 at 1024 blocks or more, 0 for an empty file, and else calls writev on
-- buffers that hold the contents in order and returns its result, -1 for any error.
pub mwrite_file_cases :
    (writev : List (List ℕ) → ℤ) (h : Mfile)
    → ((max_block_number ≤ length h.head) × (mwrite_file writev h ≡ negsuc 0))
      ⊎ ((length h.head < max_block_number)
          × (contents h.head ≡ [])
          × (mwrite_file writev h ≡ pos 0))
      ⊎ ((length h.head < max_block_number)
          × (contents h.head ≢ [])
          × ((iov : List (List ℕ)) × (bytes_of iov ≡ contents h.head)
              × (mwrite_file writev h ≡ or_minus_one (writev iov))))
unfolding mwrite_file
mwrite_file_cases writev h = elim (Bool-cases (leb max_block_number (length h.head))) [
  | inl many ↦
      inl (omega tests, rw (gather_stops h.head [] 0 (omega arith) (omega tests), mwrite_file))
  | inr few ↦
      let all = gather_all h.head [] 0 (omega tests) in
      elim (Bool-cases ((0 + length (contents h.head)) == 0)) [
        | inl nothing ↦ inr (
            inl (
              omega tests,
              no_bytes (contents h.head) (ground arith),
              rw (all, nothing, mwrite_file),
            ))
        | inr some_bytes ↦ inr (
            inr (
              omega tests,
              λ e. not_empty (contents h.head) some_bytes e,
              (buffers h.head, bytes_of-buffers h.head, rw (all, some_bytes, mwrite_file)),
            ))
      ]
]
