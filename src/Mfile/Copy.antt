-- ===== src/Mfile/Copy.antt =====
-- libmfile/mfile.c: what `mfile_copy` copies, in chunks of 1024 bytes.
use carrots.Base.{
  ℕ, zero, suc, ◌+◌, ◌-◌, ◌%◌, ◌^◌, ◌<◌, ◌≤◌, ◌≡◌, ◌≢◌, refl, sym, ap, ◌∙◌, inl, inr, List, [], ◌∷◌,
  ◌++◌, append_assoc, append-nil, Option, some, Bool, true, false, ltb, Bool-cases, length, take,
  drop, min, length-take, length-drop, take-length, take-take-drop, All, arith, tests, subst,
}
use carrots.Base.Int.{pos}
use carrots.Mfile.{
  DataBlock, Mfile, mseek_pos, current_write_count, CopyResult, mread, mwrite, copy_loop,
  mfile_copy, buffer_size, Chunk, copied, copy_chunk, copy_read, int_of, int_position,
}
use carrots.Mfile.Contents.{contents, unread}
use carrots.Mfile.Invariant.{IsFilled, IsReadable, IsValid}
use carrots.Mfile.Read.{Reads, mread-Reads, no_block_unread}
use carrots.Mfile.Write.{mwrite-stores}
use carrots.Mfile.Seek.{mseek_pos-lands}

-- The int that is returned for a range, and the position that it starts at.
int_of-difference :
    (start end : ℕ)
    → start ≤ end
    → end < 2 ^ 31
    → int_of (end + (2 ^ 32 - start)) ≡ pos (end - start)
unfolding int_of
int_of-difference start end le small =
    let bits : (end + (2 ^ 32 - start)) % 2 ^ 32 ≡ end - start = omega arith in
    let low : ltb (end - start) (2 ^ 31) ≡ true = ground arith in rw (bits, low) refl

pub int_of-small : (n : ℕ) → n < 2 ^ 31 → int_of n ≡ pos n
unfolding int_of
int_of-small n small =
    let bits : n % 2 ^ 32 ≡ n = omega arith in
    let low : ltb n (2 ^ 31) ≡ true = ground arith in rw (bits, low) refl

int_position-same : (n : ℕ) → n < 2 ^ 31 → int_position n ≡ n
unfolding int_position
int_position-same n small =
    let bits : n % 2 ^ 32 ≡ n = omega arith in
    let low : ltb n (2 ^ 31) ≡ true = ground arith in rw (bits, low) refl

-- While something is unread `mread` does not fail.
pub mread_some :
    (len : ℕ) {h : Mfile} → IsReadable h → 0 < length (unread h) → Reads len h (mread len h)
mread_some len v more = elim (mread-Reads len v) [
  | inr r ↦ r
  | inl (e, _) ↦ absurd (omega (arith, ap length (no_block_unread v e)))
]

-- With memory at hand `mwrite` stores everything.
pub mwrite_granted :
    (alloc : ℕ → Bool) (bytes : List ℕ) {h : Mfile}
    → ((k : ℕ) → alloc k ≡ true)
    → IsValid h
    → (h' : Mfile) × (mwrite alloc bytes h ≡ some (pos 1, h'))
      × IsValid h'
      × (contents h'.head ≡ contents h.head ++ bytes)
      × (h'.total_size ≡ h.total_size + length bytes)
      × (All IsFilled h.head → All IsFilled h'.head)
mwrite_granted alloc bytes {h} granted v =
    let w = mwrite-stores alloc bytes v in
    elim w.verdict [
      | inr (_, _, denied) ↦ absurd (true_false (sym (granted _) ∙ denied))
      | inl (one, all) ↦
          let whole = ap (λ n. take n bytes) all ∙ take-length (length bytes) bytes (omega arith) in
          (
            w.handler,
            w.runs ∙ ap (λ z. some (z, w.handler)) one,
            w.stores.valid,
            w.stores.stored ∙ ap (◌++◌ (contents h.head)) whole,
            w.stores.same_total,
            w.stores.filled,
          )
    ]
  where
    true_false : true ≡ false → ⊥
    true_false e = cc

-- One round moved `j` bytes.
record Moves (j : ℕ) (dest source : Mfile) (result : Option Chunk) : Type 0 where
  dest₁ : Mfile
  source₁ : Mfile
  runs : result ≡ some (copied j dest₁ source₁)
  moved : contents dest₁.head ≡ contents dest.head ++ take j (unread source)
  left : unread source₁ ≡ drop j (unread source)
  kept : contents source₁.head ≡ contents source.head
  valid : IsValid dest₁
  readable : IsReadable source₁

-- What the loop did when `want` bytes were left to copy.
record Copies (want start end : ℕ) (dest source : Mfile) (result : Option CopyResult) : Type 0 where
  copy : CopyResult
  runs : result ≡ some copy
  returned : copy.returned ≡ int_of (end + (2 ^ 32 - start))
  moved : contents copy.dest.head ≡ contents dest.head ++ take want (unread source)
  kept : contents copy.source.head ≡ contents source.head
  valid : IsValid copy.dest

module _ (alloc : ℕ → Bool) (granted : (k : ℕ) → alloc k ≡ true) where
  copy_read-some :
      (bytes : List ℕ) {dest : Mfile} (source : Mfile)
      → IsValid dest
      → 0 < length bytes
      → (dest₁ : Mfile) × (copy_read alloc dest bytes source
          ≡ some (copied (length bytes) dest₁ source))
        × (contents dest₁.head ≡ contents dest.head ++ bytes)
        × IsValid dest₁
  unfolding copy_read
  copy_read-some [] source v h = absurd (omega arith)
  copy_read-some (c ∷ cs) source v h =
      let (h', runs, valid, stored, _, _) = mwrite_granted alloc (c ∷ cs) granted v in
      (h', rw (runs, copy_read), stored, valid)

  copy_chunk-Moves :
      (j : ℕ) {dest source : Mfile}
      → IsValid dest
      → IsReadable source
      → 0 < j
      → j ≤ length (unread source)
      → Moves j dest source (copy_chunk alloc j dest source)
  unfolding copy_chunk
  copy_chunk-Moves j {dest} {source} vd vs some_byte enough =
      let r = mread_some j vs (omega arith) in
      let size : length r.read.bytes ≡ j =
        ap length r.bytes ∙ omega (arith, length-take j (unread source)) in
      let (dest₁, runs, stored, valid) =
        copy_read-some r.read.bytes r.read.handler vd (omega arith) in
      record {
        dest₁ = dest₁;
        source₁ = r.read.handler;
        runs = rw (r.runs, copy_chunk) (runs ∙ ap (λ n. some (copied n dest₁ r.read.handler)) size);
        moved = stored ∙ ap (◌++◌ (contents dest.head)) r.bytes;
        left = r.left;
        kept = r.kept;
        valid = valid;
        readable = r.readable;
      }

  module _ (start end : ℕ) where
    copy_loop-Copies :
        (fuel i : ℕ) {dest source : Mfile}
        → i ≤ end
        → IsValid dest
        → IsReadable source
        → end - i ≤ length (unread source)
        → end - i < fuel
        → Copies (end - i) start end dest source (copy_loop alloc fuel start i end dest source)
    unfolding copy_loop
    copy_loop-Copies zero i le vd vs enough lt = absurd (omega arith)
    copy_loop-Copies (suc fuel) i {dest} {source} le vd vs enough lt =
        elim (Bool-cases (ltb i end)) [
          | inr done ↦
              let nothing : 0 ≡ end - i = omega tests in
              subst
                (λ n.
                  Copies n start end dest source
                    (copy_loop alloc (suc fuel) start i end dest source))
                nothing
                (record {
                  copy = record {
                    returned = int_of (end + (2 ^ 32 - start));
                    dest = dest;
                    source = source;
                  };
                  runs = rw (done, copy_loop);
                  returned = refl;
                  moved = sym (append-nil (contents dest.head));
                  kept = refl;
                  valid = vd;
                })
          | inl more ↦
              let j = min (end - i) buffer_size in
              let c = copy_chunk-Moves j vd vs (omega tests) (omega arith) in
              elim (Bool-cases (ltb j buffer_size)) [
                | inl last ↦
                    let all : j ≡ end - i = omega tests in
                    record {
                      copy = record {
                        returned = int_of (end + (2 ^ 32 - start));
                        dest = c.dest₁;
                        source = c.source₁;
                      };
                      runs = rw (more, c.runs, last, copy_loop);
                      returned = refl;
                      moved = c.moved ∙ ap (λ n. contents dest.head ++ take n (unread source)) all;
                      kept = c.kept;
                      valid = c.valid;
                    }
                | inr full ↦
                    let left = ap length c.left ∙ length-drop j (unread source) in
                    let next =
                      copy_loop-Copies fuel (i + j) (omega tests) c.valid c.readable
                        (omega (tests, left)) (omega tests) in
                    let both : j + (end - (i + j)) ≡ end - i = omega tests in
                    record {
                      copy = next.copy;
                      runs = rw (more, c.runs, full, copy_loop) next.runs;
                      returned = next.returned;
                      moved =
                          rw (next.moved, c.left, c.moved)
                            (append_assoc (contents dest.head) (take j (unread source))
                                (take (end - (i + j)) (drop j (unread source)))
                              ∙ ap (◌++◌ (contents dest.head)) (
                                  take-take-drop j (end - (i + j)) (unread source)
                                  ∙ ap (λ n. take n (unread source)) both));
                      kept = next.kept ∙ c.kept;
                      valid = next.valid;
                    }
              ]
        ]

-- With memory at hand, mfile_copy of a range that lies inside of a source that has blocks, all of
-- which hold something, and below 2 ^ 31, and that does not start at the end of a block, to a
-- valid destination, returns the length of the range and appends exactly its bytes to the
-- destination; the source keeps its bytes and the destination stays valid.
pub mfile_copy-copies :
    (alloc : ℕ → Bool) {dest : Mfile} (source : Mfile) (start end : ℕ)
    → ((k : ℕ) → alloc k ≡ true)
    → IsValid dest
    → source.head ≢ []
    → All IsFilled source.head
    → start ≤ end
    → end ≤ length (contents source.head)
    → end < 2 ^ 31
    → ((xs : List DataBlock) (b : DataBlock) (ys : List DataBlock)
        → source.head ≡ xs ++ b ∷ ys
        → start ≢ length (contents xs) + current_write_count b)
    → (copy : CopyResult) × (mfile_copy alloc dest source start end ≡ some copy)
      × (copy.returned ≡ pos (end - start))
      × (contents copy.dest.head
          ≡ contents dest.head ++ take (end - start) (drop start (contents source.head)))
      × (contents copy.source.head ≡ contents source.head)
      × IsValid copy.dest
unfolding mfile_copy
mfile_copy-copies alloc {dest} source start end granted vd ne filled le within small off_end =
    let (lands, same, readable) = mseek_pos-lands source start ne filled (omega arith) off_end in
    let c =
      copy_loop-Copies alloc granted start end (suc (end - start)) start le vd readable
        (omega (arith, ap length lands, length-drop start (contents source.head))) (omega arith) in
    (
      c.copy,
      ap (λ n. copy_loop alloc (suc (end - start)) start start end dest (mseek_pos source n))
            (int_position-same start (omega arith))
          ∙ c.runs,
      c.returned ∙ int_of-difference start end le small,
      c.moved ∙ ap (λ u. contents dest.head ++ take (end - start) u) lands,
      c.kept ∙ same,
      c.valid,
    )
