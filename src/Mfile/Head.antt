-- ===== src/Mfile/Head.antt =====
-- libmfile/mfile.c: what `mwrite_head` puts before the contents, and what it does when it cannot.
use carrots.Base.{
  Bool-cases, ◌⊎◌, inl, inr, ℕ, ◌+◌, ◌<◌, ◌≤◌, ◌≡◌, refl, ap, List, ◌∷◌, ◌++◌, Bool, true, false,
  ltb, length, arith, tests, ◌%◌, ◌^◌,
}
use carrots.Base.Int.{ℤ, pos, negsuc}
use carrots.Mfile.{Mfile, shift_pointer, mwrite_head}
use carrots.Mfile.Contents.{contents}
use carrots.Mfile.Invariant.{IsValid}

-- The return value and the handler that `mwrite_head` gives for `bytes`.
pub record Heads (h : Mfile) (bytes : List ℕ) (result : ℤ × Mfile) : Type 0 where
  pub returned : result.0 ≡ pos 1
  pub stored : contents result.1.head ≡ bytes ++ contents h.head
  pub total : result.1.total_size ≡ h.total_size + length bytes
  pub header : result.1.new_header_size ≡ (h.new_header_size + length bytes) % 2 ^ 32
  pub valid : IsValid result.1

-- With memory at hand, bytes that fit into one block are put before the contents, counted in both
-- sizes, and the writer still stands at the last block.
mwrite_head-Heads :
    (alloc : ℕ → Bool) (bytes : List ℕ) {h : Mfile}
    → IsValid h
    → length bytes ≤ h.data_block_size
    → alloc h.block_num ≡ true
    → Heads h bytes (mwrite_head alloc bytes h)
unfolding mwrite_head
mwrite_head-Heads alloc bytes {h} v fit granted =
    let small : ltb h.data_block_size (length bytes) ≡ false = ground (arith, fit) in
    rw (small, granted)
      (record {
        returned = refl;
        stored = refl;
        total = refl;
        header = refl;
        valid = record {
          positive = v.positive;
          counted = omega (arith, v.counted);
          fits = (fit, v.fits);
          tail_room = λ e.
              let r = v.tail_room e in
              record {
                before = record { written = bytes; current_read_count = 0 } ∷ r.before;
                last = r.last;
                whole = ap (◌∷◌ (record { written = bytes; current_read_count = 0 })) r.whole;
                pointer = ap shift_pointer r.pointer;
                room = r.room;
              };
        };
      })

-- mwrite_head on a valid handler puts the bytes before the contents, counts them in both sizes and
-- keeps the handler valid; or refuses with -1 and no change more bytes than a block holds; or
-- returns -1 when the allocation fails, with the blocks unchanged and total_size grown.
pub mwrite_head_cases :
    (alloc : ℕ → Bool) (bytes : List ℕ) (h : Mfile)
    → IsValid h
    → Heads h bytes (mwrite_head alloc bytes h)
      ⊎ ((h.data_block_size < length bytes) × (mwrite_head alloc bytes h ≡ (negsuc 0, h)))
      ⊎ ((alloc h.block_num ≡ false)
          × (mwrite_head alloc bytes h
              ≡ (negsuc 0, record h { total_size = h.total_size + length bytes })))
unfolding mwrite_head
mwrite_head_cases alloc bytes h v = elim (Bool-cases (ltb h.data_block_size (length bytes))) [
  | inl large ↦ inr (inl (omega tests, rw large))
  | inr small ↦ elim (Bool-cases (alloc h.block_num)) [
    | inl granted ↦ inl (mwrite_head-Heads alloc bytes v (omega tests) granted)
    | inr denied ↦ inr (inr (denied, rw (small, denied)))
  ]
]
