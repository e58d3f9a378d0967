-- ===== src/Stralloc/Allocator.antt =====
-- libstralloc/stralloc.c: `_alloc`, `_alloc_free` and `_alloc_re`, over a static arena and malloc.
use carrots.Base.{
  zero, suc, ap, ℕ, ◌+◌, ◌-◌, ◌%◌, ◌^◌, ◌≤◌, ◌<◌, ◌≡◌, ◌⊎◌, List, [], ◌∷◌, ◌++◌, Option, none, some,
  Bool, true, leb, if◌then◌else◌, length, take, drop, replicate, length-replicate, length-append,
  length-take, length-drop, arith, tests, refl, Bool-cases, inl, inr,
}

-- Memory that `_alloc` gave: its cells, and its offset in `realspace`, none for memory of malloc.
pub record Buffer : Type 0 where
  pub cells : List ℕ
  pub place : Option ℕ

-- The allocator: `avail`, and the number of blocks that malloc gave and that are not freed.
pub record Memory : Type 0 where
  pub avail : ℕ
  pub heap_blocks : ℕ

abbrev pub alignment : ℕ
alignment = 16

abbrev pub space_size : ℕ
space_size = 4096

-- `ALIGNMENT + n - (n & (ALIGNMENT - 1))`, which may wrap
abbrev pub rounded : ℕ → ℕ
rounded n = (alignment + n - n % alignment) % 2 ^ 32

-- `_alloc_free`: memory of the arena stays taken.
unfoldable pub alloc_free : Buffer → Memory → Memory
alloc_free b mem = elim b.place [
  | some offset ↦ mem
  | none ↦ record mem { heap_blocks = mem.heap_blocks - 1 }
]

-- `_alloc_re` when `_alloc` gave a buffer, or none: `memcpy` of `m` bytes, which is out of bounds
-- when one of the two is shorter.
unfoldable pub move_buffer : Buffer → ℕ → Option Buffer → Memory → Option (Option Buffer × Memory)
move_buffer x m none mem = some (none, mem)
move_buffer x m (some y) mem =
    if leb m (length x.cells)
    then (if leb m (length y.cells)
        then some (some (record y { cells = take m x.cells ++ drop m y.cells }), alloc_free x mem)
        else none)
    else none

take-moved :
    (k m : ℕ) (xs ys : List ℕ) → k ≤ m → m ≤ length xs → take k (take m xs ++ ys) ≡ take k xs
take-moved zero m xs ys h hm = refl
take-moved (suc k) zero xs ys h hm = absurd (omega arith)
take-moved (suc k) (suc m) [] ys h hm = absurd (omega arith)
take-moved (suc k) (suc m) (x ∷ xs) ys h hm =
    ap (◌∷◌ x) (take-moved k m xs ys (omega arith) (omega arith))

-- `malloc n` says whether malloc gives `n` bytes; fresh memory is filled with `junk`.
module _ (malloc : ℕ → Bool) (junk : ℕ) where
  -- `_alloc`
  unfoldable pub alloc : ℕ → Memory → Option Buffer × Memory
  alloc n mem =
      if leb (rounded n) mem.avail
      then (
        some (record { cells = replicate (rounded n) junk; place = some (mem.avail - rounded n) }),
        record mem { avail = mem.avail - rounded n },
      )
      else (if malloc (rounded n)
          then (
            some (record { cells = replicate (rounded n) junk; place = none }),
            record mem { heap_blocks = mem.heap_blocks + 1 },
          )
          else (none, mem))

  -- `_alloc_re`
  unfoldable pub alloc_re : Buffer → ℕ → ℕ → Memory → Option (Option Buffer × Memory)
  unfolding move_buffer
  alloc_re x m n mem = let (given, mem₁) = alloc n mem in move_buffer x m given mem₁

  -- For a size below 4000000000, _alloc refuses and changes nothing, or gives more bytes than
  -- asked for: of malloc, counted, or of the arena, from where its rest now ends to where it ended
  -- before.
  pub alloc-Gives :
      (n : ℕ) (mem : Memory)
      → n < 4000000000
      → (alloc n mem ≡ (none, mem))
        ⊎ ((b : Buffer) × (mem₁ : Memory) × (alloc n mem ≡ (some b, mem₁))
            × (n < length b.cells)
            × ((b.place ≡ none) × (mem₁ ≡ record mem { heap_blocks = mem.heap_blocks + 1 })
                ⊎ (b.place ≡ some mem₁.avail) × (mem₁.avail + length b.cells ≡ mem.avail)))
  unfolding alloc
  alloc-Gives n mem small =
      let enough : n < length (replicate (rounded n) junk) =
        omega (arith, length-replicate (rounded n) junk) in
      elim (Bool-cases (leb (rounded n) mem.avail)) [
        | inl arena ↦ rw arena (
            inr (
              record { cells = replicate (rounded n) junk; place = some (mem.avail - rounded n) },
              record mem { avail = mem.avail - rounded n },
              refl,
              enough,
              inr (refl, omega (tests, length-replicate (rounded n) junk)),
            ))
        | inr full ↦ elim (Bool-cases (malloc (rounded n))) [
          | inl given ↦
              rw (full, given)
                (inr (
                  record { cells = replicate (rounded n) junk; place = none },
                  record mem { heap_blocks = mem.heap_blocks + 1 },
                  refl,
                  enough,
                  inl (refl, refl),
                ))
          | inr refused ↦ rw (full, refused) (inl refl)
        ]
      ]

  -- `_alloc_re` to a size that is not smaller and does not wrap changes nothing, or gives a buffer
  -- of at least that size that has the first `m` bytes of the old one.
  pub alloc_re-Moves :
      (x : Buffer) (m n : ℕ) (mem : Memory)
      → m ≤ length x.cells
      → m ≤ n
      → n < 4000000000
      → (alloc_re x m n mem ≡ some (none, mem))
        ⊎ ((y : Buffer) × (mem₁ : Memory) × (alloc_re x m n mem ≡ some (some y, mem₁))
            × (n < length y.cells)
            × ((k : ℕ) → k ≤ m → take k y.cells ≡ take k x.cells))
  unfolding alloc_re move_buffer
  alloc_re-Moves x m n mem hx hn small = elim (alloc-Gives n mem small) [
    | inl refused ↦ inl (rw refused refl)
    | inr (b, mem₁, given, enough, placed) ↦
        let from : leb m (length x.cells) ≡ true = ground arith in
        let to : leb m (length b.cells) ≡ true = ground arith in
        let cells = take m x.cells ++ drop m b.cells in
        let size : length cells ≡ length b.cells = omega (
          arith,
          length-append (take m x.cells) (drop m b.cells),
          length-take m x.cells,
          length-drop m b.cells,
        ) in
        inr (
          record b { cells = cells },
          alloc_free x mem₁,
          rw (given, from, to) refl,
          omega (arith, size, enough),
          λ k h. take-moved k m x.cells (drop m b.cells) h hx,
        )
  ]
