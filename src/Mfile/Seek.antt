-- ===== src/Mfile/Seek.antt =====
-- libmfile/mfile.c: where `mseek` and `mseek_pos` put the reader.
use carrots.Base.{
  ℕ, suc, ◌+◌, ◌-◌, ◌<◌, ◌≤◌, ◌≡◌, ◌≢◌, refl, sym, ap, ◌∙◌, inl, inr, List, [], ◌∷◌, ◌++◌, Option,
  none, some, true, false, leb, ◌==◌, Bool-cases, length, drop, length-append, drop-append_lt,
  drop-length, ap₂, ltb, drop-append_le, set-middle, set, All, All-append_right, arith, tests,
  subst,
}
use carrots.Base.Int.{pos}
use carrots.Mfile.{
  DataBlock, Mfile, current_write_count, rewind_block, rewind_blocks, mseek, seek_blocks,
  set_read_count, mseek_pos, block_at, ReadResult, start_reader, reading_block, advance_reader,
  read_loop, mread,
}
use carrots.Mfile.Contents.{
  contents, contents-rewind, pending, pending-rewind, unread, drop-middle, block_at-middle,
  length-rewind, contents-append,
}
use carrots.Mfile.Invariant.{IsFilled, IsFresh, IsReadable}

IsFresh-rewind : (bs : List DataBlock) → All IsFilled bs → All IsFresh (rewind_blocks bs)
unfolding rewind_blocks
IsFresh-rewind [] f = tt
IsFresh-rewind (b ∷ bs) f = ((refl, f.0), IsFresh-rewind bs f.1)

-- After mseek on a file whose blocks all hold something, all of its contents are unread, the
-- contents are unchanged, and they can be read.
pub mseek-unread :
    (h : Mfile)
    → All IsFilled h.head
    → (unread (mseek h) ≡ contents h.head)
      × (contents (mseek h).head ≡ contents h.head)
      × IsReadable (mseek h)
unfolding mseek
mseek-unread h f = (
  pending-rewind h.head,
  contents-rewind h.head,
  inl (record { pointer = refl; undrained = refl; fresh = IsFresh-rewind h.head f }),
)

-- Where the loop of `mseek_pos` stops: inside of a block, at the end of one, or nowhere.
record Found (target i : ℕ) (bs : List DataBlock) (stop : Option (ℕ × ℕ)) : Type 0 where
  before : List DataBlock
  here : DataBlock
  after : List DataBlock
  offset : ℕ
  whole : bs ≡ before ++ here ∷ after
  stops : stop ≡ some (i + length before, offset)
  within : offset ≤ current_write_count here
  exact : target ≡ length (contents before) + offset

seek_blocks-Found :
    (target i : ℕ) (bs : List DataBlock)
    → bs ≢ []
    → target ≤ length (contents bs)
    → Found target i bs (seek_blocks target i bs)
unfolding seek_blocks
seek_blocks-Found target i [] ne h = absurd (ne refl)
seek_blocks-Found target i (b ∷ []) ne h =
    let stop : leb target (current_write_count b) ≡ true =
      ground (arith, length-append b.written []) in
    record {
      before = [];
      here = b;
      after = [];
      offset = target;
      whole = refl;
      stops = rw (stop, seek_blocks) (ap (λ k. some (k, target)) (omega arith));
      within = omega tests;
      exact = omega arith;
    }
seek_blocks-Found target i (b ∷ c ∷ bs) ne h =
    elim (Bool-cases (leb target (current_write_count b))) [
      | inl stop ↦ record {
        before = [];
        here = b;
        after = c ∷ bs;
        offset = target;
        whole = refl;
        stops = rw (stop, seek_blocks) (ap (λ k. some (k, target)) (omega arith));
        within = omega tests;
        exact = omega arith;
      }
      | inr on ↦
          let r =
            seek_blocks-Found (target - current_write_count b) (suc i) (c ∷ bs) (λ e. cc)
              (omega (tests, length-append b.written (contents (c ∷ bs)))) in
          record {
            before = b ∷ r.before;
            here = r.here;
            after = r.after;
            offset = r.offset;
            whole = ap (◌∷◌ b) r.whole;
            stops = rw (on, seek_blocks) (r.stops ∙ ap (λ k. some (k, r.offset)) (omega arith));
            within = r.within;
            exact = omega (tests, r.exact, length-append b.written (contents r.before));
          }
    ]

rewind_blocks-append :
    (xs ys : List DataBlock) → rewind_blocks (xs ++ ys) ≡ rewind_blocks xs ++ rewind_blocks ys
unfolding rewind_blocks
rewind_blocks-append [] ys = refl
rewind_blocks-append (x ∷ xs) ys = ap (◌∷◌ (rewind_block x)) (rewind_blocks-append xs ys)

-- The handler that `mseek_pos` leaves when it stops inside or at the end of a block.
module _ (h : Mfile) (target : ℕ) (f : Found target 0 h.head (seek_blocks target 0 h.head)) where
  abbrev sought_head : List DataBlock
  sought_head = rewind_blocks f.before ++ set_read_count f.offset f.here ∷ rewind_blocks f.after

  rewound_head :
      rewind_blocks h.head ≡ rewind_blocks f.before ++ rewind_block f.here ∷ rewind_blocks f.after
  unfolding rewind_blocks
  rewound_head = rw f.whole (rewind_blocks-append f.before (f.here ∷ f.after))

  abbrev sought : Mfile
  sought = record h {
    is_empty = false;
    current_read_p = some (length f.before);
    head = sought_head;
  }

  block_sought :
      block_at (rewind_blocks h.head) (some (0 + length f.before))
      ≡ some (0 + length f.before, rewind_block f.here)
  block_sought =
      let start : length (rewind_blocks f.before) ≡ 0 + length f.before =
        omega (arith, length-rewind f.before) in
      rw rewound_head (
        subst
          (λ k.
            block_at (rewind_blocks f.before ++ rewind_block f.here ∷ rewind_blocks f.after)
              (some k)
            ≡ some (k, rewind_block f.here))
          start
          (block_at-middle (rewind_blocks f.before) (rewind_block f.here) (rewind_blocks f.after)))

  head_sought :
      set (rewind_blocks h.head) (0 + length f.before) (set_read_count f.offset f.here)
      ≡ sought_head
  head_sought =
      let start : length (rewind_blocks f.before) ≡ 0 + length f.before =
        omega (arith, length-rewind f.before) in
      rw (rewound_head, ← start)
        (set-middle (rewind_blocks f.before) (rewind_block f.here) (rewind_blocks f.after)
          (set_read_count f.offset f.here))

  mseek_pos-sought : mseek_pos h target ≡ sought
  unfolding mseek_pos mseek
  mseek_pos-sought =
      let start : 0 + length f.before ≡ length f.before = omega arith in
      rw (f.stops, block_sought, head_sought, start)

  pending_sought :
      pending (drop (length f.before) sought_head)
      ≡ drop f.offset f.here.written ++ contents f.after
  pending_sought = rw (← length-rewind f.before, drop-middle, pending-rewind)

  unread-sought : unread sought ≡ drop target (contents h.head)
  unread-sought =
      let cb = contents f.before in
      let past : target - length cb ≡ f.offset = omega (arith, f.exact) in
      rw (pending_sought, f.whole, contents-append)
        (sym (
          drop-append_le target cb (f.here.written ++ contents f.after) (omega (arith, f.exact))
          ∙ ap (λ n. drop n (f.here.written ++ contents f.after)) past
          ∙ drop-append_lt f.offset f.here.written (contents f.after) f.within))

  contents_sought : contents sought_head ≡ contents h.head
  contents_sought = simp (f.whole, contents-append, contents-rewind)

  IsReadable-sought :
      All IsFilled h.head → f.offset < current_write_count f.here → IsReadable sought
  IsReadable-sought filled inside = inr (record {
    before = rewind_blocks f.before;
    here = set_read_count f.offset f.here;
    after = rewind_blocks f.after;
    whole = refl;
    pointer = ap some (sym (length-rewind f.before));
    fresh =
        IsFresh-rewind f.after
          (All-append_right IsFilled f.before (f.here ∷ f.after) (rw f.whole at filled)).1;
    inside = λ _. inside;
  })

-- In a file that has blocks, all of which hold something, mseek_pos to a position in the file that
-- is not the end of a block leaves unread exactly the bytes from that position on, keeps the
-- contents, and leaves a handler that can be read.
pub mseek_pos-lands :
    (h : Mfile) (target : ℕ)
    → h.head ≢ []
    → All IsFilled h.head
    → target ≤ length (contents h.head)
    → ((xs : List DataBlock) (b : DataBlock) (ys : List DataBlock)
        → h.head ≡ xs ++ b ∷ ys
        → target ≢ length (contents xs) + current_write_count b)
    → (unread (mseek_pos h target) ≡ drop target (contents h.head))
      × (contents (mseek_pos h target).head ≡ contents h.head)
      × IsReadable (mseek_pos h target)
mseek_pos-lands h target ne filled within off_end =
    let f = seek_blocks-Found target 0 h.head ne within in
    let off = off_end f.before f.here f.after f.whole in
    rw (mseek_pos-sought h target f) (
      unread-sought h target f,
      contents_sought h target f,
      IsReadable-sought h target f filled (omega (arith, f.within, f.exact, off)),
    )

-- The loop finds no block for a position behind the last byte.
seek_blocks_beyond :
    (target i : ℕ) (bs : List DataBlock)
    → length (contents bs) < target
    → seek_blocks target i bs ≡ none
unfolding seek_blocks
seek_blocks_beyond target i [] h = refl
seek_blocks_beyond target i (b ∷ bs) h =
    let on : leb target (current_write_count b) ≡ false =
      ground (arith, length-append b.written (contents bs)) in
    rw (on, seek_blocks)
      (seek_blocks_beyond (target - current_write_count b) (suc i) bs
        (omega (arith, length-append b.written (contents bs))))

-- In a file whose blocks all hold something, mseek_pos to a position behind the last byte is
-- mseek: the whole file is unread again.
pub mseek_pos-beyond :
    (h : Mfile) (target : ℕ)
    → All IsFilled h.head
    → length (contents h.head) < target
    → (mseek_pos h target ≡ mseek h) × (unread (mseek_pos h target) ≡ contents h.head)
unfolding mseek_pos
mseek_pos-beyond h target filled beyond =
    rw (seek_blocks_beyond target 0 h.head beyond) (refl, (mseek-unread h filled).0)

seek_blocks_end :
    (i : ℕ) (xs : List DataBlock) (b : DataBlock) (ys : List DataBlock)
    → All IsFilled (xs ++ b ∷ ys)
    → seek_blocks (length (contents xs) + current_write_count b) i (xs ++ b ∷ ys)
      ≡ some (i + length xs, current_write_count b)
unfolding seek_blocks
seek_blocks_end i [] b ys f =
    let stop : leb (0 + current_write_count b) (current_write_count b) ≡ true = ground arith in
    rw (stop, seek_blocks) (ap₂ (λ k n. some (k, n)) (omega arith) (omega arith))
seek_blocks_end i (x ∷ xs) b ys f =
    let filled = All-append_right IsFilled xs (b ∷ ys) f.1 in
    let target = length (x.written ++ contents xs) + current_write_count b in
    let size = length-append x.written (contents xs) in
    let on : leb target (current_write_count x) ≡ false = ground (arith, size, filled.0) in
    let next : target - current_write_count x ≡ length (contents xs) + current_write_count b =
      omega (arith, size) in
    rw (on, seek_blocks, next)
      (seek_blocks_end (suc i) xs b ys f.1
        ∙ ap (λ k. some (k, current_write_count b)) (omega arith))

-- A reader at the end of a block that is not marked as drained reads nothing.
stuck_read :
    (h : Mfile) (p : ℕ) (b : DataBlock) (len : ℕ)
    → h.current_read_p ≡ some p
    → h.is_empty ≡ false
    → reading_block h ≡ some (p, b)
    → b.current_read_count ≡ current_write_count b
    → mread len h ≡ some (record { returned = pos 0; bytes = []; handler = h })
unfolding mread start_reader advance_reader read_loop
stuck_read h p b len pointer undrained found drained =
    let started : start_reader h ≡ some h = simp (pointer, start_reader) in
    let stays : advance_reader h ≡ some h = simp (undrained, advance_reader) in
    let nothing : ((current_write_count b - b.current_read_count) == 0) ≡ true = ground arith in
    let loop : read_loop (suc len) len [] h ≡ some ([], h) = elim (Bool-cases (ltb 0 len)) [
      | inr done ↦ rw (done, read_loop)
      | inl more ↦ rw (more, stays, found, nothing, read_loop)
    ] in
    rw (started, loop, mread)

sought_block :
    (xs : List DataBlock) (b : DataBlock) (ys : List DataBlock)
    → block_at
        (rewind_blocks xs ++ set_read_count (current_write_count b) b ∷ rewind_blocks ys)
        (some (length xs))
      ≡ some (length xs, set_read_count (current_write_count b) b)
sought_block xs b ys =
    subst
      (λ k.
        block_at (rewind_blocks xs ++ set_read_count (current_write_count b) b ∷ rewind_blocks ys)
          (some k)
        ≡ some (k, set_read_count (current_write_count b) b))
      (length-rewind xs)
      (block_at-middle (rewind_blocks xs) (set_read_count (current_write_count b) b)
        (rewind_blocks ys))

-- In a file whose blocks all hold something, after mseek_pos to the exact end of a block an mread
-- of any length returns 0 and no byte, although all the blocks that follow are unread.
pub mseek_pos-block_end :
    (h : Mfile) (xs : List DataBlock) (b : DataBlock) (ys : List DataBlock) (len : ℕ)
    → h.head ≡ xs ++ b ∷ ys
    → All IsFilled h.head
    → (r : ReadResult) × (mread len (mseek_pos h (length (contents xs) + current_write_count b))
        ≡ some r)
      × (r.returned ≡ pos 0)
      × (r.bytes ≡ [])
      × (unread r.handler ≡ contents ys)
unfolding reading_block
mseek_pos-block_end h xs b ys len whole filled =
    let target = length (contents xs) + current_write_count b in
    let f : Found target 0 h.head (seek_blocks target 0 h.head) = record {
      before = xs;
      here = b;
      after = ys;
      offset = current_write_count b;
      whole = whole;
      stops = rw whole (seek_blocks_end 0 xs b ys (rw whole at filled));
      within = omega arith;
      exact = refl;
    } in
    (
      record { returned = pos 0; bytes = []; handler = sought h target f },
      rw (mseek_pos-sought h target f) (
          stuck_read (sought h target f) (length xs) (set_read_count (current_write_count b) b) len
            refl refl (sought_block xs b ys) refl),
      refl,
      refl,
      pending_sought h target f
          ∙ ap (λ (l : List ℕ). l ++ contents ys)
              (drop-length (current_write_count b) b.written (omega arith)),
    )
