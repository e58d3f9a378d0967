-- ===== src/Mfile/Read.antt =====
-- libmfile/mfile.c: what `mread` reads, and what it leaves for the next read.
use carrots.Base.{
  ℕ, zero, suc, ◌+◌, ◌-◌, ◌<◌, ◌≤◌, ◌≡◌, refl, sym, ap, ◌∙◌, ◌⊎◌, inl, inr, List, [], ◌∷◌, ◌++◌,
  append_assoc, append-nil, Option, none, some, Bool, true, false, ltb, leb, ◌==◌, Bool-cases,
  length, take, drop, length-append, length-take, length-drop, take-nil, drop-nil, take-append_lt,
  drop-append_lt, drop-drop, set-middle, All, arith, tests, subst, set, drop-length, take-take-drop,
}
use carrots.Base.Int.{pos, negsuc}
use carrots.Mfile.{
  DataBlock, Mfile, current_write_count, ReadResult, start_reader, reading_block, next_block,
  advance_reader, store_reader, set_read_count, read_loop, mread,
}
use carrots.Mfile.Contents.{
  contents, contents-append, pending, unread, drop-middle, block_at-middle,
}
use carrots.Mfile.Invariant.{IsFresh, AtBlock, IsReadable}

-- `h₁` is `h` with the reader inside of a block.
pub record Reading (h h₁ : Mfile) : Type 0 where
  pub before : List DataBlock
  pub here : DataBlock
  pub after : List DataBlock
  pub whole : h₁.head ≡ before ++ here ∷ after
  pub pointer : h₁.current_read_p ≡ some (length before)
  pub fresh : All IsFresh after
  pub inside : here.current_read_count < current_write_count here
  pub same : h₁.head ≡ h.head
  pub same_cache : h₁.ccache ≡ h.ccache
  pub left : unread h ≡ drop here.current_read_count here.written ++ pending after

drop-after {ℓ} :
    {A : Type ℓ} (xs : List A) (x : A) (ys : List A) → drop (suc (length xs)) (xs ++ x ∷ ys) ≡ ys
drop-after [] x ys = refl
drop-after (y ∷ xs) x ys = drop-after xs x ys

next_block-end :
    (xs : List DataBlock) (x : DataBlock) → next_block (xs ++ x ∷ []) (some (length xs)) ≡ none
unfolding next_block
next_block-end xs x = ground (arith, length-append xs (x ∷ []))

next_block-more :
    (xs : List DataBlock) (x y : DataBlock) (ys : List DataBlock)
    → next_block (xs ++ x ∷ y ∷ ys) (some (length xs)) ≡ some (suc (length xs))
unfolding next_block
next_block-more xs x y ys = ground (arith, length-append xs (x ∷ y ∷ ys))

module _ {h : Mfile} (a : AtBlock h) where
  unread_inside :
      h.is_empty ≡ false
      → unread h ≡ drop a.here.current_read_count a.here.written ++ pending a.after
  unread_inside e = rw (a.whole, a.pointer, e, drop-middle a.before (a.here ∷ a.after))

  unread_drained : h.is_empty ≡ true → unread h ≡ pending a.after
  unread_drained e = rw (a.whole, a.pointer, e, drop-after a.before a.here a.after)

pub advance_cases :
    {h : Mfile}
    → AtBlock h
    → ((advance_reader h ≡ none) × (unread h ≡ []))
      ⊎ ((h₁ : Mfile) × (advance_reader h ≡ some h₁) × Reading h h₁)
unfolding advance_reader
advance_cases {h} a = elim (Bool-cases h.is_empty) [
  | inr inside ↦ inr (
    h,
    rw inside,
    record {
      before = a.before;
      here = a.here;
      after = a.after;
      whole = a.whole;
      pointer = a.pointer;
      fresh = a.fresh;
      inside = a.inside inside;
      same = refl;
      same_cache = refl;
      left = unread_inside a inside;
    },
  )
  | inl drained ↦ go a.after refl drained
]
  where
    go :
        (rest : List DataBlock)
        → a.after ≡ rest
        → h.is_empty ≡ true
        → ((advance_reader h ≡ none) × (unread h ≡ []))
          ⊎ ((h₁ : Mfile) × (advance_reader h ≡ some h₁) × Reading h h₁)
    go [] e drained =
        let stop : next_block h.head h.current_read_p ≡ none =
          rw (a.whole, a.pointer, e) (next_block-end a.before a.here) in
        inl (rw (drained, stop, advance_reader), unread_drained a drained ∙ ap pending e)
    go (b ∷ rest) e drained =
        let more : next_block h.head h.current_read_p ≡ some (suc (length a.before)) =
          rw (a.whole, a.pointer, e) (next_block-more a.before a.here b rest) in
        let fresh : All IsFresh (b ∷ rest) = subst (All IsFresh) e a.fresh in
        inr (
          record h { current_read_p = some (suc (length a.before)) },
          simp (drained, more, advance_reader),
          record {
            before = a.before ++ a.here ∷ [];
            here = b;
            after = rest;
            whole = rw (a.whole, e) (sym (append_assoc a.before (a.here ∷ []) (b ∷ rest)));
            pointer = ap some (omega (arith, length-append a.before (a.here ∷ [])));
            fresh = fresh.1;
            inside = omega arith;
            same = refl;
            same_cache = refl;
            left = unread_drained a drained ∙ ap pending e;
          },
        )

-- The reader stored `here` back with its read count moved by `n`.
module _ {h h₁ : Mfile} (r : Reading h h₁) (n : ℕ) (flag : Bool) where
  abbrev pub moved_block : DataBlock
  moved_block = set_read_count (r.here.current_read_count + n) r.here

  abbrev pub after_read : Mfile
  after_read = store_reader (length r.before) moved_block flag h₁

  moved_head : set h₁.head (length r.before) moved_block ≡ r.before ++ moved_block ∷ r.after
  moved_head = rw r.whole (set-middle r.before r.here r.after moved_block)

  pub after_read-AtBlock :
      (flag ≡ false → r.here.current_read_count + n < current_write_count r.here)
      → AtBlock after_read
  after_read-AtBlock room = record {
    before = r.before;
    here = moved_block;
    after = r.after;
    whole = moved_head;
    pointer = r.pointer;
    fresh = r.fresh;
    inside = room;
  }

  pub contents-after_read : contents after_read.head ≡ contents h.head
  contents-after_read = rw (← r.same, moved_head, r.whole, contents-append, contents-append)

-- `want` bytes were asked for when `out` had been read.
pub record ReadOutcome (h : Mfile) (want : ℕ) (out : List ℕ) (result : Option (List ℕ × Mfile))
    : Type 0 where
  pub handler : Mfile
  pub runs : result ≡ some (out ++ take want (unread h), handler)
  pub left : unread handler ≡ drop want (unread h)
  pub at : AtBlock handler
  pub kept : contents handler.head ≡ contents h.head

pub reading_block_here :
    {h h₁ : Mfile} (r : Reading h h₁) → reading_block h₁ ≡ some (length r.before, r.here)
unfolding reading_block
reading_block_here r = rw (r.pointer, r.whole) (block_at-middle r.before r.here r.after)

drop_all_or_part :
    (n m : ℕ) (xs ys : List ℕ)
    → m ≤ length (drop n xs)
    → drop m (drop n xs ++ ys) ≡ drop (n + m) xs ++ ys
drop_all_or_part n m xs ys h =
    drop-append_lt m (drop n xs) ys h ∙ ap (λ (l : List ℕ). l ++ ys) (drop-drop m n xs)

module _ {h h₁ : Mfile} (r : Reading h h₁) where
  rest : List ℕ
  rest = drop r.here.current_read_count r.here.written

  -- What is unread when `n` more bytes of the block have been read.
  pub unread-after_read :
      (n : ℕ) (flag : Bool)
      → n ≤ current_write_count r.here - r.here.current_read_count
      → (flag ≡ false → r.here.current_read_count + n < current_write_count r.here)
      → (flag ≡ true → r.here.current_read_count + n ≡ current_write_count r.here)
      → unread (after_read r n flag) ≡ drop n (unread h)
  unfolding after_read-AtBlock
  unread-after_read n flag fit part all =
      let a = after_read-AtBlock r n flag part in
      let moved =
        drop_all_or_part r.here.current_read_count n r.here.written (pending r.after)
          (omega (arith, length-drop r.here.current_read_count r.here.written)) in
      elim (Bool-cases flag) [
        | inl e ↦
            unread_drained a e
            ∙ sym (
                rw r.left (
                  moved
                  ∙ ap (λ (l : List ℕ). l ++ pending r.after)
                      (drop-length (r.here.current_read_count + n) r.here.written
                        (omega (arith, all e)))))
        | inr e ↦ unread_inside a e ∙ sym (rw r.left moved)
      ]

pub count_flag :
    (count total : ℕ)
    → count ≤ total
    → (((count == total) ≡ false) → count < total) × (((count == total) ≡ true) → count ≡ total)
count_flag count total le = (λ e. ground arith, λ e. ground arith)

-- Two reads in a row are one.
join_reads :
    (out bytes more : List ℕ) (n m k : ℕ)
    → n ≤ length bytes
    → n + m ≡ k
    → (out ++ take n bytes) ++ take m (drop n (bytes ++ more)) ≡ out ++ take k (bytes ++ more)
join_reads out bytes more n m k fit sum = rw append_assoc (
    ap (◌++◌ out) (
      ap (λ (l : List ℕ). l ++ take m (drop n (bytes ++ more)))
        (sym (take-append_lt n bytes more fit))
      ∙ take-take-drop n m (bytes ++ more)
      ∙ ap (λ i. take i (bytes ++ more)) sum))

read_loop-reads :
    (fuel len : ℕ) (out : List ℕ) {h : Mfile}
    → AtBlock h
    → length out ≤ len
    → len - length out < fuel
    → ReadOutcome h (len - length out) out (read_loop fuel len out h)
unfolding read_loop
read_loop-reads zero len out a le lt = absurd (omega arith)
read_loop-reads (suc fuel) len out {h} a le lt = elim (Bool-cases (ltb (length out) len)) [
  | inr full ↦
      let none_left : 0 ≡ len - length out = omega tests in
      subst (λ n. ReadOutcome h n out (read_loop (suc fuel) len out h)) none_left
        (record {
          handler = h;
          runs = rw (full, read_loop) (ap (λ l. some (l, h)) (sym (append-nil out)));
          left = refl;
          at = a;
          kept = refl;
        })
  | inl more ↦ elim (advance_cases a) [
    | inl (stop, nothing) ↦ record {
      handler = h;
      runs =
          rw (more, stop, read_loop, nothing, take-nil)
            (ap (λ l. some (l, h)) (sym (append-nil out)));
      left = rw (nothing, drop-nil);
      at = a;
      kept = refl;
    }
    | inr (h₁, go, r) ↦
        let b = r.here in
        let could = current_write_count b - b.current_read_count in
        let want = len - length out in
        let bytes = drop b.current_read_count b.written in
        let size = length-drop b.current_read_count b.written in
        let some_left : (could == 0) ≡ false = ground (arith, r.inside) in
        let found = reading_block_here r in
        elim (Bool-cases (leb want could)) [
          | inl enough ↦
              let flags =
                count_flag (b.current_read_count + want) (current_write_count b)
                  (omega (tests, r.inside)) in
              let flag = (b.current_read_count + want) == current_write_count b in
              record {
                handler = after_read r want flag;
                runs =
                    rw (more, go, found, some_left, enough, read_loop, r.left)
                      (rw (take-append_lt want bytes (pending r.after) (omega tests)));
                left = unread-after_read r want flag (omega tests) flags.0 flags.1;
                at = after_read-AtBlock r want flag flags.0;
                kept = contents-after_read r want flag;
              }
          | inr short ↦
              let full : b.current_read_count + could ≡ current_write_count b =
                omega (arith, r.inside) in
              let grown : length (out ++ take could bytes) ≡ length out + could =
                omega (arith, length-append out (take could bytes), length-take could bytes) in
              let a₁ = after_read-AtBlock r could true (λ e. cc) in
              let u₁ = unread-after_read r could true (omega arith) (λ e. cc) (λ e. full) in
              let next =
                read_loop-reads fuel len (out ++ take could bytes) a₁ (omega (tests, grown))
                  (omega (tests, grown, r.inside)) in
              let both : could + (len - length (out ++ take could bytes)) ≡ want =
                omega (tests, grown) in
              let joined =
                join_reads out bytes (pending r.after) could
                  (len - length (out ++ take could bytes)) want (omega arith) both in
              record {
                handler = next.handler;
                runs =
                    rw (more, go, found, some_left, short, read_loop, r.left)
                      (next.runs
                        ∙ ap (λ l. some (l, next.handler))
                            (ap
                                (λ u.
                                  (out ++ take could bytes)
                                  ++ take (len - length (out ++ take could bytes)) u)
                                (u₁ ∙ ap (drop could) r.left)
                              ∙ joined));
                left =
                    next.left
                    ∙ ap (drop (len - length (out ++ take could bytes))) u₁
                    ∙ drop-drop (len - length (out ++ take could bytes)) could (unread h)
                    ∙ ap (λ n. drop n (unread h)) both;
                at = next.at;
                kept = next.kept ∙ contents-after_read r could true;
              }
        ]
  ]
]

-- The bytes of all blocks are ahead of a reader that has not started.
pub start_cases :
    {h : Mfile}
    → IsReadable h
    → ((h.head ≡ []) × (start_reader h ≡ none))
      ⊎ ((h₁ : Mfile) × (start_reader h ≡ some h₁)
          × AtBlock h₁
          × (unread h₁ ≡ unread h)
          × (h₁.head ≡ h.head)
          × (h₁.ccache ≡ h.ccache))
unfolding start_reader
start_cases {h} (inr a) = inr (h, simp (a.pointer, start_reader), a, refl, refl, refl)
start_cases {h} (inl s) = go h.head refl
  where
    go :
        (bs : List DataBlock)
        → h.head ≡ bs
        → ((h.head ≡ []) × (start_reader h ≡ none))
          ⊎ ((h₁ : Mfile) × (start_reader h ≡ some h₁)
              × AtBlock h₁
              × (unread h₁ ≡ unread h)
              × (h₁.head ≡ h.head)
              × (h₁.ccache ≡ h.ccache))
    go [] e = inl (e, simp (s.pointer, e, start_reader))
    go (b ∷ bs) e =
        let fresh = subst (All IsFresh) e s.fresh in
        inr (
          record h { current_read_p = some 0 },
          simp (s.pointer, e, start_reader),
          record {
            before = [];
            here = b;
            after = bs;
            whole = e;
            pointer = refl;
            fresh = fresh.1;
            inside = λ _. omega arith;
          },
          rw (s.undrained, s.pointer),
          refl,
          refl,
        )

pub no_block_unread : {h : Mfile} → IsReadable h → h.head ≡ [] → unread h ≡ []
no_block_unread (inl s) e = rw (s.pointer, e)
no_block_unread (inr a) e = absurd (cons_append a.before a.here a.after (sym e ∙ a.whole))
  where
    cons_append :
        (xs : List DataBlock) (b : DataBlock) (ys : List DataBlock) → [] ≡ xs ++ b ∷ ys → ⊥
    cons_append [] b ys e = cc
    cons_append (x ∷ xs) b ys e = cc

-- What `mread` of `len` bytes did.
pub record Reads (len : ℕ) (h : Mfile) (result : Option ReadResult) : Type 0 where
  pub read : ReadResult
  pub runs : result ≡ some read
  pub counted : read.returned ≡ pos (length read.bytes)
  pub bytes : read.bytes ≡ take len (unread h)
  pub left : unread read.handler ≡ drop len (unread h)
  pub readable : IsReadable read.handler
  pub kept : contents read.handler.head ≡ contents h.head

-- mread on a readable handler always returns: -1 and no change when there is no block, else the
-- number of the bytes copied, which are the next unread ones, as many as were asked for or all
-- that are left; the rest stays unread, and the handler keeps its contents and stays readable.
pub mread-Reads :
    (len : ℕ) {h : Mfile}
    → IsReadable h
    → ((h.head ≡ [])
        × (mread len h ≡ some (record { returned = negsuc 0; bytes = []; handler = h })))
      ⊎ Reads len h (mread len h)
unfolding mread
mread-Reads len {h} v = elim (start_cases v) [
  | inl (nothing, e) ↦ inl (nothing, rw (e, mread))
  | inr (h₁, e, a, same, blocks, _) ↦
      let r = read_loop-reads (suc len) len [] a (omega arith) (omega arith) in
      let all : len - 0 ≡ len = omega arith in
      inr (record {
        read = record {
          returned = pos (length (take (len - 0) (unread h₁)));
          bytes = take (len - 0) (unread h₁);
          handler = r.handler;
        };
        runs = rw (e, r.runs, mread);
        counted = refl;
        bytes = rw (all, same);
        left = rw (r.left, all, same);
        readable = inr r.at;
        kept = rw (r.kept, blocks);
      })
]
