-- ===== src/Mfile/Write.antt =====
-- libmfile/mfile.c: what `mwrite` and `mwrite_head` store.
use carrots.Base.{
  ℕ, zero, suc, ◌+◌, ◌-◌, ◌*◌, ◌%◌, ◌^◌, ◌<◌, ◌≤◌, ◌≡◌, refl, sym, ap, ◌∙◌, ◌⊎◌, inl, inr, List, [],
  ◌∷◌, ◌++◌, append_assoc, append-nil, Option, none, some, Bool, true, false, ltb, leb, ◌==◌,
  if◌then◌else◌, Bool-cases, length, take, drop, length-append, length-take, length-drop,
  take-length, take-take-drop, get_elem?-middle, set-middle, All, All-append, All-append_left,
  All-append_right, arith, tests, subst,
}
use carrots.Base.Int.{ℤ, pos, negsuc}
use carrots.Mfile.{
  DataBlock, Mfile, current_write_count, append_block, empty_block, open_block, store_block,
  write_loop, mwrite, add_block, current_block,
}
use carrots.Mfile.Contents.{contents, contents-snoc, block_at-middle}
use carrots.Mfile.Invariant.{Fits, IsFilled, HasRoom, IsValid}

-- `h'` is `h` with the bytes behind its contents.
pub record Stored (h : Mfile) (bytes : List ℕ) (h' : Mfile) : Type 0 where
  pub valid : IsValid h'
  pub stored : contents h'.head ≡ contents h.head ++ bytes
  pub same_size : h'.data_block_size ≡ h.data_block_size
  pub same_total : h'.total_size ≡ h.total_size
  pub filled : All IsFilled h.head → All IsFilled h'.head

-- `h₁` holds what `h` holds, and has room in its last block.
record Opened (h h₁ : Mfile) : Type 0 where
  room : HasRoom h₁
  kept : contents h.head ≡ contents h₁.head
  same_size : h₁.data_block_size ≡ h.data_block_size
  same_total : h₁.total_size ≡ h.total_size
  positive : 0 < h.data_block_size
  counted : h₁.block_num ≡ length h₁.head
  fits : All (Fits h₁.data_block_size) room.before
  filled : All IsFilled h.head → All IsFilled room.before

module _ (alloc : ℕ → Bool) where
  open_block_cases :
      {h : Mfile}
      → IsValid h
      → ((open_block alloc h ≡ none) × (alloc h.block_num ≡ false))
        ⊎ ((h₁ : Mfile) × (open_block alloc h ≡ some h₁) × Opened h h₁)
  unfolding open_block
  open_block_cases {h} v = elim (Bool-cases h.is_full) [
    | inl full ↦ elim (Bool-cases (alloc h.block_num)) [
      | inl granted ↦ inr (
        add_block h,
        rw (full, granted),
        record {
          room = record {
            before = h.head;
            last = empty_block;
            whole = refl;
            pointer = refl;
            room = v.positive;
          };
          kept = sym (contents-snoc h.head empty_block ∙ append-nil (contents h.head));
          same_size = refl;
          same_total = refl;
          positive = v.positive;
          counted = omega (arith, v.counted, length-append h.head (empty_block ∷ []));
          fits = v.fits;
          filled = λ f. f;
        },
      )
      | inr denied ↦ inl (rw (full, denied), denied)
    ]
    | inr roomy ↦
        let r = v.tail_room roomy in
        inr (
          h,
          rw roomy,
          record {
            room = r;
            kept = refl;
            same_size = refl;
            same_total = refl;
            positive = v.positive;
            counted = v.counted;
            fits =
                All-append_left (Fits h.data_block_size) r.before (r.last ∷ [])
                  (rw r.whole at v.fits);
            filled = λ f. All-append_left IsFilled r.before (r.last ∷ []) (rw r.whole at f);
          },
        )
  ]

-- One copy behind the last block.
module _ {h h₁ : Mfile} (o : Opened h h₁) (bytes : List ℕ) where
  abbrev last_block : DataBlock
  last_block = append_block bytes o.room.last

  abbrev after_copy : Bool → Mfile
  after_copy full = store_block (length o.room.before) last_block full h₁

  copied_head :
      carrots.Base.set h₁.head (length o.room.before) last_block ≡ o.room.before ++ last_block ∷ []
  copied_head = rw o.room.whole (set-middle o.room.before o.room.last [] last_block)

  last_count : current_write_count last_block ≡ current_write_count o.room.last + length bytes
  last_count = length-append o.room.last.written bytes

  store-Stored :
      (full : Bool)
      → 0 < length bytes
      → current_write_count o.room.last + length bytes ≤ h₁.data_block_size
      → (full ≡ false → current_write_count o.room.last + length bytes < h₁.data_block_size)
      → Stored h bytes (after_copy full)
  store-Stored full some_byte fit roomy = record {
    valid = record {
      positive = omega (arith, o.same_size, o.positive);
      counted = rw copied_head (
          omega (
            arith,
            o.counted,
            ap length o.room.whole,
            length-append o.room.before (o.room.last ∷ []),
            length-append o.room.before (last_block ∷ []),
          ));
      fits = rw copied_head (
          All-append (Fits h₁.data_block_size) o.room.before (last_block ∷ []) o.fits
            (omega (arith, last_count)));
      tail_room = λ e. record {
        before = o.room.before;
        last = last_block;
        whole = copied_head;
        pointer = o.room.pointer;
        room = omega (arith, last_count, roomy e);
      };
    };
    stored =
        rw
          (
            copied_head,
            contents-snoc,
            o.kept,
            o.room.whole,
            contents-snoc o.room.before o.room.last,
          )
          (sym (append_assoc (contents o.room.before) o.room.last.written bytes));
    same_size = o.same_size;
    same_total = o.same_total;
    filled = λ f. rw copied_head (
        All-append IsFilled o.room.before (last_block ∷ []) (o.filled f)
          (omega (arith, last_count)));
  }

full_false :
    {h h₁ : Mfile} (o : Opened h h₁) (bytes : List ℕ)
    → (current_write_count (last_block o bytes) == h₁.data_block_size) ≡ false
    → current_write_count o.room.last + length bytes ≤ h₁.data_block_size
    → current_write_count o.room.last + length bytes < h₁.data_block_size
full_false o bytes ne le = ground (arith, last_count o bytes)

current_block_last :
    {h h₁ : Mfile} (o : Opened h h₁) → current_block h₁ ≡ some (length o.room.before, o.room.last)
unfolding current_block
current_block_last o =
    rw (o.room.pointer, o.room.whole) (block_at-middle o.room.before o.room.last [])

-- The loop returned `returned` after it stored the first `count` bytes of `rest`.
pub record WriteOutcome (alloc : ℕ → Bool) (h : Mfile) (rest : List ℕ) (result : Option (ℤ × Mfile))
    : Type 0 where
  pub returned : ℤ
  pub handler : Mfile
  pub count : ℕ
  pub runs : result ≡ some (returned, handler)
  pub stores : Stored h (take count rest) handler
  pub verdict :
      ((returned ≡ pos 1) × (count ≡ length rest))
      ⊎ ((returned ≡ negsuc 0) × (count < length rest) × (alloc handler.block_num ≡ false))

Stored-nil : {h : Mfile} → IsValid h → Stored h [] h
Stored-nil {h} v = record {
  valid = v;
  stored = sym (append-nil (contents h.head));
  same_size = refl;
  same_total = refl;
  filled = λ f. f;
}

Stored-append :
    {h h₁ h₂ : Mfile} (xs ys : List ℕ) → Stored h xs h₁ → Stored h₁ ys h₂ → Stored h (xs ++ ys) h₂
Stored-append {h} xs ys s t = record {
  valid = t.valid;
  stored = rw (t.stored, s.stored) (append_assoc (contents h.head) xs ys);
  same_size = t.same_size ∙ s.same_size;
  same_total = t.same_total ∙ s.same_total;
  filled = λ f. t.filled (s.filled f);
}

module _ (alloc : ℕ → Bool) where
  pub write_loop-stores :
      (fuel : ℕ) (rest : List ℕ) {h : Mfile}
      → IsValid h
      → length rest < fuel
      → WriteOutcome alloc h rest (write_loop alloc fuel rest h)
  unfolding write_loop
  write_loop-stores zero rest v lt = absurd (omega arith)
  write_loop-stores (suc fuel) [] {h} v lt = record {
    returned = pos 1;
    handler = h;
    count = 0;
    runs = refl;
    stores = Stored-nil v;
    verdict = inl (refl, refl);
  }
  write_loop-stores (suc fuel) (c ∷ rest) {h} v lt = elim (open_block_cases alloc v) [
    | inl (e, denied) ↦ record {
      returned = negsuc 0;
      handler = h;
      count = 0;
      runs = rw (e, write_loop);
      stores = Stored-nil v;
      verdict = inr (refl, omega arith, denied);
    }
    | inr (h₁, e, o) ↦
        let l = c ∷ rest in
        let free = h₁.data_block_size - current_write_count o.room.last in
        let found = current_block_last o in
        let chunk = take free l in
        let room = o.room.room in
        let flag = current_write_count (last_block o chunk) == h₁.data_block_size in
        let size = length-take free l in
        elim (Bool-cases (leb (length l) free)) [
          | inl fits ↦ record {
            returned = pos 1;
            handler = after_copy o chunk flag;
            count = length l;
            runs = rw (e, found, fits, write_loop);
            stores =
                subst (λ bs. Stored h bs (after_copy o chunk flag))
                  (take-length free l (omega tests) ∙ sym (take-length (length l) l (omega arith)))
                  (store-Stored o chunk flag (omega arith) (omega arith)
                    (λ ne. full_false o chunk ne (omega arith)));
            verdict = inl (refl, refl);
          }
          | inr over ↦
              let first = store-Stored o chunk true (omega arith) (omega arith) (λ ne. cc) in
              let r =
                write_loop-stores fuel (drop free l) first.valid
                  (omega (arith, length-drop free l)) in
              record {
                returned = r.returned;
                handler = r.handler;
                count = free + r.count;
                runs = rw (e, found, over, write_loop) r.runs;
                stores =
                    rw (← take-take-drop free r.count l)
                      (Stored-append chunk (take r.count (drop free l)) first r.stores);
                verdict = elim r.verdict [
                  | inl (done, all) ↦ inl (done, omega (tests, length-drop free l))
                  | inr (failed, part, denied) ↦
                      inr (failed, omega (tests, length-drop free l), denied)
                ];
              }
        ]
  ]

-- mwrite on a valid handler always returns: it appends all bytes and returns 1, or it appends a
-- proper prefix and returns -1, which happens only when an allocation fails; the handler stays
-- valid.
pub mwrite-stores :
    (alloc : ℕ → Bool) (bytes : List ℕ) {h : Mfile}
    → IsValid h
    → WriteOutcome alloc
        (record h { total_size = h.total_size + length bytes })
        bytes
        (mwrite alloc bytes h)
unfolding mwrite
mwrite-stores alloc bytes {h} v =
    write_loop-stores alloc (suc (length bytes)) bytes
      (record {
        positive = v.positive;
        counted = v.counted;
        fits = v.fits;
        tail_room = λ e.
            let r = v.tail_room e in
            record {
              before = r.before;
              last = r.last;
              whole = r.whole;
              pointer = r.pointer;
              room = r.room;
            };
      })
      (omega arith)
