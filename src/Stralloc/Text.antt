-- ===== src/Stralloc/Text.antt =====
-- libstralloc/stralloc.c: what the copying and the appending operations leave as the text.
use carrots.Base.{
  ℕ, ◌+◌, ◌≤◌, ◌<◌, ◌≡◌, ◌⊎◌, refl, inl, inr, List, [], ◌∷◌, ◌++◌, Option, none, some, Bool, true,
  false, leb, Option-cases, if◌then◌else◌, length, take, drop, get_elem?, length-append,
  length-take, length-drop, take-append_lt, append_assoc, take-length, arith, ap, ◌∙◌,
  get_elem?-middle, subst,
}
use carrots.Stralloc.{
  Stralloc, Result, u32, put_text, stralloc_ready, stralloc_readyplus, stralloc_copyb,
  stralloc_catb, text,
}
use carrots.Stralloc.Allocator.{Buffer, Memory}
use carrots.Stralloc.Ready.{IsSound, Prepares, stralloc_ready-Prepares, stralloc_readyplus-ready}

-- A string has the NUL behind its text.
unfoldable pub IsTerminated : Stralloc → Type 0
IsTerminated x = elim x.s [ none ↦ ⊥ | some b ↦ get_elem? b.cells x.len ≡ some 0 ]

-- An operation is in bounds and returns: it has stored the text with its NUL, or refused.
unfoldable pub Stores : Stralloc → List ℕ → Option Result → Type 0
Stores x wanted o =
    (r : Result) × (o ≡ some r)
    × IsSound r.string
    × ((r.done ≡ true) × (text r.string ≡ wanted) × IsTerminated r.string
        ⊎ (r.done ≡ false) × (text r.string ≡ text x))

-- The cells that `write_at` leaves of the bytes and a NUL.
module _ (offset : ℕ) (bytes cells : List ℕ) (fits : offset + length bytes < length cells) where
  abbrev full : List ℕ
  full = take offset cells ++ (bytes ++ 0 ∷ []) ++ drop (offset + length (bytes ++ 0 ∷ [])) cells

  length-front : length (take offset cells ++ bytes) ≡ offset + length bytes
  length-front = omega (arith, length-append (take offset cells) bytes, length-take offset cells)

  length-full : length full ≡ length cells
  length-full = omega (
    arith,
    length-append (take offset cells ++ (bytes ++ 0 ∷ []))
        (drop (offset + length (bytes ++ 0 ∷ [])) cells),
    length-append (take offset cells) (bytes ++ 0 ∷ []),
    length-append bytes (0 ∷ []),
    length-take offset cells,
    length-drop (offset + length (bytes ++ 0 ∷ [])) cells,
  )

  full-split :
      full ≡ (take offset cells ++ bytes) ++ 0 ∷ drop (offset + length (bytes ++ 0 ∷ [])) cells
  full-split = simp (append_assoc)

  take-full : take (offset + length bytes) full ≡ take offset cells ++ bytes
  take-full =
      let rest = 0 ∷ drop (offset + length (bytes ++ 0 ∷ [])) cells in
      rw full-split (
        take-append_lt (offset + length bytes) (take offset cells ++ bytes) rest
          (omega (arith, length-front))
        ∙ take-length (offset + length bytes) (take offset cells ++ bytes)
            (omega (arith, length-front)))

  get_elem?-full : get_elem? full (offset + length bytes) ≡ some 0
  get_elem?-full =
      rw (full-split, ← length-front)
        (get_elem?-middle (take offset cells ++ bytes) 0
          (drop (offset + length (bytes ++ 0 ∷ [])) cells))

abbrev stored : Stralloc → Buffer → Memory → ℕ → List ℕ → List ℕ → Result
stored y b mem offset bytes cells = record {
  done = true;
  string = record y { s = some (record b { cells = cells }); len = offset + length bytes };
  memory = mem;
}

put_text-stored :
    (y : Stralloc) (b : Buffer) (mem : Memory) (offset : ℕ) (bytes : List ℕ)
    → y.s ≡ some b
    → (fits : offset + length bytes < length b.cells)
    → put_text y mem offset bytes
      ≡ some (stored y b mem offset bytes (full offset bytes b.cells fits))
unfolding put_text
put_text-stored y b mem offset bytes here fits =
    let inside : leb (offset + length (bytes ++ 0 ∷ [])) (length b.cells) ≡ true =
      ground (arith, length-append bytes (0 ∷ [])) in
    simp (here, inside, put_text)

-- Bytes that fit behind the first `offset` characters are stored there.
put_text-Stores :
    (x y : Stralloc) (b : Buffer) (mem : Memory) (offset : ℕ) (bytes : List ℕ)
    → y.s ≡ some b
    → offset + length bytes < y.a
    → y.a ≤ length b.cells
    → Stores x (take offset b.cells ++ bytes) (put_text y mem offset bytes)
unfolding Stores IsSound IsTerminated
put_text-Stores x y b mem offset bytes here room bounded =
    let fits : offset + length bytes < length b.cells = omega arith in
    (
      stored y b mem offset bytes (full offset bytes b.cells fits),
      put_text-stored y b mem offset bytes here fits,
      (omega (arith, length-full offset bytes b.cells fits), omega arith),
      inl (refl, take-full offset bytes b.cells fits, get_elem?-full offset bytes b.cells fits),
    )

module _ (malloc : ℕ → Bool) (junk : ℕ) where
  -- stralloc_copyb of fewer than 1899999999 bytes on a sound string never leaves its buffer: it
  -- returns 1 with exactly these bytes as the text and a NUL behind them, or 0 with the text as it
  -- was; the string is sound again.
  pub stralloc_copyb-Stores :
      (x : Stralloc) (bytes : List ℕ) (mem : Memory)
      → IsSound x
      → length bytes < 1899999999
      → Stores x bytes (stralloc_copyb malloc junk x bytes mem)
  unfolding stralloc_copyb Prepares Stores
  stralloc_copyb-Stores x bytes mem sound small =
      let size : u32 (length bytes + 1) ≡ length bytes + 1 = omega arith in
      let (r, eq, outcome) =
        stralloc_ready-Prepares malloc junk x (length bytes + 1) mem sound (omega arith) in
      elim outcome [
        | inl p ↦
            rw (size, eq, p.done, stralloc_copyb)
              (put_text-Stores x r.string p.buffer r.memory 0 bytes p.string (omega (arith, p.room))
                p.bounded)
        | inr p ↦
            rw (size, eq, p.failed, stralloc_copyb) (r, refl, p.sound, inr (p.failed, p.same_text))
      ]

  catb_first :
      (x : Stralloc) (bytes : List ℕ) (mem : Memory)
      → x.s ≡ none
      → stralloc_catb malloc junk x bytes mem ≡ stralloc_copyb malloc junk x bytes mem
  unfolding stralloc_catb
  catb_first x bytes mem fresh = simp (fresh, stralloc_catb)

  catb_next :
      (x : Stralloc) (b : Buffer) (r : Result) (bytes : List ℕ) (mem : Memory)
      → x.s ≡ some b
      → stralloc_readyplus malloc junk x (u32 (length bytes + 1)) mem ≡ some r
      → stralloc_catb malloc junk x bytes mem
        ≡ (if r.done then put_text r.string r.memory r.string.len bytes else some r)
  unfolding stralloc_catb
  catb_next x b r bytes mem here plus = simp (here, plus, stralloc_catb)

  -- stralloc_catb on a sound string, when the text and the bytes are fewer than 1899999999, never
  -- leaves its buffer: it returns 1 with the bytes behind the former text and a NUL behind them,
  -- or 0 with the text as it was; the string is sound again.
  pub stralloc_catb-Stores :
      (x : Stralloc) (bytes : List ℕ) (mem : Memory)
      → IsSound x
      → x.len + length bytes < 1899999999
      → Stores x (text x ++ bytes) (stralloc_catb malloc junk x bytes mem)
  unfolding Prepares Stores
  stralloc_catb-Stores x bytes mem sound small = elim (Option-cases x.s) [
    | inl fresh ↦
        let none_yet : text x ++ bytes ≡ bytes = rw fresh refl in
        rw (catb_first x bytes mem fresh, none_yet)
          (stralloc_copyb-Stores x bytes mem sound (omega arith))
    | inr (b, here) ↦
        let size : u32 (u32 (length bytes + 1) + x.len) ≡ x.len + length bytes + 1 = omega arith in
        let (r, eq, outcome) =
          stralloc_ready-Prepares malloc junk x (x.len + length bytes + 1) mem sound
            (omega arith) in
        let plus : stralloc_readyplus malloc junk x (u32 (length bytes + 1)) mem ≡ some r =
          stralloc_readyplus-ready malloc junk x b (u32 (length bytes + 1)) mem here
          ∙ ap (λ k. stralloc_ready malloc junk x k mem) size
          ∙ eq in
        rw (catb_next x b r bytes mem here plus) (elim outcome [
          | inl p ↦ rw (p.done) (
              subst (λ t. Stores x (t ++ bytes) (put_text r.string r.memory r.string.len bytes))
                (ap (λ k. take k p.buffer.cells) p.same_length ∙ p.same_text)
                (put_text-Stores x r.string p.buffer r.memory r.string.len bytes p.string
                  (omega (arith, p.room, p.same_length)) p.bounded))
          | inr p ↦ rw (p.failed) (r, refl, p.sound, inr (p.failed, p.same_text))
        ])
  ]
