-- ===== src/Utf8/Tidied.antt =====
-- str_utf8/str_utf8.c: what `utf8_strncpy` stores of the characters of its string.
use carrots.Base.{
  ℕ, zero, suc, ◌≤◌, ◌<◌, ◌≡◌, refl, sym, ap, ◌∙◌, inl, inr, List, [], ◌∷◌, ◌++◌, append_assoc,
  some, Bool, true, false, true-ne, ◌==◌, ==_iff, ◌&&◌, if◌then◌else◌, Bool-cases, length,
  length-append, take, drop, All, arith,
}
use carrots.Utf8.{utf8_check, fits, is_skipped, put, strncpy_loop, terminated, utf8_strncpy}
use carrots.Utf8.Count.{IsWhole, IsStuck, join, utf8_strlen-Counted}
use carrots.Utf8.Copy.{lead, Copied, Copies, strncpy_loop-Copies}

-- The characters without CR, LF and TAB.
unfoldable pub unmarked : List (List ℕ) → List (List ℕ)
unmarked [] = []
unmarked (char ∷ chars) = if is_skipped (lead char) then unmarked chars else char ∷ unmarked chars

-- The characters with each run of spaces made one space; with `gap`, those at the front are left out.
unfoldable pub squeezed : Bool → List (List ℕ) → List (List ℕ)
squeezed gap [] = []
squeezed gap (char ∷ chars) =
    let rest = squeezed (lead char == 32) chars in
    if gap && lead char == 32 then rest else char ∷ rest

skipped-check : (c : ℕ) → is_skipped c ≡ true → utf8_check c ≡ 1
unfolding utf8_check
skipped-check c h = elim (Bool-cases (c == 13)) [
  | inl cr ↦ rw ((==_iff c 13).0 cr) refl
  | inr a ↦ elim (Bool-cases (c == 10)) [
    | inl lf ↦ rw ((==_iff c 10).0 lf) refl
    | inr b ↦ rw ((==_iff c 9).0 (rw (a, b) at h)) refl
  ]
]

blank-check : (c : ℕ) → (c == 32) ≡ true → utf8_check c ≡ 1
unfolding utf8_check
blank-check c h = rw ((==_iff c 32).0 h) refl

fits-inside : (n : ℕ) (xs : List ℕ) → 0 < n → n ≤ length xs → fits n xs ≡ true
fits-inside n xs a b = ground arith

one-fits : (c n : ℕ) (cs : List ℕ) → n ≡ 1 → fits n (c ∷ cs) ≡ true
one-fits c n cs h = fits-inside n (c ∷ cs) (omega (arith, h)) (omega (arith, h))

-- A character of one byte.
one-byte : (c : ℕ) (cs : List ℕ) → IsWhole (c ∷ cs) → utf8_check c ≡ 1 → cs ≡ []
unfolding IsWhole
one-byte c [] whole one = refl
one-byte c (d ∷ ds) whole one = absurd (omega (arith, whole, one))

take-exact : (xs ys : List ℕ) → take (length xs) (xs ++ ys) ≡ xs
take-exact [] ys = refl
take-exact (x ∷ xs) ys = ap (◌∷◌ x) (take-exact xs ys)

drop-exact : (xs ys : List ℕ) → drop (length xs) (xs ++ ys) ≡ ys
drop-exact [] ys = refl
drop-exact (x ∷ xs) ys = drop-exact xs ys

-- A character is taken whole, whatever is behind it.
whole-first :
    (c : ℕ) (cs rest : List ℕ)
    → IsWhole (c ∷ cs)
    → (fits (utf8_check c) (c ∷ (cs ++ rest)) ≡ true)
      × (take (utf8_check c) (c ∷ (cs ++ rest)) ≡ c ∷ cs)
      × (drop (utf8_check c) (c ∷ (cs ++ rest)) ≡ rest)
unfolding IsWhole
whole-first c cs rest whole =
    let size = length-append cs rest in
    (
      fits-inside (utf8_check c) (c ∷ (cs ++ rest)) (omega (arith, whole))
          (omega (arith, whole, size)),
      ap (λ n. take n (c ∷ (cs ++ rest))) whole ∙ take-exact (c ∷ cs) rest,
      ap (λ n. drop n (c ∷ (cs ++ rest))) whole ∙ drop-exact (c ∷ cs) rest,
    )

no_gap : (gap : Bool) → (gap && false) ≡ false
no_gap true = refl
no_gap false = refl

-- Where no character fits the loop stops.
strncpy_loop-stuck :
    (fuel : ℕ) (rest : List ℕ) (room : ℕ) (gap : Bool)
    → IsStuck rest
    → length rest ≤ fuel
    → strncpy_loop fuel rest room gap ≡ some []
unfolding strncpy_loop IsStuck
strncpy_loop-stuck fuel [] room gap stuck h = refl
strncpy_loop-stuck fuel (c ∷ cs) zero gap stuck h = refl
strncpy_loop-stuck zero (c ∷ cs) (suc room) gap stuck h = absurd (omega arith)
strncpy_loop-stuck (suc fuel) (c ∷ cs) (suc room) gap stuck h = elim (Bool-cases (is_skipped c)) [
  | inl skipped ↦
      absurd (true-ne (sym (one-fits c (utf8_check c) cs (skipped-check c skipped)) ∙ stuck))
  | inr kept ↦ elim (Bool-cases (c == 32)) [
    | inl blank ↦
        absurd (true-ne (sym (one-fits c (utf8_check c) cs (blank-check c blank)) ∙ stuck))
    | inr dark ↦ rw (kept, dark, stuck) refl
  ]
]

-- What the loop stores is the tidied characters, as many as there is room for.
strncpy_loop-tidied :
    (fuel : ℕ) (chars : List (List ℕ)) (rest : List ℕ) (room : ℕ) (gap : Bool)
    → All IsWhole chars
    → IsStuck rest
    → length (join chars ++ rest) ≤ fuel
    → strncpy_loop fuel (join chars ++ rest) room gap
      ≡ some (join (take room (squeezed gap (unmarked chars))))
unfolding strncpy_loop squeezed unmarked IsWhole
strncpy_loop-tidied fuel [] rest zero gap whole stuck h = strncpy_loop-stuck fuel rest 0 gap stuck h
strncpy_loop-tidied fuel [] rest (suc room) gap whole stuck h =
    strncpy_loop-stuck fuel rest (suc room) gap stuck h
strncpy_loop-tidied fuel ([] ∷ chars) rest room gap whole stuck h = absurd whole.0
strncpy_loop-tidied fuel ((c ∷ cs) ∷ chars) rest zero gap whole stuck h = refl
strncpy_loop-tidied zero ((c ∷ cs) ∷ chars) rest (suc room) gap whole stuck h = absurd (omega arith)
strncpy_loop-tidied (suc fuel) ((c ∷ cs) ∷ chars) rest (suc room) gap whole stuck h =
    let behind = join chars ++ rest in
    let size : length ((cs ++ join chars) ++ rest) ≤ fuel = omega arith in
    let apart = append_assoc cs (join chars) rest in
    let short : length behind ≤ fuel = omega (arith, ap length apart, length-append cs behind) in
    elim (Bool-cases (is_skipped c)) [
      | inl skipped ↦
          let alone = one-byte c cs whole.0 (skipped-check c skipped) in
          rw (skipped, alone)
            (strncpy_loop-tidied fuel chars rest (suc room) gap whole.1 stuck short)
      | inr kept ↦ elim (Bool-cases (c == 32)) [
        | inl blank ↦
            let alone = one-byte c cs whole.0 (blank-check c blank) in
            elim (Bool-cases gap) [
              | inl after ↦
                  rw (kept, blank, alone, after)
                    (strncpy_loop-tidied fuel chars rest (suc room) true whole.1 stuck short)
              | inr first ↦
                  rw (kept, blank, alone, first)
                    (ap (put (c ∷ []))
                      (strncpy_loop-tidied fuel chars rest room true whole.1 stuck short))
            ]
        | inr dark ↦
            let (on, taken, left) = whole-first c cs behind whole.0 in
            rw (apart, kept, dark, on, taken, left)
              (ap (put (c ∷ cs))
                  (strncpy_loop-tidied fuel chars rest room false whole.1 stuck short)
                ∙ rw (no_gap gap) refl)
      ]
    ]

same_bytes : {x y : List ℕ} → some x ≡ some y → x ≡ y
same_bytes e = cc

-- The string is whole characters and a rest where none fits, and the bytes are those of its characters
-- without CR, LF and TAB and with single spaces between words only, as far as there is room.
pub record Stored (src : List ℕ) (max : ℕ) (out : List ℕ) : Type 0 where
  pub chars : List (List ℕ)
  pub rest : List ℕ
  pub split : src ≡ join chars ++ rest
  pub whole : All IsWhole chars
  pub stuck : IsStuck rest
  pub bytes : out ≡ join (take max (squeezed true (unmarked chars)))
  pub copied : Copied src max true out

-- utf8_strncpy of a string for at least one character always returns. The string is whole
-- characters and a rest where none fits, and what is stored is the bytes of these characters, in
-- order, less CR, LF and TAB, less the spaces that then stand at the front or behind a space, and
-- only the first max of what is left. That is at most max whole characters, in no more bytes than
-- the string has.
pub utf8_strncpy-Stored :
    (src : List ℕ) (max : ℕ)
    → 0 < max
    → (out : List ℕ) × (utf8_strncpy (some src) max ≡ some (terminated out)) × Stored src max out
unfolding utf8_strncpy Copies
utf8_strncpy-Stored src max h =
    let (out, eq, copied) = strncpy_loop-Copies (length src) src max true (omega arith) in
    let c = utf8_strlen-Counted src in
    let some_room : (max == 0) ≡ false = ground arith in
    let size : length (join c.chars ++ c.rest) ≤ length src = omega (arith, ap length c.split) in
    let runs =
      ap (λ s. strncpy_loop (length src) s max true) c.split
      ∙ strncpy_loop-tidied (length src) c.chars c.rest max true c.whole c.stuck size in
    (
      out,
      rw (some_room, eq) refl,
      record {
        chars = c.chars;
        rest = c.rest;
        split = c.split;
        whole = c.whole;
        stuck = c.stuck;
        bytes = same_bytes (sym eq ∙ runs);
        copied = copied;
      },
    )
