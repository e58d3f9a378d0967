-- ===== src/Mfile/Line/Lines.antt =====
-- libmfile/mfile.c: the lines that `mread_line` hands out.
use carrots.Base.{
  inl, inr, ℕ, zero, suc, ◌+◌, ◌-◌, ◌<◌, ◌≤◌, ◌≡◌, ◌≢◌, refl, sym, ap, ◌∙◌, List, [], ◌∷◌, ◌++◌,
  append_assoc, append-nil, Option, some, true, false, ◌==◌, length, All, arith,
}
use carrots.Mfile.{Mfile}
use carrots.Mfile.Contents.{unread}
use carrots.Mfile.Invariant.{IsReadable}
use carrots.Mfile.Line.{
  mgetc, cr, lf, LineResult, with_cache, next_char, end_line, line_loop, mread_line,
}
use carrots.Mfile.Line.Char.{mgetc_next}

-- A character that does not end a line.
abbrev pub IsPlain : ℕ → Type 0
IsPlain c = (c ≢ cr) × (c ≢ lf) × (c ≢ 0)

-- A handler with `left` before its reader and the given character cached.
pub record Ready (left : List ℕ) (cache : ℕ) (h : Mfile) : Type 0 where
  pub readable : IsReadable h
  pub ahead : unread h ≡ left
  pub cached : h.ccache ≡ cache

-- What the next character is.
next_char_uncached :
    {c : ℕ} {rest : List ℕ} {h : Mfile}
    → Ready (c ∷ rest) lf h
    → (h' : Mfile) × (next_char h ≡ some (c, h')) × Ready rest lf h'
unfolding next_char
next_char_uncached {c} {rest} {h} r =
    let (h', runs, left, readable, cache) = mgetc_next h r.readable r.ahead in
    let fresh : (h.ccache == lf) ≡ true = ground (arith, r.cached) in
    (h', rw fresh runs, record { readable = readable; ahead = left; cached = cache ∙ r.cached })

-- The plain characters before the end of a line are copied one by one.
line_loop_plain :
    (line : List ℕ) (rounds : ℕ) (out rest : List ℕ) {h : Mfile}
    → All IsPlain line
    → length line ≤ rounds
    → Ready (line ++ rest) lf h
    → (h' : Mfile) × (line_loop rounds out h ≡ line_loop (rounds - length line) (out ++ line) h')
      × Ready rest lf h'
unfolding line_loop
line_loop_plain [] rounds out rest {h} plain fit r =
    let same : rounds ≡ rounds - 0 = omega arith in
    (
      h,
      ap (λ n. line_loop n out h) same
          ∙ ap (λ o. line_loop (rounds - 0) o h) (sym (append-nil out)),
      r,
    )
line_loop_plain (c ∷ line) zero out rest plain fit r = absurd (omega arith)
line_loop_plain (c ∷ line) (suc rounds) out rest {h} plain fit r =
    let (h₁, got, r₁) = next_char_uncached r in
    let (h', runs, r') =
      line_loop_plain line rounds (out ++ c ∷ []) rest plain.1 (omega arith) r₁ in
    let not_cr : (c == cr) ≡ false = ground (arith, plain.0) in
    let not_lf : (c == lf) ≡ false = ground (arith, plain.0) in
    let not_nul : (c == 0) ≡ false = ground (arith, plain.0) in
    let fewer : rounds - length line ≡ suc rounds - suc (length line) = omega arith in
    (
      h',
      rw (got, not_cr, not_lf, not_nul, line_loop)
          (runs
            ∙ ap (λ n. line_loop n ((out ++ c ∷ []) ++ line) h') fewer
            ∙ ap (λ o. line_loop (suc rounds - suc (length line)) o h')
                (append_assoc out (c ∷ []) line)),
      r',
    )

-- What `mread_line` returned, and what it left.
pub record Line (returned : ℕ) (line left : List ℕ) (cache : ℕ) (result : Option LineResult)
    : Type 0 where
  pub handler : Mfile
  pub runs : result ≡ some (record { returned = returned; line = line; handler = handler })
  pub ready : Ready left cache handler

with_cache-IsReadable : (c : ℕ) (h : Mfile) → IsReadable h → IsReadable (with_cache c h)
with_cache-IsReadable c h (inl s) =
    inl (record { pointer = s.pointer; undrained = s.undrained; fresh = s.fresh })
with_cache-IsReadable c h (inr a) = inr (record {
  before = a.before;
  here = a.here;
  after = a.after;
  whole = a.whole;
  pointer = a.pointer;
  fresh = a.fresh;
  inside = a.inside;
})

-- The character behind `\r`, which stays cached.
after_cr :
    {c : ℕ} {rest : List ℕ} {h : Mfile} (cache : ℕ)
    → Ready (c ∷ rest) cache h
    → (h' : Mfile) × (mgetc h ≡ some (c, h')) × Ready rest c (with_cache c h')
after_cr {c} {rest} {h} cache r =
    let (h', runs, left, readable, _) = mgetc_next h r.readable r.ahead in
    (
      h',
      runs,
      record { readable = with_cache-IsReadable c h' readable; ahead = left; cached = refl },
    )

module _ (line rest : List ℕ) (n : ℕ) {h : Mfile} (plain : All IsPlain line)
    (fit : length line + 2 < n) where
  -- A line that ends in LF is handed out with its end, and the reader is behind it.
  pub mread_line-lf :
      Ready (line ++ lf ∷ rest) lf h
      → Line (length line + 1) (line ++ lf ∷ []) rest lf (mread_line n h)
  unfolding mread_line line_loop
  mread_line-lf r =
      let (h₁, runs, r₁) = line_loop_plain line (n - 2) [] (lf ∷ rest) plain (omega arith) r in
      let (h₂, got, r₂) = next_char_uncached r₁ in
      let more : n - 2 - length line ≡ suc (n - 3 - length line) = omega arith in
      record { handler = h₂; runs = rw (runs, more, got, line_loop); ready = r₂ }

  -- When nothing is cached and the unread bytes of a readable handler begin with plain characters
  -- that fit into the buffer with two to spare, and then CR LF, mread_line returns the length of
  -- that line with its end, writes it into the buffer, and leaves what follows unread with nothing
  -- cached.
  pub mread_line-crlf :
      Ready (line ++ cr ∷ lf ∷ rest) lf h
      → Line (length line + 2) (line ++ cr ∷ lf ∷ []) rest lf (mread_line n h)
  unfolding mread_line line_loop end_line
  mread_line-crlf r =
      let (h₁, runs, r₁) = line_loop_plain line (n - 2) [] (cr ∷ lf ∷ rest) plain (omega arith) r in
      let (h₂, got, r₂) = next_char_uncached r₁ in
      let (h₃, got₂, r₃) = after_cr lf r₂ in
      let more : n - 2 - length line ≡ suc (n - 3 - length line) = omega arith in
      record {
        handler = with_cache lf h₃;
        runs = rw (runs, more, got, line_loop, got₂, end_line);
        ready = r₃;
      }

  -- A CR alone ends a line too; the character behind it stays cached.
  pub mread_line-cr :
      (x : ℕ)
      → IsPlain x
      → Ready (line ++ cr ∷ x ∷ rest) lf h
      → Line (length line + 1) (line ++ cr ∷ []) rest x (mread_line n h)
  unfolding mread_line line_loop end_line
  mread_line-cr x px r =
      let (h₁, runs, r₁) = line_loop_plain line (n - 2) [] (cr ∷ x ∷ rest) plain (omega arith) r in
      let (h₂, got, r₂) = next_char_uncached r₁ in
      let (h₃, got₂, r₃) = after_cr lf r₂ in
      let more : n - 2 - length line ≡ suc (n - 3 - length line) = omega arith in
      let not_lf : (x == lf) ≡ false = ground (arith, px) in
      let not_nul : (x == 0) ≡ false = ground (arith, px) in
      record {
        handler = with_cache x h₃;
        runs = rw (runs, more, got, line_loop, got₂, end_line, not_nul, not_lf);
        ready = r₃;
      }

next_char_cached :
    (h : Mfile) (x : ℕ) → h.ccache ≡ x → x ≢ lf → next_char h ≡ some (x, with_cache cr h)
unfolding next_char
next_char_cached h x e ne =
    let cached : (h.ccache == lf) ≡ false = ground arith in
    rw cached (ap (λ k. some (k, with_cache cr h)) e)

-- On a readable handler with a plain character cached, a plain character next and a buffer of at
-- least four bytes, mread_line returns 2 and a line of the cached character and a CR that the text
-- does not have; the next character is read and cached.
pub mread_line-invents_cr :
    {x c : ℕ} {rest : List ℕ} (n : ℕ) {h : Mfile}
    → 3 < n
    → IsPlain x
    → IsPlain c
    → Ready (c ∷ rest) x h
    → Line 2 (x ∷ cr ∷ []) rest c (mread_line n h)
unfolding mread_line line_loop end_line
mread_line-invents_cr {x} {c} {rest} n {h} big px pc r =
    let not_cr : (x == cr) ≡ false = ground (arith, px) in
    let not_lf : (x == lf) ≡ false = ground (arith, px) in
    let not_nul : (x == 0) ≡ false = ground (arith, px) in
    let c_lf : (c == lf) ≡ false = ground (arith, pc) in
    let c_nul : (c == 0) ≡ false = ground (arith, pc) in
    let rounds : n - 2 ≡ suc (suc (n - 4)) = omega arith in
    let ready : Ready (c ∷ rest) cr (with_cache cr h) = record {
      readable = with_cache-IsReadable cr h r.readable;
      ahead = r.ahead;
      cached = refl;
    } in
    let (h₁, got, r₁) = after_cr cr ready in
    record {
      handler = with_cache c h₁;
      runs = rw (
        rounds,
        line_loop,
        next_char_cached h x r.cached px.1,
        not_cr,
        not_lf,
        not_nul,
        next_char_cached (with_cache cr h) cr refl (omega arith),
        end_line,
        got,
        c_nul,
        c_lf,
      );
      ready = r₁;
    }

-- When nothing is cached and the unread bytes of a readable handler begin with as many plain
-- characters as a buffer of two more bytes takes, mread_line returns 0, the buffer holds them, and
-- the rest is unread.
pub mread_line-too_long :
    (line rest : List ℕ) {h : Mfile}
    → All IsPlain line
    → Ready (line ++ rest) lf h
    → Line 0 line rest lf (mread_line (length line + 2) h)
unfolding mread_line line_loop
mread_line-too_long line rest {h} plain r =
    let rounds : length line + 2 - 2 ≡ length line = omega arith in
    let (h₁, runs, r₁) = line_loop_plain line (length line) [] rest plain (omega arith) r in
    let none_left : length line - length line ≡ 0 = omega arith in
    record {
      handler = h₁;
      runs = ap (λ k. line_loop k [] h) rounds ∙ runs ∙ ap (λ k. line_loop k line h₁) none_left;
      ready = r₁;
    }
