-- ===== src/Ctchild/Segment.antt =====
-- ctserver/src/ctchild.c: what `read_buf_from_sockfd` stores of a line and of what is no line yet.
use carrots.Base.{
  true-ne, ℕ, suc, ◌+◌, ◌-◌, ◌<◌, ◌≡◌, refl, sym, ap, ◌∙◌, inl, inr, List, [], ◌∷◌, ◌++◌,
  append_assoc, Option, some, Bool, true, false, ltb, ◌==◌, Bool-cases, length, length-append,
  get_or, All, arith, if◌then◌else◌, append-nil, subst,
}
use carrots.Base.Int.{pos}
use carrots.Mfile.{Mfile}
use carrots.Mfile.Contents.{contents}
use carrots.Mfile.Invariant.{IsValid}
use carrots.Ctchild.{
  got, is_one, fast_write, Ending, returns, no_value, finish, segment_loop, read_buf_from_sockfd,
}
use carrots.Ctchild.Socket.{mwrite-MfileWritten}

abbrev pub always : ℕ → Bool
always n = true

-- A write with memory.
record Flushed (h : Mfile) (bytes : List ℕ) (o : Option (Bool × Mfile)) : Type 0 where
  handler : Mfile
  runs : o ≡ some (true, handler)
  stored : contents handler.head ≡ contents h.head ++ bytes
  valid : IsValid handler

fast_write-Flushed :
    (h : Mfile) (bytes : List ℕ) → IsValid h → Flushed h bytes (fast_write always bytes h)
unfolding fast_write is_one
fast_write-Flushed h bytes v =
    let w = mwrite-MfileWritten always h bytes v in
    elim w.verdict [
      | inl all ↦
          rw (all.0) (record { handler = w.handler; runs = refl; stored = all.1; valid = w.valid })
      | inr short ↦ absurd (true-ne short.1)
    ]

-- The line is stored, and its length returned.
unfoldable pub Takes : Mfile → List ℕ → ℕ → Option (Ending × Mfile) → Type 0
Takes h bytes n o =
    (h₁ : Mfile) × (o ≡ some (returns (pos n), h₁))
    × (contents h₁.head ≡ contents h.head ++ bytes)
    × IsValid h₁

-- CR LF
abbrev pub crlf : List ℕ
crlf = 13 ∷ 10 ∷ []

abbrev pub IsPlain : ℕ → Type 0
IsPlain c = (c == 13) ≡ false

finish-Takes :
    (size : ℕ) (tbuf : List ℕ) (total : ℕ) (h : Mfile)
    → IsValid h
    → Takes h tbuf (total + length tbuf) (finish always size crlf tbuf total h)
unfolding finish Takes
finish-Takes size tbuf total h v =
    let w = fast_write-Flushed h tbuf v in rw (w.runs) (w.handler, refl, w.stored, w.valid)

-- One byte: what is left to do, from the buffer, the total and the file that it leaves.
record Step (size : ℕ) (tbuf : List ℕ) (total : ℕ) (h : Mfile) : Type 0 where
  kept : List ℕ
  stored : ℕ
  file : Mfile
  valid : IsValid file
  same_bytes : contents file.head ++ kept ≡ contents h.head ++ tbuf
  same_total : stored + length kept ≡ total + length tbuf
  next :
      (ch : ℕ) (rest : List ℕ) (state : ℕ)
      → segment_loop always size crlf (ch ∷ rest) tbuf state total h ≡ (
          if ch == get_or crlf state 0
          then (if suc state == 2
              then finish always size crlf (kept ++ ch ∷ []) stored file
              else segment_loop always size crlf rest (kept ++ ch ∷ []) (suc state) stored file)
          else segment_loop always size crlf rest (kept ++ ch ∷ []) 0 stored file)

step : (size : ℕ) (tbuf : List ℕ) (total : ℕ) (h : Mfile) → IsValid h → Step size tbuf total h
unfolding segment_loop
step size tbuf total h v = elim (Bool-cases (ltb (size - length tbuf) 2)) [
  | inl full ↦
      let w = fast_write-Flushed h tbuf v in
      record {
        kept = [];
        stored = total + length tbuf;
        file = w.handler;
        valid = w.valid;
        same_bytes = append-nil (contents w.handler.head) ∙ w.stored;
        same_total = omega arith;
        next = λ ch rest state. rw (full, w.runs) refl;
      }
  | inr room ↦ record {
    kept = tbuf;
    stored = total;
    file = h;
    valid = v;
    same_bytes = refl;
    same_total = refl;
    next = λ ch rest state. rw room refl;
  }
]

-- What is taken behind a step is taken before it.
Takes-Step :
    (size : ℕ) (tbuf : List ℕ) (total : ℕ) (h : Mfile) (s : Step size tbuf total h) (r : List ℕ)
    (n m : ℕ) (o : Option (Ending × Mfile))
    → n ≡ m
    → Takes s.file (s.kept ++ r) n o
    → Takes h (tbuf ++ r) m o
unfolding Takes
Takes-Step size tbuf total h s r n m o e (h₁, runs, stored, valid) = (
  h₁,
  runs ∙ ap (λ k. some (returns (pos k), h₁)) e,
  stored
      ∙ sym (append_assoc (contents s.file.head) s.kept r)
      ∙ ap (λ (l : List ℕ). l ++ r) s.same_bytes
      ∙ append_assoc (contents h.head) tbuf r,
  valid,
)

Takes-crlf :
    (size : ℕ) (tbuf : List ℕ) (total : ℕ) (h : Mfile)
    → IsValid h
    → Takes h
        (tbuf ++ crlf)
        (total + length tbuf + 2)
        (segment_loop always size crlf crlf tbuf 0 total h)
Takes-crlf size tbuf total h v =
    let s = step size tbuf total h v in
    let t = step size (s.kept ++ 13 ∷ []) s.stored s.file s.valid in
    let line = t.kept ++ 10 ∷ [] in
    let last = finish-Takes size line t.stored t.file t.valid in
    let inner =
      Takes-Step size (s.kept ++ 13 ∷ []) s.stored s.file t (10 ∷ []) (t.stored + length line)
        (s.stored + length s.kept + 2) (finish always size crlf line t.stored t.file)
        (omega
          (arith, t.same_total, length-append t.kept (10 ∷ []), length-append s.kept (13 ∷ [])))
        last in
    rw (s.next 13 (10 ∷ []) 0, t.next 10 [] 1)
      (Takes-Step size tbuf total h s crlf (s.stored + length s.kept + 2) (total + length tbuf + 2)
        (finish always size crlf line t.stored t.file) (omega (arith, s.same_total))
        (subst
          (λ l.
            Takes s.file l (s.stored + length s.kept + 2)
              (finish always size crlf line t.stored t.file))
          (append_assoc s.kept (13 ∷ []) (10 ∷ [])) inner))

Takes-line :
    (pre : List ℕ) (size : ℕ) (tbuf : List ℕ) (total : ℕ) (h : Mfile)
    → All IsPlain pre
    → IsValid h
    → Takes h
        (tbuf ++ (pre ++ crlf))
        (total + length tbuf + length (pre ++ crlf))
        (segment_loop always size crlf (pre ++ crlf) tbuf 0 total h)
Takes-line [] size tbuf total h plain v = Takes-crlf size tbuf total h v
Takes-line (c ∷ cs) size tbuf total h plain v =
    let s = step size tbuf total h v in
    let line = s.kept ++ c ∷ [] in
    let o = segment_loop always size crlf (cs ++ crlf) line 0 s.stored s.file in
    let r = Takes-line cs size line s.stored s.file plain.1 s.valid in
    let n = s.stored + length line + length (cs ++ crlf) in
    rw (s.next c (cs ++ crlf) 0, plain.0)
      (Takes-Step size tbuf total h s (c ∷ (cs ++ crlf)) n
        (total + length tbuf + length (c ∷ cs ++ crlf)) o
        (omega (arith, s.same_total, length-append s.kept (c ∷ [])))
        (subst (λ l. Takes s.file l n o) (append_assoc s.kept (c ∷ []) (cs ++ crlf)) r))

-- read_buf_from_sockfd for CR LF on a valid file, when there is memory and the read gives one line
-- that ends in CR LF and has no CR before it, returns the length of the line and has stored it
-- behind the contents, whatever the size of its buffer; the file stays valid.
pub read_buf_from_sockfd-Takes :
    (size : ℕ) (pre : List ℕ) (h : Mfile)
    → All IsPlain pre
    → IsValid h
    → Takes h
        (pre ++ crlf)
        (length (pre ++ crlf))
        (read_buf_from_sockfd always size crlf (got (pre ++ crlf)) h)
unfolding read_buf_from_sockfd
read_buf_from_sockfd-Takes size pre h plain v =
    let e : 0 + 0 + length (pre ++ crlf) ≡ length (pre ++ crlf) = omega arith in
    subst (λ k. Takes h (pre ++ crlf) k (segment_loop always size crlf (pre ++ crlf) [] 0 0 h)) e
      (Takes-line pre size [] 0 h plain v)

no_line :
    (bytes : List ℕ) (size : ℕ) (tbuf : List ℕ) (total : ℕ) (h : Mfile)
    → All IsPlain bytes
    → length tbuf + length bytes < size
    → segment_loop always size crlf bytes tbuf 0 total h ≡ some (no_value, h)
unfolding segment_loop
no_line [] size tbuf total h plain fits = refl
no_line (c ∷ cs) size tbuf total h plain fits =
    let room : ltb (size - length tbuf) 2 ≡ false = ground arith in
    rw (room, plain.0)
      (no_line cs size (tbuf ++ c ∷ []) total h plain.1
        (omega (arith, length-append tbuf (c ∷ []))))

-- read_buf_from_sockfd for CR LF of bytes without a CR that fit in its buffer ends without a
-- return value and stores nothing: the bytes are lost.
pub read_buf_from_sockfd-loses :
    (size : ℕ) (bytes : List ℕ) (h : Mfile)
    → All IsPlain bytes
    → length bytes < size
    → read_buf_from_sockfd always size crlf (got bytes) h ≡ some (no_value, h)
unfolding read_buf_from_sockfd
read_buf_from_sockfd-loses size bytes h plain fits = no_line bytes size [] 0 h plain (omega arith)
