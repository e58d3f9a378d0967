-- ===== src/Ctchild/Socket.antt =====
-- ctserver/src/ctchild.c: what `read_buf_to_mfp_from_sockfd` stores and returns.
use carrots.Base.{
  true-ne, ℕ, ◌+◌, ◌≡◌, ◌⊎◌, refl, sym, ap, ◌∙◌, inl, inr, List, [], ◌∷◌, ◌++◌, append-nil,
  append_assoc, Option, some, Bool, true, false, length, take, take-length, arith,
}
use carrots.Base.Int.{ℤ, pos, negsuc}
use carrots.Mfile.{Mfile, mwrite}
use carrots.Mfile.Contents.{contents}
use carrots.Mfile.Invariant.{IsValid}
use carrots.Mfile.Write.{mwrite-stores}
use carrots.Ctchild.{
  Reading, got, again, end_of_file, is_one, read_loop, read_buf_to_mfp_from_sockfd,
}

-- What `mwrite` of the bytes to a valid file leaves: all of them and 1, or -1 when memory is short.
pub record MfileWritten (alloc : ℕ → Bool) (h : Mfile) (bytes : List ℕ) (o : Option (ℤ × Mfile))
    : Type 0 where
  pub handler : Mfile
  pub valid : IsValid handler
  pub verdict :
      ((o ≡ some (pos 1, handler)) × (contents handler.head ≡ contents h.head ++ bytes))
      ⊎ ((o ≡ some (negsuc 0, handler)) × (alloc handler.block_num ≡ false))

pub mwrite-MfileWritten :
    (alloc : ℕ → Bool) (h : Mfile) (bytes : List ℕ)
    → IsValid h
    → MfileWritten alloc h bytes (mwrite alloc bytes h)
mwrite-MfileWritten alloc h bytes v =
    let w = mwrite-stores alloc bytes v in
    record {
      handler = w.handler;
      valid = w.stores.valid;
      verdict = elim w.verdict [
        | inl all ↦ inl (
          w.runs ∙ ap (λ (z : ℤ). some (z, w.handler)) all.0,
          w.stores.stored
              ∙ ap (λ (l : List ℕ). contents h.head ++ l)
                  (ap (λ k. take k bytes) all.1 ∙ take-length (length bytes) bytes (omega arith)),
        )
        | inr short ↦ inr (w.runs ∙ ap (λ (z : ℤ). some (z, w.handler)) short.0, short.2)
      ];
    }

abbrev pub join : List (List ℕ) → List ℕ
join [] = []
join (c ∷ cs) = c ++ join cs

-- The reads that give these chunks, and then find nothing more.
abbrev pub chunks_then_again : List (List ℕ) → List Reading
chunks_then_again [] = again ∷ []
chunks_then_again (c ∷ cs) = got c ∷ chunks_then_again cs

pub record Saved (alloc : ℕ → Bool) (h : Mfile) (bytes : List ℕ) (count : ℕ)
    (o : Option (ℤ × Mfile)) : Type 0 where
  pub handler : Mfile
  pub valid : IsValid handler
  pub verdict :
      ((o ≡ some (pos count, handler)) × (contents handler.head ≡ contents h.head ++ bytes))
      ⊎ ((o ≡ some (negsuc 0, handler)) × (alloc handler.block_num ≡ false))

read_loop-Saved :
    (alloc : ℕ → Bool) (cs : List (List ℕ)) (count : ℕ) (h : Mfile)
    → IsValid h
    → Saved alloc h (join cs) (count + length cs) (read_loop alloc (chunks_then_again cs) count h)
unfolding read_loop is_one
read_loop-Saved alloc [] count h v = record {
  handler = h;
  valid = v;
  verdict = inl (ap (λ k. some (pos k, h)) (omega arith), sym (append-nil (contents h.head)));
}
read_loop-Saved alloc (c ∷ cs) count h v =
    let w = mwrite-MfileWritten alloc h c v in
    elim w.verdict [
      | inl all ↦
          let r = read_loop-Saved alloc cs (count + 1) w.handler w.valid in
          rw (all.0) (record {
            handler = r.handler;
            valid = r.valid;
            verdict = elim r.verdict [
              | inl more ↦ inl (
                more.0 ∙ ap (λ k. some (pos k, r.handler)) (omega arith),
                more.1 ∙ rw (all.1) (append_assoc (contents h.head) c (join cs)),
              )
              | inr short ↦ inr short
            ];
          })
      | inr short ↦
          rw (short.0)
            (record { handler = w.handler; valid = w.valid; verdict = inr (refl, short.1) })
    ]

-- read_buf_to_mfp_from_sockfd on a valid file, when the socket gives some chunks and then EAGAIN,
-- always returns: either the file has all the bytes of the chunks behind its contents, and the
-- result is the number of the reads and not of the bytes; or it is -1, and an allocation has
-- failed. The file stays valid.
pub read_buf_to_mfp_from_sockfd-Saved :
    (alloc : ℕ → Bool) (cs : List (List ℕ)) (h : Mfile)
    → IsValid h
    → Saved alloc h
        (join cs)
        (length cs)
        (read_buf_to_mfp_from_sockfd alloc (chunks_then_again cs) h)
unfolding read_buf_to_mfp_from_sockfd
read_buf_to_mfp_from_sockfd-Saved alloc cs h v =
    let r = read_loop-Saved alloc cs 0 h v in
    let size : 0 + length cs ≡ length cs = omega arith in
    record {
      handler = r.handler;
      valid = r.valid;
      verdict = elim r.verdict [
        | inl all ↦ inl (all.0 ∙ ap (λ k. some (pos k, r.handler)) size, all.1)
        | inr short ↦ inr short
      ];
    }

-- With memory at hand, on a valid file, when the client sends a chunk and closes:
-- read_buf_to_mfp_from_sockfd stores the chunk behind the contents, and returns 0.
pub read_buf_to_mfp_from_sockfd-closed :
    (cs : List ℕ) (h : Mfile)
    → IsValid h
    → (h₁ : Mfile) × (read_buf_to_mfp_from_sockfd (λ n. true) (got cs ∷ end_of_file ∷ []) h
        ≡ some (pos 0, h₁))
      × (contents h₁.head ≡ contents h.head ++ cs)
unfolding read_buf_to_mfp_from_sockfd read_loop is_one
read_buf_to_mfp_from_sockfd-closed cs h v =
    let w = mwrite-MfileWritten (λ n. true) h cs v in
    elim w.verdict [
      | inl all ↦ rw (all.0) (w.handler, refl, all.1)
      | inr short ↦ absurd (true-ne short.1)
    ]
