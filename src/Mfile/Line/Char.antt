-- ===== src/Mfile/Line/Char.antt =====
-- libmfile/mfile.c: `mgetc` hands out the unread bytes one by one.
use carrots.Base.{
  ℕ, zero, suc, ◌+◌, ◌<◌, ◌≡◌, refl, sym, ap, ◌∙◌, ◌⊎◌, inl, inr, List, [], ◌∷◌, ◌++◌, Option, some,
  ◌==◌, length, get_elem?, drop, arith,
}
use carrots.Mfile.{Mfile, current_write_count}
use carrots.Mfile.Contents.{contents, pending, unread}
use carrots.Mfile.Invariant.{IsReadable}
use carrots.Mfile.Read.{
  advance_cases, start_cases, reading_block_here, after_read, after_read-AtBlock, no_block_unread,
  contents-after_read, unread-after_read, count_flag,
}
use carrots.Mfile.Line.{mgetc}

-- The element at a position splits what is behind it.
pub record At (xs : List ℕ) (n : ℕ) : Type 0 where
  pub elem : ℕ
  pub found : get_elem? xs n ≡ some elem
  pub splits : drop n xs ≡ elem ∷ drop (n + 1) xs

at : (xs : List ℕ) (n : ℕ) → n < length xs → At xs n
at [] n h = elim h [ ]
at (x ∷ xs) zero h = record { elem = x; found = refl; splits = refl }
at (x ∷ xs) (suc n) h =
    let r = at xs n (omega arith) in
    let e : suc (n + 1) ≡ suc n + 1 = omega arith in
    record {
      elem = r.elem;
      found = r.found;
      splits = r.splits ∙ ap (λ k. r.elem ∷ drop k (x ∷ xs)) e;
    }

-- What `mgetc` did with what was unread.
pub record Gets (h : Mfile) (left : List ℕ) (result : Option (ℕ × Mfile)) : Type 0 where
  pub char : ℕ
  pub handler : Mfile
  pub runs : result ≡ some (char, handler)
  pub verdict : ((left ≡ []) × (char ≡ 0) × (unread handler ≡ [])) ⊎ (left ≡ char ∷ unread handler)
  pub readable : IsReadable handler
  pub same_cache : handler.ccache ≡ h.ccache
  pub kept : contents handler.head ≡ contents h.head

-- mgetc on a readable handler always returns: the next unread byte, which is then no longer
-- unread, or 0 when nothing is left; the contents are unchanged.
pub mgetc-Gets : (h : Mfile) → IsReadable h → Gets h (unread h) (mgetc h)
unfolding mgetc
mgetc-Gets h v = elim (start_cases v) [
  | inl (e, stop) ↦ record {
    char = 0;
    handler = h;
    runs = rw (stop, mgetc);
    verdict = inl (no_block_unread v e, refl, no_block_unread v e);
    readable = v;
    same_cache = refl;
    kept = refl;
  }
  | inr (h₁, e, a, same, blocks, cache) ↦ elim (advance_cases a) [
    | inl (stop, nothing) ↦ record {
      char = 0;
      handler = h₁;
      runs = rw (e, stop, mgetc);
      verdict = inl (sym same ∙ nothing, refl, nothing);
      readable = inr a;
      same_cache = cache;
      kept = ap contents blocks;
    }
    | inr (h₂, go, r) ↦
        let b = r.here in
        let at_char = at b.written b.current_read_count r.inside in
        let flags =
          count_flag (b.current_read_count + 1) (current_write_count b) (omega (arith, r.inside)) in
        let flag = (b.current_read_count + 1) == current_write_count b in
        let rest = unread-after_read r 1 flag (omega (arith, r.inside)) flags.0 flags.1 in
        let whole = r.left ∙ ap (λ (l : List ℕ). l ++ pending r.after) at_char.splits in
        record {
          char = at_char.elem;
          handler = after_read r 1 flag;
          runs = rw (e, go, reading_block_here r, at_char.found, mgetc);
          verdict = inr (sym same ∙ whole ∙ ap (◌∷◌ at_char.elem) (sym (rest ∙ ap (drop 1) whole)));
          same_cache = r.same_cache ∙ cache;
          readable = inr (after_read-AtBlock r 1 flag flags.0);
          kept = contents-after_read r 1 flag ∙ ap contents blocks;
        }
  ]
]

-- The two cases, each with what it starts from.
pub mgetc_next :
    {c : ℕ} {rest : List ℕ} (h : Mfile)
    → IsReadable h
    → unread h ≡ c ∷ rest
    → (h' : Mfile) × (mgetc h ≡ some (c, h'))
      × (unread h' ≡ rest)
      × IsReadable h'
      × (h'.ccache ≡ h.ccache)
mgetc_next {c} {rest} h v e =
    let g = mgetc-Gets h v in
    elim g.verdict [
      | inl (nothing, _, _) ↦ absurd (cons_nil (sym e ∙ nothing))
      | inr split ↦
          let both = sym split ∙ e in
          (
            g.handler,
            g.runs ∙ ap (λ k. some (k, g.handler)) (cc both),
            cc both,
            g.readable,
            g.same_cache,
          )
    ]
  where
    cons_nil : c ∷ rest ≡ [] → ⊥
    cons_nil q = cc
