-- ===== src/Stralloc/Ready.antt =====
-- libstralloc/stralloc.c: `stralloc_ready` and `stralloc_readyplus` make room and keep the text.
use carrots.Base.{
  ℕ, ◌+◌, ◌/◌, ◌≤◌, ◌<◌, ◌≡◌, ◌⊎◌, refl, inl, inr, Option, none, some, Bool, true, false, ltb,
  Bool-cases, length, take, arith, tests,
}
use carrots.Stralloc.{
  Stralloc, Result, u32, grown_size, first_buffer, regrown, grow_buffer, stralloc_ready,
  stralloc_readyplus, text,
}
use carrots.Stralloc.Allocator.{Buffer, Memory, alloc-Gives, alloc_re-Moves}

-- The buffer has `a` cells at least, and `len` of them are the text; no buffer has no text.
unfoldable pub IsSound : Stralloc → Type 0
IsSound x = elim x.s [ none ↦ x.len ≡ 0 | some b ↦ (x.a ≤ length b.cells) × (x.len ≤ x.a) ]

-- What an operation that makes room for `n` characters leaves of `x`.
pub record Roomy (x : Stralloc) (n : ℕ) (r : Result) : Type 0 where
  pub buffer : Buffer
  pub done : r.done ≡ true
  pub string : r.string.s ≡ some buffer
  pub room : n ≤ r.string.a
  pub bounded : r.string.a ≤ length buffer.cells
  pub same_length : r.string.len ≡ x.len
  pub same_text : take x.len buffer.cells ≡ text x

-- A refusal: the string still has its text.
pub record Refused (x : Stralloc) (r : Result) : Type 0 where
  pub failed : r.done ≡ false
  pub sound : IsSound r.string
  pub same_text : text r.string ≡ text x

unfoldable pub Prepares : Stralloc → ℕ → Option Result → Type 0
Prepares x n o = (r : Result) × (o ≡ some r) × (Roomy x n r ⊎ Refused x r)

grown_size-small : (n : ℕ) → n < 1900000000 → grown_size n ≡ 30 + n + n / 8
unfolding grown_size
grown_size-small n small = omega arith

module _ (malloc : ℕ → Bool) (junk : ℕ) where
  first_buffer-Prepares :
      (a n : ℕ) (mem : Memory)
      → n < 1900000000
      → Prepares (record { s = none; len = 0; a = a }) n (some (first_buffer malloc junk n mem))
  unfolding first_buffer Prepares IsSound
  first_buffer-Prepares a n mem small = elim (alloc-Gives malloc junk n mem (omega arith)) [
    | inl refused ↦ (
      first_buffer malloc junk n mem,
      refl,
      inr (record {
        failed = rw refused refl;
        sound = rw refused refl;
        same_text = rw refused refl;
      }),
    )
    | inr (b, mem₁, given, enough, placed) ↦ (
      first_buffer malloc junk n mem,
      refl,
      inl (record {
        buffer = b;
        done = rw given refl;
        string = rw given refl;
        room = omega arith;
        bounded = omega arith;
        same_length = refl;
        same_text = refl;
      }),
    )
  ]

  grow_buffer-Prepares :
      (b : Buffer) (len a n : ℕ) (mem : Memory)
      → a ≤ length b.cells
      → len ≤ a
      → a < n
      → n < 1900000000
      → Prepares
          (record { s = some b; len = len; a = a })
          n
          (grow_buffer malloc junk (record { s = some b; len = len; a = a }) b n mem)
  unfolding grow_buffer regrown Prepares IsSound
  grow_buffer-Prepares b len a n mem fits within short small =
      let size : grown_size n ≡ 30 + n + n / 8 = grown_size-small n small in
      let x : Stralloc = record { s = some b; len = len; a = a } in
      elim (alloc_re-Moves malloc junk b a (grown_size n) mem fits (omega (arith, size))
        (omega (arith, size))) [
          | inl refused ↦ rw refused (
            record { done = false; string = x; memory = mem },
            refl,
            inr (record { failed = refl; sound = (fits, within); same_text = refl }),
          )
          | inr (y, mem₁, given, enough, kept) ↦ rw given (
            record {
              done = true;
              string = record x { s = some y; a = grown_size n };
              memory = mem₁;
            },
            refl,
            inl (record {
              buffer = y;
              done = refl;
              string = refl;
              room = omega (arith, size);
              bounded = omega arith;
              same_length = refl;
              same_text = kept len within;
            }),
          )
        ]

  ready_parts :
      (s : Option Buffer) (len a n : ℕ) (mem : Memory)
      → IsSound (record { s = s; len = len; a = a })
      → n < 1900000000
      → Prepares
          (record { s = s; len = len; a = a })
          n
          (stralloc_ready malloc junk (record { s = s; len = len; a = a }) n mem)
  unfolding stralloc_ready Prepares IsSound
  ready_parts none len a n mem empty small = rw empty (first_buffer-Prepares a n mem small)
  ready_parts (some b) len a n mem (fits, within) small = elim (Bool-cases (ltb a n)) [
    | inl short ↦ rw short (grow_buffer-Prepares b len a n mem fits within (omega tests) small)
    | inr enough ↦ rw enough (
      record { done = true; string = record { s = some b; len = len; a = a }; memory = mem },
      refl,
      inl (record {
        buffer = b;
        done = refl;
        string = refl;
        room = omega tests;
        bounded = fits;
        same_length = refl;
        same_text = refl;
      }),
    )
  ]

  -- stralloc_ready of a sound string, for a size below 1900000000, always returns: it has made
  -- room for that many characters and kept the text, or has refused and left a sound string with
  -- the text.
  pub stralloc_ready-Prepares :
      (x : Stralloc) (n : ℕ) (mem : Memory)
      → IsSound x
      → n < 1900000000
      → Prepares x n (stralloc_ready malloc junk x n mem)
  stralloc_ready-Prepares x n mem sound small = ready_parts x.s x.len x.a n mem sound small

  -- On a string with a buffer `stralloc_readyplus` is `stralloc_ready` of the total.
  pub stralloc_readyplus-ready :
      (x : Stralloc) (b : Buffer) (n : ℕ) (mem : Memory)
      → x.s ≡ some b
      → stralloc_readyplus malloc junk x n mem ≡ stralloc_ready malloc junk x (u32 (n + x.len)) mem
  unfolding stralloc_ready stralloc_readyplus
  stralloc_readyplus-ready x b n mem here = rw here refl
