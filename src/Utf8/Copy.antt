-- ===== src/Utf8/Copy.antt =====
-- str_utf8/str_utf8.c: what `utf8_strncpy` stores.
use carrots.Base.{
  ℕ, zero, suc, ◌+◌, ◌≤◌, ◌<◌, ◌≡◌, refl, ap, inl, inr, List, [], ◌∷◌, ◌++◌, Option, some, Bool,
  true, false, ◌==◌, ==_iff, ◌&&◌, Bool-cases, length, take, drop, length-append, length-take,
  length-drop, All, arith, get_or,
}
use carrots.Utf8.{utf8_check, fits, is_skipped, put, strncpy_loop}
use carrots.Utf8.Count.{IsWhole, join, fits-within, first-IsWhole}

abbrev pub lead : List ℕ → ℕ
lead char = get_or char 0 0

-- No CR, LF or TAB, no space behind a space, and none at the front when `flag` says so.
abbrev pub IsTidy : Bool → List (List ℕ) → Type 0
IsTidy flag [] = Unit
IsTidy flag (c ∷ cs) =
    (is_skipped (lead c) ≡ false) × ((flag && lead c == 32) ≡ false) × IsTidy (lead c == 32) cs

-- Stored characters: at most `room` of them, tidy, in no more bytes than the string has.
pub record Copied (src : List ℕ) (room : ℕ) (flag : Bool) (out : List ℕ) : Type 0 where
  pub chars : List (List ℕ)
  pub bytes : out ≡ join chars
  pub whole : All IsWhole chars
  pub bounded : length chars ≤ room
  pub tidy : IsTidy flag chars
  pub short : length out ≤ length src

unfoldable pub Copies : List ℕ → ℕ → Bool → Option (List ℕ) → Type 0
Copies src room flag o = (out : List ℕ) × (o ≡ some out) × Copied src room flag out

Copies-nothing : (src : List ℕ) (room : ℕ) (flag : Bool) → Copies src room flag (some [])
unfolding Copies
Copies-nothing src room flag = (
  [],
  refl,
  record {
    chars = [];
    bytes = refl;
    whole = tt;
    bounded = omega arith;
    tidy = tt;
    short = omega arith;
  },
)

-- A byte that is skipped.
skips :
    (c : ℕ) (cs : List ℕ) (room : ℕ) (flag : Bool) (o : Option (List ℕ))
    → Copies cs room flag o
    → Copies (c ∷ cs) room flag o
unfolding Copies
skips c cs room flag o (out, eq, r) = (
  out,
  eq,
  record {
    chars = r.chars;
    bytes = r.bytes;
    whole = r.whole;
    bounded = r.bounded;
    tidy = r.tidy;
    short = omega (arith, r.short);
  },
)

-- A character that is stored.
puts :
    (char src rest : List ℕ) (c room : ℕ) (flag blank : Bool) (o : Option (List ℕ))
    → IsWhole char
    → lead char ≡ c
    → is_skipped c ≡ false
    → (c == 32) ≡ blank
    → (flag && blank) ≡ false
    → length char + length rest ≤ length src
    → Copies rest room blank o
    → Copies src (suc room) flag (put char o)
unfolding Copies
puts char src rest c room flag blank o whole first kept is_blank spaced size (out, eq, r) = (
  char ++ out,
  ap (put char) eq,
  record {
    chars = char ∷ r.chars;
    bytes = ap (λ (l : List ℕ). char ++ l) r.bytes;
    whole = (whole, r.whole);
    bounded = omega (arith, r.bounded);
    tidy = rw (first, kept, is_blank) (refl, spaced, r.tidy);
    short = omega (arith, r.short, length-append char out);
  },
)

blank-IsWhole : IsWhole (32 ∷ [])
unfolding IsWhole utf8_check
blank-IsWhole = refl

space-IsWhole : (c : ℕ) → (c == 32) ≡ true → IsWhole (c ∷ [])
space-IsWhole c h = rw ((==_iff c 32).0 h) blank-IsWhole

and-false : (b : Bool) → (b && false) ≡ false
and-false true = refl
and-false false = refl

lead-take : (n c : ℕ) (cs : List ℕ) → 0 < n → lead (take n (c ∷ cs)) ≡ c
lead-take zero c cs h = absurd (omega arith)
lead-take (suc n) c cs h = refl

pub strncpy_loop-Copies :
    (fuel : ℕ) (src : List ℕ) (room : ℕ) (flag : Bool)
    → length src ≤ fuel
    → Copies src room flag (strncpy_loop fuel src room flag)
unfolding strncpy_loop
strncpy_loop-Copies fuel [] room flag h = Copies-nothing [] room flag
strncpy_loop-Copies fuel (c ∷ cs) zero flag h = Copies-nothing (c ∷ cs) zero flag
strncpy_loop-Copies zero (c ∷ cs) (suc room) flag h = absurd (omega arith)
strncpy_loop-Copies (suc fuel) (c ∷ cs) (suc room) flag h =
    let n = utf8_check c in
    let skip =
      skips c cs (suc room) flag (strncpy_loop fuel cs (suc room) flag)
        (strncpy_loop-Copies fuel cs (suc room) flag (omega arith)) in
    elim (Bool-cases (is_skipped c)) [
      | inl skipped ↦ rw skipped skip
      | inr kept ↦ elim (Bool-cases (c == 32)) [
        | inl blank ↦ elim (Bool-cases flag) [
          | inl after ↦ rw (kept, blank, after) (rw after at skip)
          | inr first ↦
              rw (kept, blank, first)
                (puts (c ∷ []) (c ∷ cs) cs c room false true (strncpy_loop fuel cs room true)
                  (space-IsWhole c blank) refl kept blank refl (omega arith)
                  (strncpy_loop-Copies fuel cs room true (omega arith)))
        ]
        | inr dark ↦ elim (Bool-cases (fits n (c ∷ cs))) [
          | inr off ↦ rw (kept, dark, off) (Copies-nothing (c ∷ cs) (suc room) flag)
          | inl on ↦
              let (some_bytes, short) = fits-within n (c ∷ cs) on in
              let rest = drop n (c ∷ cs) in
              rw (kept, dark, on)
                (puts (take n (c ∷ cs)) (c ∷ cs) rest c room flag false
                  (strncpy_loop fuel rest room false) (first-IsWhole c cs on)
                  (lead-take n c cs some_bytes) kept dark (and-false flag)
                  (omega (arith, length-take n (c ∷ cs), length-drop n (c ∷ cs)))
                  (strncpy_loop-Copies fuel rest room false
                    (omega (arith, length-drop n (c ∷ cs)))))
        ]
      ]
    ]
