-- ===== src/Utf8/Count.antt =====
-- str_utf8/str_utf8.c: `utf8_strlen` counts the whole characters that a string begins with.
use carrots.Base.{
  true-ne, ℕ, zero, suc, ◌+◌, ◌≤◌, ◌<◌, ◌≡◌, refl, sym, ap, ◌∙◌, inl, inr, List, [], ◌∷◌, ◌++◌,
  Option, some, true, false, ltb, leb, Bool-cases, length, take, drop, append_assoc, length-take,
  length-drop, take-append-drop, All, arith, tests,
}
use carrots.Utf8.{utf8_check, strlen_loop, utf8_strlen, fits}

-- A character: its first byte says how many bytes it has.
unfoldable pub IsWhole : List ℕ → Type 0
IsWhole [] = ⊥
IsWhole (c ∷ cs) = utf8_check c ≡ length (c ∷ cs)

-- No whole character stands at the front.
unfoldable pub IsStuck : List ℕ → Type 0
IsStuck [] = Unit
IsStuck (c ∷ cs) = fits (utf8_check c) (c ∷ cs) ≡ false

abbrev pub join : List (List ℕ) → List ℕ
join [] = []
join (c ∷ cs) = c ++ join cs

pub append-split : (xs ys zs : List ℕ) → xs ++ (ys ++ zs) ≡ (xs ++ ys) ++ zs
append-split xs ys zs = simp (append_assoc)

pub fits-within : (n : ℕ) (xs : List ℕ) → fits n xs ≡ true → (0 < n) × (n ≤ length xs)
fits-within n xs h = elim (Bool-cases (ltb 0 n)) [
  | inr off ↦ absurd (true-ne (sym (rw off at h)))
  | inl on ↦ elim (Bool-cases (leb n (length xs))) [
    | inr off ↦ absurd (true-ne (sym (rw (on, off) at h)))
    | inl short ↦ (omega tests, omega tests)
  ]
]

IsWhole-take :
    (n c : ℕ) (cs : List ℕ)
    → utf8_check c ≡ n
    → 0 < n
    → n ≤ length (c ∷ cs)
    → IsWhole (take n (c ∷ cs))
unfolding IsWhole
IsWhole-take zero c cs e h short = absurd (omega arith)
IsWhole-take (suc n) c cs e h short = e ∙ ap suc (omega (arith, length-take n cs))

-- The first character of a string where one fits.
pub first-IsWhole :
    (c : ℕ) (cs : List ℕ)
    → fits (utf8_check c) (c ∷ cs) ≡ true
    → IsWhole (take (utf8_check c) (c ∷ cs))
first-IsWhole c cs h =
    let (some_bytes, short) = fits-within (utf8_check c) (c ∷ cs) h in
    IsWhole-take (utf8_check c) c cs refl some_bytes short

-- What is counted from a string on: characters, and a rest where none fits.
pub record Counted (src : List ℕ) (ulen : ℕ) (o : Option ℕ) : Type 0 where
  pub chars : List (List ℕ)
  pub rest : List ℕ
  pub split : src ≡ join chars ++ rest
  pub whole : All IsWhole chars
  pub stuck : IsStuck rest
  pub count : o ≡ some (ulen + length chars)

strlen_loop-Counted :
    (fuel : ℕ) (src : List ℕ) (ulen : ℕ)
    → length src ≤ fuel
    → Counted src ulen (strlen_loop fuel src ulen)
unfolding strlen_loop IsStuck
strlen_loop-Counted fuel [] ulen h = record {
  chars = [];
  rest = [];
  split = refl;
  whole = tt;
  stuck = tt;
  count = ap some (omega arith);
}
strlen_loop-Counted zero (c ∷ cs) ulen h = absurd (omega arith)
strlen_loop-Counted (suc fuel) (c ∷ cs) ulen h =
    let n = utf8_check c in
    elim (Bool-cases (fits n (c ∷ cs))) [
      | inr off ↦ record {
        chars = [];
        rest = c ∷ cs;
        split = refl;
        whole = tt;
        stuck = off;
        count = rw off (ap some (omega arith));
      }
      | inl on ↦
          let (some_bytes, short) = fits-within n (c ∷ cs) on in
          let r =
            strlen_loop-Counted fuel (drop n (c ∷ cs)) (suc ulen)
              (omega (arith, length-drop n (c ∷ cs))) in
          record {
            chars = take n (c ∷ cs) ∷ r.chars;
            rest = r.rest;
            split =
                sym (take-append-drop n (c ∷ cs))
                ∙ ap (λ (l : List ℕ). take n (c ∷ cs) ++ l) r.split
                ∙ append-split (take n (c ∷ cs)) (join r.chars) r.rest;
            whole = (first-IsWhole c cs on, r.whole);
            stuck = r.stuck;
            count = rw on (r.count ∙ ap some (omega arith));
          }
    ]

-- utf8_strlen always returns: the string is a sequence of whole characters, as many as it returns,
-- and a rest at whose front no whole character stands.
pub utf8_strlen-Counted : (src : List ℕ) → Counted src 0 (utf8_strlen (some src))
unfolding utf8_strlen
utf8_strlen-Counted src = strlen_loop-Counted (length src) src 0 (omega arith)
