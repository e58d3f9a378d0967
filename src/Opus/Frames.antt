-- ===== src/Opus/Frames.antt =====
-- opus_api/SCOpusAPI_ios.c: the frames that `encode_with_opus` makes of its input.
use carrots.Base.{
  ℕ, zero, suc, ◌+◌, ◌*◌, ◌≤◌, ◌<◌, ◌≡◌, refl, sym, ap, ◌∙◌, inl, inr, List, [], ◌∷◌, ◌++◌, leb,
  length, take, drop, length-append, length-take, length-drop, take-append-drop, drop-drop,
  append_assoc, arith, All, Bool-cases,
}
use native.Mathlib.Nat.{suc-mul}
use carrots.Opus.{read_items, item_samples, to_samples}

unfoldable pub flat {ℓ} : {A : Type ℓ} → List (List A) → List A
flat [] = []
flat (xs ∷ xss) = xs ++ flat xss

pub length-read_items : (n unit : ℕ) (input : List ℕ) → length (read_items n unit input) ≤ n
unfolding read_items
length-read_items zero unit input = omega arith
length-read_items (suc n) unit input = elim (Bool-cases (leb unit (length input))) [
  | inl on ↦ rw on (omega (arith, length-read_items n unit (drop unit input)))
  | inr off ↦ rw off (omega arith)
]

pub read_items-sized :
    (n unit : ℕ) (input : List ℕ) → All (λ i. length i ≡ unit) (read_items n unit input)
unfolding read_items
read_items-sized zero unit input = tt
read_items-sized (suc n) unit input = elim (Bool-cases (leb unit (length input))) [
  | inl on ↦
      rw on
        (let l = length-take unit input in ground arith, read_items-sized n unit (drop unit input))
  | inr off ↦ rw off tt
]

-- All items that were asked for.
pub read_items-all :
    (n unit : ℕ) (input : List ℕ)
    → length (read_items n unit input) ≡ n
    → (flat (read_items n unit input) ++ drop (n * unit) input ≡ input) × (n * unit ≤ length input)
unfolding read_items flat
read_items-all zero unit input all = let z : 0 * unit ≡ 0 = omega arith in rw z (refl, omega arith)
read_items-all (suc n) unit input all = elim (Bool-cases (leb unit (length input))) [
  | inl on ↦
      let more : suc (length (read_items n unit (drop unit input))) ≡ suc n = rw on at all in
      let (rest, fits) = read_items-all n unit (drop unit input) (omega (arith, more)) in
      let l = length-drop unit input in
      let m = suc-mul n unit in
      let e : suc n * unit ≡ unit + n * unit = omega (arith, m) in
      rw (on, e)
        (
          append_assoc (take unit input) (flat (read_items n unit (drop unit input)))
                (drop (unit + n * unit) input)
              ∙ ap (◌++◌ (take unit input)) (
                  ap (◌++◌ (flat (read_items n unit (drop unit input))))
                    (sym (drop-drop (n * unit) unit input))
                  ∙ rest)
              ∙ take-append-drop unit input,
          ground (arith, l, fits),
        )
  | inr off ↦ absurd (let none_read : 0 ≡ suc n = rw off at all in omega (arith, none_read))
]

-- Fewer items than were asked for.
pub read_items-short :
    (n unit : ℕ) (input : List ℕ)
    → length (read_items n unit input) < n
    → (rest : List ℕ) × (flat (read_items n unit input) ++ rest ≡ input) × (length rest < unit)
unfolding read_items flat
read_items-short zero unit input short = absurd (omega arith)
read_items-short (suc n) unit input short = elim (Bool-cases (leb unit (length input))) [
  | inl on ↦
      let fewer : suc (length (read_items n unit (drop unit input))) < suc n = rw on at short in
      let (rest, whole, few) = read_items-short n unit (drop unit input) (omega (arith, fewer)) in
      rw on (
        rest,
        append_assoc (take unit input) (flat (read_items n unit (drop unit input))) rest
            ∙ ap (◌++◌ (take unit input)) whole
            ∙ take-append-drop unit input,
        few,
      )
  | inr off ↦ rw off (input, refl, ground arith)
]

length-to_samples : (n : ℕ) (bytes : List ℕ) → length bytes ≡ 2 * n → length (to_samples bytes) ≡ n
unfolding to_samples
length-to_samples zero [] h = refl
length-to_samples zero (b ∷ bs) h = absurd (omega (arith, h))
length-to_samples (suc n) [] h = absurd (omega (arith, h))
length-to_samples (suc n) (b ∷ []) h = absurd (omega (arith, h))
length-to_samples (suc n) (b ∷ c ∷ bs) h = ap suc (length-to_samples n bs (omega (arith, h)))

pub length-item_samples :
    (channels : ℕ) (items : List (List ℕ))
    → All (λ i. length i ≡ 2 * channels) items
    → length (item_samples items) ≡ length items * channels
unfolding item_samples
length-item_samples channels [] all = omega arith
length-item_samples channels (i ∷ is) all =
    length-append (to_samples i) (item_samples is)
    ∙ omega (
      arith,
      length-to_samples channels i all.0,
      length-item_samples channels is all.1,
      suc-mul (length is) channels,
    )

pub flat-append : (xs ys : List (List ℕ)) → flat (xs ++ ys) ≡ flat xs ++ flat ys
unfolding flat
flat-append [] ys = refl
flat-append (x ∷ xs) ys = ap (◌++◌ x) (flat-append xs ys) ∙ sym (append_assoc x (flat xs) (flat ys))

pub item_samples-append :
    (xs ys : List (List ℕ)) → item_samples (xs ++ ys) ≡ item_samples xs ++ item_samples ys
unfolding item_samples
item_samples-append [] ys = refl
item_samples-append (x ∷ xs) ys =
    ap (◌++◌ (to_samples x)) (item_samples-append xs ys)
    ∙ sym (append_assoc (to_samples x) (item_samples xs) (item_samples ys))
