-- ===== src/Opus/Framing.antt =====
-- opus_api/SCOpusAPI_ios.c: bytes and samples, and writes at the end of a file.
use carrots.Base.{
  ℕ, suc, ◌+◌, ◌-◌, ◌*◌, ◌/◌, ◌%◌, ◌^◌, ◌≤◌, ◌<◌, min, ◌≡◌, refl, sym, ap, ◌∙◌, List, [], ◌∷◌, ◌++◌,
  true, ◌==◌, ==_iff, length, replicate, length-append, take-length, drop-length, arith, append-nil,
  append_assoc, length-replicate, ap₂, All, Bool-cases, ltb, inl, inr,
}
use carrots.Opus.{
  int_to_char, char_to_int, to_sample, from_sample, File, overwrite, fwrite, to_samples,
  from_samples,
}

-- The four bytes of a length give it back.
pub char_to_int-int_to_char :
    (i : ℕ) (rest : List ℕ) → i < 2 ^ 32 → char_to_int (int_to_char i ++ rest) ≡ i
unfolding char_to_int int_to_char
char_to_int-int_to_char i rest h = omega arith

-- The bytes of a sample give it back, and so do those of any number of samples.
from_sample-to_sample :
    (lo hi : ℕ) → lo < 256 → hi < 256 → from_sample (to_sample lo hi) ≡ lo ∷ hi ∷ []
unfolding from_sample to_sample
from_sample-to_sample lo hi low high =
    let v : ℕ = (hi * 256 + lo) % 2 ^ 16 in
    elim (Bool-cases (ltb v 32768)) [
      | inl on ↦
          let a : v % 256 ≡ lo = omega arith in
          let b : v / 256 % 256 ≡ hi = omega arith in rw (on, a, b) refl
      | inr off ↦
          let a : (65535 - (65535 - v)) % 256 ≡ lo = omega arith in
          let b : (65535 - (65535 - v)) / 256 % 256 ≡ hi = omega arith in rw (off, a, b) refl
    ]

unfoldable pub Even : List ℕ → Type 0
Even [] = Unit
Even (b ∷ []) = ⊥
Even (b ∷ c ∷ bytes) = Even bytes

-- An even number of bytes, each below 256, turned into samples as the encoder does and back into
-- bytes as the decoder does: the same bytes.
pub from_samples-to_samples :
    (bytes : List ℕ)
    → Even bytes
    → All (λ b. b < 256) bytes
    → from_samples (to_samples bytes) ≡ bytes
unfolding from_samples to_samples Even
from_samples-to_samples [] even all = refl
from_samples-to_samples (b ∷ []) even all = absurd even
from_samples-to_samples (b ∷ c ∷ bytes) even all =
    rw (from_sample-to_sample b c all.0 all.1.0)
      (ap (λ r. b ∷ c ∷ r) (from_samples-to_samples bytes even all.1.1))

-- A write behind the end of a file.
pub overwrite-behind :
    (p b : ℕ) (bs old : List ℕ)
    → length old ≤ p
    → overwrite p (b ∷ bs) old ≡ (old ++ replicate (p - length old) 0) ++ (b ∷ bs)
unfolding overwrite
overwrite-behind p b bs old at =
    let padded = old ++ replicate (p - length old) 0 in
    let l : length padded ≤ p = omega (
      arith,
      length-append old (replicate (p - length old) 0),
      length-replicate {A = ℕ} (p - length old) 0,
      at,
    ) in
    rw
      (
        take-length p padded l,
        drop-length (p + suc (length bs)) old (omega (arith, at)),
        append-nil (padded ++ (b ∷ bs)),
      )
      refl

-- A file with new bytes at its position.
abbrev pub appended : File → List ℕ → File
appended f new = record {
  bytes = overwrite f.position new f.bytes;
  position = f.position + length new;
}

pub fwrite-appended :
    (disk : ℕ → ℕ → ℕ) (f : File) (new : List ℕ)
    → ((p n : ℕ) → disk p n ≡ n)
    → fwrite disk f new ≡ (true, appended f new)
unfolding fwrite
fwrite-appended disk f new roomy =
    let all : min (length new) (length new) ≡ length new = omega arith in
    let same : (length new == length new) ≡ true = (==_iff (length new) (length new)).1 refl in
    rw (roomy f.position (length new), all, same, take-length (length new) new (omega arith)) refl

pub appended-behind :
    (f : File) (new : List ℕ)
    → length f.bytes ≤ f.position
    → length (appended f new).bytes ≤ (appended f new).position
unfolding overwrite
appended-behind f [] at = omega (arith, at)
appended-behind f (b ∷ bs) at = rw (overwrite-behind f.position b bs f.bytes at) (
    omega (
      arith,
      at,
      length-append (f.bytes ++ replicate (f.position - length f.bytes) 0) (b ∷ bs),
      length-append f.bytes (replicate (f.position - length f.bytes) 0),
      length-replicate {A = ℕ} (f.position - length f.bytes) 0,
    ))

overwrite-overwrite :
    (p : ℕ) (xs ys old : List ℕ)
    → length old ≤ p
    → overwrite (p + length xs) ys (overwrite p xs old) ≡ overwrite p (xs ++ ys) old
unfolding overwrite
overwrite-overwrite p [] ys old at =
    let e : p + 0 ≡ p = omega arith in ap (λ q. overwrite q ys old) e
overwrite-overwrite p (x ∷ xs) [] old at = ap (λ zs. overwrite p zs old) (sym (append-nil (x ∷ xs)))
overwrite-overwrite p (x ∷ xs) (y ∷ ys) old at =
    let pad = replicate (p - length old) 0 in
    let l : length ((old ++ pad) ++ (x ∷ xs)) ≡ p + suc (length xs) = omega (
      arith,
      at,
      length-append (old ++ pad) (x ∷ xs),
      length-append old pad,
      length-replicate {A = ℕ} (p - length old) 0,
    ) in
    let none_left : p + suc (length xs) - length ((old ++ pad) ++ (x ∷ xs)) ≡ 0 =
      omega (arith, l) in
    ap (overwrite (p + suc (length xs)) (y ∷ ys)) (overwrite-behind p x xs old at)
    ∙ overwrite-behind (p + suc (length xs)) y ys ((old ++ pad) ++ (x ∷ xs)) (omega (arith, l))
    ∙ ap (λ k. (((old ++ pad) ++ (x ∷ xs)) ++ replicate k 0) ++ (y ∷ ys)) none_left
    ∙ ap (λ (z : List ℕ). z ++ (y ∷ ys)) (append-nil ((old ++ pad) ++ (x ∷ xs)))
    ∙ append_assoc (old ++ pad) (x ∷ xs) (y ∷ ys)
    ∙ sym (overwrite-behind p x (xs ++ y ∷ ys) old at)

pub appended-append :
    (f : File) (xs ys : List ℕ)
    → length f.bytes ≤ f.position
    → appended (appended f xs) ys ≡ appended f (xs ++ ys)
appended-append f xs ys at =
    let n : f.position + length xs + length ys ≡ f.position + length (xs ++ ys) =
      omega (arith, length-append xs ys) in
    ap₂ (λ (b : List ℕ) (p : ℕ). record { bytes = b; position = p })
      (overwrite-overwrite f.position xs ys f.bytes at) n

pub appended-nil : (f : File) → appended f [] ≡ f
unfolding overwrite
appended-nil f =
    let n : f.position + 0 ≡ f.position = omega arith in ap (λ (p : ℕ). record f { position = p }) n
