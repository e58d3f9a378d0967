-- ===== src/Ctutils/Bytes.antt =====
-- ctserver/src/ctutils.c: what the unique ids and the copies hold.
use carrots.Base.{
  ℕ, zero, suc, ◌/◌, ◌%◌, ◌<◌, ◌≤◌, ◌≡◌, refl, ap₂, List, [], ◌∷◌, ◌++◌, some, length, take, drop,
  arith, All,
}
use carrots.Ctutils.{hex_digit, create_unique_id, byte_copy}

hex_digit-injective : (a b : ℕ) → hex_digit a ≡ hex_digit b → a < 16 → b < 16 → a ≡ b
unfolding hex_digit
hex_digit-injective a b e la lb = ground arith

byte-parts : (a b : ℕ) → a / 16 ≡ b / 16 → a % 16 ≡ b % 16 → a ≡ b
byte-parts a b q r = omega arith

high-below : (a : ℕ) → a < 256 → a / 16 < 16
high-below a h = omega arith

low-below : (a : ℕ) → a % 16 < 16
low-below a = omega arith

pub byte_copy-take :
    (to from : List ℕ) (n : ℕ)
    → n ≤ length to
    → n ≤ length from
    → byte_copy to n from ≡ some (take n from ++ drop n to)
unfolding byte_copy
byte_copy-take to from zero a b = refl
byte_copy-take [] from (suc n) a b = absurd (omega arith)
byte_copy-take (d ∷ to) [] (suc n) a b = absurd (omega arith)
byte_copy-take (d ∷ to) (c ∷ from) (suc n) a b =
    rw (byte_copy-take to from n (omega arith) (omega arith)) refl

cons-head : {x y : ℕ} {xs ys : List ℕ} → x ∷ xs ≡ y ∷ ys → x ≡ y
cons-head e = cc

cons-tail : {x y : ℕ} {xs ys : List ℕ} → x ∷ xs ≡ y ∷ ys → xs ≡ ys
cons-tail e = cc

-- Two sequences of bytes, each below 256, for which create_unique_id stores the same characters,
-- are the same.
pub create_unique_id-injective :
    (ps qs : List ℕ)
    → All (λ p. p < 256) ps
    → All (λ q. q < 256) qs
    → create_unique_id ps ≡ create_unique_id qs
    → ps ≡ qs
unfolding create_unique_id
create_unique_id-injective [] [] a b e = refl
create_unique_id-injective [] (q ∷ qs) a b e = absurd cc
create_unique_id-injective (p ∷ ps) [] a b e = absurd cc
create_unique_id-injective (p ∷ ps) (q ∷ qs) a b e =
    let high =
      hex_digit-injective (p / 16) (q / 16) (cons-head e) (high-below p a.0) (high-below q b.0) in
    let low =
      hex_digit-injective (p % 16) (q % 16) (cons-head (cons-tail e)) (low-below p) (low-below q) in
    ap₂ ◌∷◌ (byte-parts p q high low)
      (create_unique_id-injective ps qs a.1 b.1 (cons-tail (cons-tail e)))
