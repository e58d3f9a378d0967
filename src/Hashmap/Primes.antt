-- ===== src/Hashmap/Primes.antt =====
-- hashmap/hashmap.c: the table of primes that the sizes come from.
use carrots.Base.{
  ℕ, zero, suc, ◌+◌, ◌-◌, ◌%◌, ◌^◌, ◌<◌, ◌≡◌, refl, sym, ap, ◌∙◌, inl, inr, List, [], ◌∷◌, some,
  Bool, true, false, leb, ltb, ltb→lt, ◌&&◌, length, get_elem?, drop, arith, Bool-cases, false-ne,
}
use carrots.Hashmap.{primes}

-- The primes ascend.
unfoldable ascending : ℕ → List ℕ → Bool
ascending p [] = true
ascending p (q ∷ qs) = ltb p q && ascending q qs

and-true : (a b : Bool) → (a && b) ≡ true → (a ≡ true) × (b ≡ true)
and-true true b h = (refl, h)
and-true false b h = absurd (false-ne h)

some-same : {x y : ℕ} → some x ≡ some y → x ≡ y
some-same e = cc

ascending-above :
    (p : ℕ) (ps : List ℕ) (i q : ℕ) → ascending p ps ≡ true → get_elem? ps i ≡ some q → p < q
unfolding ascending
ascending-above p [] i q up at = absurd cc
ascending-above p (x ∷ xs) zero q up at =
    let (first, rest) = and-true (ltb p x) (ascending x xs) up in
    omega (arith, ltb→lt p x first, some-same at)
ascending-above p (x ∷ xs) (suc i) q up at =
    let (first, rest) = and-true (ltb p x) (ascending x xs) up in
    omega (arith, ltb→lt p x first, ascending-above x xs i q rest at)

pub prime-positive : (i q : ℕ) → get_elem? primes i ≡ some q → 0 < q
unfolding ascending
prime-positive i q at = ascending-above 0 primes i q refl at

get_elem?-drop : (n : ℕ) (xs : List ℕ) (k : ℕ) → get_elem? xs (n + k) ≡ get_elem? (drop n xs) k
get_elem?-drop zero xs k = let e : 0 + k ≡ k = omega arith in ap (get_elem? xs) e
get_elem?-drop (suc n) [] k = refl
get_elem?-drop (suc n) (x ∷ xs) k =
    let e : suc n + k ≡ suc (n + k) = omega arith in
    ap (get_elem? (x ∷ xs)) e ∙ get_elem?-drop n xs k

last_prime : (k p : ℕ) → get_elem? (7199369 ∷ []) k ≡ some p → p ≡ 7199369
last_prime zero p at = sym (some-same at)
last_prime (suc k) p at = absurd cc

get_elem?-inside : (xs : List ℕ) (i : ℕ) → i < length xs → (q : ℕ) × (get_elem? xs i ≡ some q)
get_elem?-inside [] i h = absurd (omega arith)
get_elem?-inside (x ∷ xs) zero h = (x, refl)
get_elem?-inside (x ∷ xs) (suc i) h = get_elem?-inside xs i (omega arith)

-- There is a prime above any of 16 bits.
pub prime-small : (i p : ℕ) → get_elem? primes i ≡ some p → p < 65536 → i < 71
prime-small i p at low = elim (Bool-cases (leb 71 i)) [
  | inl over ↦
      let split : 71 + (i - 71) ≡ i = ground arith in
      let last =
        last_prime (i - 71) p
          (sym (get_elem?-drop 71 primes (i - 71)) ∙ ap (get_elem? primes) split ∙ at) in
      absurd (omega (arith, last))
  | inr under ↦ ground arith
]

pub next_prime :
    (i : ℕ) → i < 71 → (q : ℕ) × (get_elem? primes ((i + 1) % 2 ^ 8) ≡ some q) × (0 < q)
next_prime i low =
    let e : (i + 1) % 2 ^ 8 ≡ i + 1 = omega arith in
    let (q, at) = get_elem?-inside primes (i + 1) (omega arith) in
    (q, ap (get_elem? primes) e ∙ at, prime-positive (i + 1) q at)
