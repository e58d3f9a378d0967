-- ===== src/Hashmap/Fresh.antt =====
-- hashmap/hashmap.c: a map fresh from `hashmap_create`, before the first insertion gives it buckets.
use carrots.Base.{
  ℕ, zero, suc, ◌+◌, ◌<◌, ◌≡◌, ◌≢◌, ◌⊎◌, refl, sym, ap, ◌∙◌, inl, inr, List, [], ◌∷◌, none, some,
  true, false, ltb, leb, length, get_elem?, arith, tests, Bool-cases,
}
use carrots.Hashmap.{
  Hashmap, Heap, primes, prime_index, hashmap_create, hashmap_find, hashmap_locate, hashcode_index,
}
use carrots.Hashmap.Remove.{hashmap_delete}

-- Where the loop over the primes stops.
prime_index-first :
    (ps : List ℕ) (size i : ℕ)
    → (prime_index ps size i ≡ i + length ps)
      ⊎ ((k p : ℕ) × (prime_index ps size i ≡ i + k) × (get_elem? ps k ≡ some p) × (size < p))
unfolding prime_index
prime_index-first [] size i = inl (omega arith)
prime_index-first (p ∷ ps) size i = elim (Bool-cases (ltb size p)) [
  | inl on ↦ rw on (inr (0, p, omega arith, refl, omega tests))
  | inr off ↦ elim (prime_index-first ps size (suc i)) [
    | inl all ↦ rw off (inl (omega (arith, all)))
    | inr found ↦
        let (k, q, stop, at, above) = found in
        rw off (inr (suc k, q, omega (arith, stop), at, above))
  ]
]

get_elem?-inside : (xs : List ℕ) (i x : ℕ) → get_elem? xs i ≡ some x → i < length xs
get_elem?-inside [] i x h = absurd cc
get_elem?-inside (y ∷ xs) zero x h = omega arith
get_elem?-inside (y ∷ xs) (suc i) x h = omega (arith, get_elem?-inside xs i x h)

some-ne : {x : Hashmap} → some x ≢ none
some-ne e = cc

some-same : {x y : Hashmap} → some x ≡ some y → x ≡ y
some-same e = cc

-- hashmap_create with memory returns NULL when no prime is above the size; else a map without a
-- bucket, whose index is that of a prime above the size.
pub hashmap_create-cases :
    (size : ℕ)
    → ((hashmap_create true size ≡ none))
      ⊎ ((map : Hashmap) × (p : ℕ) × (hashmap_create true size ≡ some map)
          × (map.size ≡ 0)
          × (map.used ≡ 0)
          × (map.buckets ≡ none)
          × (get_elem? primes map.idx ≡ some p)
          × (size < p))
unfolding hashmap_create
hashmap_create-cases size = elim (prime_index-first primes size 0) [
  | inl all ↦
      let out : leb (length primes) (prime_index primes size 0) ≡ true = ground (arith, all) in
      rw out (inl refl)
  | inr found ↦
      let (k, p, stop, at, above) = found in
      let idx : prime_index primes size 0 ≡ k = omega (arith, stop) in
      let inside : leb (length primes) k ≡ false = ground (arith, get_elem?-inside primes k p at) in
      rw (idx, inside)
        (inr (
          record { size = 0; used = 0; idx = k; buckets = none },
          p,
          refl,
          refl,
          refl,
          refl,
          at,
          above,
        ))
]

-- A map of hashmap_create, before the first insertion: no key has an index into its buckets, since
-- that is a remainder by zero, and so hashmap_find, hashmap_locate and hashmap_delete of any key
-- are undefined.
pub hashmap_create-undefined :
    (heap : Heap) (size : ℕ) (map : Hashmap) (key : List ℕ)
    → hashmap_create true size ≡ some map
    → (hashcode_index key map.size ≡ none)
      × (hashmap_find heap.cells (some map) key ≡ none)
      × (hashmap_locate heap.cells (some map) key ≡ none)
      × (hashmap_delete heap map key ≡ none)
unfolding hashmap_find hashmap_locate hashmap_delete hashcode_index
hashmap_create-undefined heap size map key created = elim (hashmap_create-cases size) [
  | inl null ↦ absurd (some-ne (sym created ∙ null))
  | inr given ↦
      let (m, p, made, empty, unused, none_yet, at, above) = given in
      let same : m ≡ map = some-same (sym made ∙ created) in
      let zero_size : map.size ≡ 0 = ap (λ (x : Hashmap). x.size) (sym same) ∙ empty in
      let no_index : hashcode_index key map.size ≡ none = rw zero_size refl in
      (no_index, rw no_index refl, rw no_index refl, rw no_index refl)
]
