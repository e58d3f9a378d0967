-- ===== src/Hashmap/Rows.antt =====
-- hashmap/hashmap.c: the buckets of a map as lists of items, each under the index of its bucket, and
-- the items that are still to be linked, which `hashmap_grow` moves from the one to the other.
use carrots.Base.{
  ℕ, zero, suc, ◌+◌, ◌%◌, ◌^◌, ◌≤◌, ◌<◌, ◌≡◌, ◌≢◌, refl, sym, ap, ◌∙◌, inl, inr, List, [], ◌∷◌,
  ◌++◌, Option, none, some, ◌==◌, ==_iff, if◌then◌else◌, length, arith, Bool-cases, All,
}
use carrots.Hashmap.{index_loop, hashcode_create, same_bytes}
use carrots.Hashmap.Chain.{Item}
use carrots.Hashmap.Fill.{same_bytes-same}

-- The index that `hashcode_index` gives for a size that is not 0.
unfoldable pub slot : List ℕ → ℕ → ℕ
slot key size = (index_loop key 63689 0 % 2 ^ 31) % size

-- How many items have the key.
unfoldable pub count : List ℕ → List Item → ℕ
count key [] = 0
count key (i ∷ is) = if same_bytes key i.key then suc (count key is) else count key is

-- The value of the first item of the key, and a default when there is none.
unfoldable pub lookup : List ℕ → List Item → Option (Option ℕ) → Option (Option ℕ)
lookup key [] d = d
lookup key (i ∷ is) d = if same_bytes key i.key then some i.value else lookup key is d

-- An item as `hashmap_insert` fills it in.
unfoldable pub IsProper : Item → Type 0
IsProper i = (i.key_len ≡ length i.key) × (i.hash_code ≡ hashcode_create i.key)

-- The bucket with an item at its front.
unfoldable pub push : ℕ → Item → (ℕ → List Item) → ℕ → List Item
push s x rows i = if s == i then x ∷ rows i else rows i

-- The items of `n` buckets, from the bucket `i` on.
unfoldable pub gather : ℕ → ℕ → (ℕ → List Item) → List Item
gather zero i rows = []
gather (suc n) i rows = rows i ++ gather n (suc i) rows

pub count-append :
    (key : List ℕ) (xs ys : List Item) → count key (xs ++ ys) ≡ count key xs + count key ys
unfolding count
count-append key [] ys = omega arith
count-append key (x ∷ xs) ys = elim (Bool-cases (same_bytes key x.key)) [
  | inl on ↦ rw on (omega (arith, count-append key xs ys))
  | inr off ↦ rw off (count-append key xs ys)
]

pub count-tail :
    (key : List ℕ) (x : Item) (xs : List Item) → count key (x ∷ xs) ≡ 0 → count key xs ≡ 0
unfolding count
count-tail key x xs h = elim (Bool-cases (same_bytes key x.key)) [
  | inl on ↦ absurd (let h₂ : suc (count key xs) ≡ 0 = rw on at h in omega (arith, h₂))
  | inr off ↦ rw off at h
]

lookup-append :
    (key : List ℕ) (xs ys : List Item) (d : Option (Option ℕ))
    → lookup key (xs ++ ys) d ≡ lookup key xs (lookup key ys d)
unfolding lookup
lookup-append key [] ys d = refl
lookup-append key (x ∷ xs) ys d = elim (Bool-cases (same_bytes key x.key)) [
  | inl on ↦ rw on refl
  | inr off ↦ rw off (lookup-append key xs ys d)
]

pub lookup-absent :
    (key : List ℕ) (xs : List Item) (d : Option (Option ℕ)) → count key xs ≡ 0 → lookup key xs d ≡ d
unfolding lookup count
lookup-absent key [] d h = refl
lookup-absent key (x ∷ xs) d h = elim (Bool-cases (same_bytes key x.key)) [
  | inl on ↦ absurd (let h₂ : suc (count key xs) ≡ 0 = rw on at h in omega (arith, h₂))
  | inr off ↦ rw off (lookup-absent key xs d (rw off at h))
]

some-ne : {v : Option ℕ} → some v ≢ none
some-ne e = cc

-- A key that is not found is not there.
pub count-absent :
    (key : List ℕ) (xs : List Item) (d : Option (Option ℕ))
    → lookup key xs d ≡ none
    → count key xs ≡ 0
unfolding lookup count
count-absent key [] d h = refl
count-absent key (x ∷ xs) d h = elim (Bool-cases (same_bytes key x.key)) [
  | inl on ↦ absurd (some-ne (rw on at h))
  | inr off ↦ rw off (count-absent key xs d (rw off at h))
]

-- The items of a bucket hash to it.
unfoldable pub Placed : ℕ → (ℕ → List Item) → Type 0
Placed size rows = (i : ℕ) → All (λ x. slot x.key size ≡ i) (rows i)

pub count-elsewhere :
    (key : List ℕ) (size i : ℕ) (xs : List Item)
    → All (λ x. slot x.key size ≡ i) xs
    → slot key size ≢ i
    → count key xs ≡ 0
unfolding count
count-elsewhere key size i [] all ne = refl
count-elsewhere key size i (x ∷ xs) all ne = elim (Bool-cases (same_bytes key x.key)) [
  | inl on ↦ absurd (ne (ap (λ k. slot k size) (same_bytes-same key x.key on) ∙ all.0))
  | inr off ↦ rw off (count-elsewhere key size i xs all.1 ne)
]

module _ (key : List ℕ) (rows : ℕ → List Item) (s : ℕ)
    (others : (i : ℕ) → s ≢ i → count key (rows i) ≡ 0) where
  -- Only one of the buckets has items of the key.
  count-gather_off : (n i : ℕ) → s < i → count key (gather n i rows) ≡ 0
  unfolding gather count
  count-gather_off zero i h = refl
  count-gather_off (suc n) i h =
      count-append key (rows i) (gather n (suc i) rows)
      ∙ omega (arith, others i (omega arith), count-gather_off n (suc i) (omega arith))

  pub count-gather :
      (n i : ℕ) → i ≤ s → s < i + n → count key (gather n i rows) ≡ count key (rows s)
  unfolding gather
  count-gather zero i low high = absurd (omega arith)
  count-gather (suc n) i low high =
      count-append key (rows i) (gather n (suc i) rows) ∙ elim (Bool-cases (s == i)) [
        | inl on ↦
            let e : s ≡ i = (==_iff s i).0 on in
            rw (sym e) (omega (arith, count-gather_off n (suc s) (omega arith)))
        | inr off ↦
            omega
              (arith, others i (ground arith), count-gather n (suc i) (ground arith) (omega arith))
      ]

  pub lookup-gather :
      (n i : ℕ) → i ≤ s → s < i + n → lookup key (gather n i rows) none ≡ lookup key (rows s) none
  unfolding gather
  lookup-gather zero i low high = absurd (omega arith)
  lookup-gather (suc n) i low high =
      lookup-append key (rows i) (gather n (suc i) rows) none ∙ elim (Bool-cases (s == i)) [
        | inl on ↦
            let e : s ≡ i = (==_iff s i).0 on in
            rw (sym e) (
              ap (lookup key (rows s)) (
                lookup-absent key (gather n (suc s) rows) none
                  (count-gather_off n (suc s) (omega arith))))
        | inr off ↦
            lookup-absent key (rows i) (lookup key (gather n (suc i) rows) none)
              (others i (ground arith))
            ∙ lookup-gather n (suc i) (ground arith) (omega arith)
      ]
