-- ===== src/Hashmap/Lookup.antt =====
-- hashmap/hashmap.c: `hashmap_find` on a sound map returns the value of the first item of the key.
use carrots.Base.{
  ℕ, zero, suc, ◌%◌, ◌^◌, ◌≤◌, ◌<◌, ◌≡◌, refl, inl, inr, List, [], ◌∷◌, Option, none, some, Bool,
  false, ◌==◌, ◌&&◌, if◌then◌else◌, length, get_elem?, arith, Bool-cases,
}
use carrots.Hashmap.{
  Entry, Hashmap, matches, find_loop, hashmap_find, hashcode_index, hashcode_create, index_loop,
  bucket_at, same_bytes,
}
use carrots.Hashmap.Chain.{Item, Chain, link, end}

abbrev pub is_item_of : List ℕ → ℕ → Item → Bool
is_item_of key hc i = length key == i.key_len && hc == i.hash_code && same_bytes key i.key

-- The value of the first item of the key, NULL when there is none.
unfoldable pub first_value : List ℕ → ℕ → List Item → Option ℕ
first_value key hc [] = none
first_value key hc (i ∷ is) =
    let rest = first_value key hc is in if is_item_of key hc i then i.value else rest

-- A map whose buckets are there, as many as its size, each with a chain no longer than the heap.
pub record IsSound (cells : List (Option Entry)) (map : Hashmap) : Type 0 where
  pub heads : List (Option ℕ)
  pub buckets : map.buckets ≡ some heads
  pub positive : 0 < map.size
  pub sized : length heads ≡ map.size
  pub chains :
      (i : ℕ) (head : Option ℕ)
      → get_elem? heads i ≡ some head
      → (items : List Item) × Chain cells head items × (length items ≤ length cells)

find_loop-first :
    (cells : List (Option Entry)) (key : List ℕ) (hc fuel : ℕ) (head : Option ℕ) (items : List Item)
    → Chain cells head items
    → length items ≤ fuel
    → find_loop fuel cells key hc head ≡ some (first_value key hc items)
unfolding find_loop first_value
find_loop-first cells key hc fuel _ _ end h = refl
find_loop-first cells key hc zero _ _ (link a e items found rest) h = absurd (omega arith)
find_loop-first cells key hc (suc fuel) _ _ (link a e items found rest) h =
    elim (Bool-cases (matches key hc e)) [
      | inl on ↦ rw (found, on) refl
      | inr off ↦
          rw (found, off) (find_loop-first cells key hc fuel e.next items rest (omega arith))
    ]

-- The bucket of a key in a map of that size.
pub record Bucket (heads : List (Option ℕ)) (key : List ℕ) (size : ℕ) : Type 0 where
  pub index : ℕ
  pub head : Option ℕ
  pub hashed : hashcode_index key size ≡ some index
  pub there : get_elem? heads index ≡ some head

pub get_elem?-some :
    (heads : List (Option ℕ)) (i : ℕ)
    → i < length heads
    → (head : Option ℕ) × (get_elem? heads i ≡ some head)
get_elem?-some [] i h = absurd (omega arith)
get_elem?-some (x ∷ xs) zero h = (x, refl)
get_elem?-some (x ∷ xs) (suc i) h = get_elem?-some xs i (omega arith)

pub bucket :
    (heads : List (Option ℕ)) (key : List ℕ) (size : ℕ)
    → 0 < size
    → length heads ≡ size
    → Bucket heads key size
unfolding hashcode_index
bucket heads key size positive sized =
    let off : (size == 0) ≡ false = ground arith in
    let i = (index_loop key 63689 0 % 2 ^ 31) % size in
    let (head, there) = get_elem?-some heads i (grind arith) in
    record { index = i; head = head; hashed = rw off refl; there = there }

-- `hashmap_find` on a sound map is in bounds and returns: the value of the first item of the key in
-- the chain of its bucket.
pub hashmap_find-first :
    (cells : List (Option Entry)) (map : Hashmap) (key : List ℕ) (heads : List (Option ℕ))
    (b : Bucket heads key map.size) (items : List Item)
    → map.buckets ≡ some heads
    → Chain cells b.head items
    → length items ≤ length cells
    → hashmap_find cells (some map) key ≡ some (first_value key (hashcode_create key) items)
unfolding hashmap_find bucket_at
hashmap_find-first cells map key heads b items here chain short =
    rw (b.hashed, here, b.there)
      (find_loop-first cells key (hashcode_create key) (length cells) b.head items chain short)
