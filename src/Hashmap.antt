-- ===== src/Hashmap.antt =====
-- hashmap/hashmap.c: a hash map of chained entries that live on a heap. An operation returns none
-- where the code has undefined behaviour: a remainder by zero, or an access through NULL, to a freed
-- entry or out of bounds. Chains are followed on fuel, one unit for each cell of the heap.
pub mod Fresh
pub mod Chain
pub mod Lookup
pub mod Remove
pub mod Fill
pub mod Insert
pub mod Rows
pub mod Shape
pub mod Relink
pub mod Grow
pub mod Regrow
pub mod Refine
pub mod Finite
pub mod Sequence
pub mod Primes
mod Tests
use carrots.Base.{
  ℕ, zero, suc, ◌+◌, ◌-◌, ◌*◌, ◌%◌, ◌^◌, List, [], ◌∷◌, ◌++◌, Option, none, some, Bool, true, false,
  ltb, leb, ◌==◌, ◌&&◌, if◌then◌else◌, length, get_elem?, set, replicate, ◌>>=◌,
}

-- `hashmap_entry_s`; the value is NULL or an address of the caller's.
pub record Entry : Type 0 where
  pub key : List ℕ
  pub key_len : ℕ
  pub hash_code : ℕ
  pub value : Option ℕ
  pub next : Option ℕ
  pub prev : Option ℕ

-- `hashmap_t`
pub record Hashmap : Type 0 where
  pub size : ℕ
  pub used : ℕ
  pub idx : ℕ
  pub buckets : Option (List (Option ℕ))

-- The entries by address, none for a freed one, and the values that the map has freed.
pub record Heap : Type 0 where
  pub cells : List (Option Entry)
  pub freed_values : List ℕ

abbrev pub primes : List ℕ
primes =
    3 ∷ 7 ∷ 11 ∷ 17 ∷ 23 ∷ 29 ∷ 37 ∷ 47 ∷ 59 ∷ 71 ∷ 89 ∷ 107 ∷ 131 ∷ 163 ∷ 197 ∷ 239 ∷ 293 ∷ 353
    ∷ 431 ∷ 521 ∷ 631 ∷ 761 ∷ 919 ∷ 1103 ∷ 1327 ∷ 1597 ∷ 1931 ∷ 2333 ∷ 2801 ∷ 3371 ∷ 4049 ∷ 4861
    ∷ 5839 ∷ 7013 ∷ 8419 ∷ 10103 ∷ 12143 ∷ 14591 ∷ 17519 ∷ 21023 ∷ 25229 ∷ 30293 ∷ 36353 ∷ 43627
    ∷ 52361 ∷ 62851 ∷ 75431 ∷ 90523 ∷ 108631 ∷ 130363 ∷ 156437 ∷ 187751 ∷ 225307 ∷ 270371 ∷ 324449
    ∷ 389357 ∷ 467237 ∷ 560689 ∷ 672827 ∷ 807403 ∷ 968897 ∷ 1162687 ∷ 1395263 ∷ 1674319 ∷ 2009191
    ∷ 2411033 ∷ 2893249 ∷ 3471899 ∷ 4166287 ∷ 4999559 ∷ 5999471 ∷ 7199369 ∷ []

-- A char, which is signed, as an unsigned int.
abbrev pub char_value : ℕ → ℕ
char_value c = if ltb c 128 then c else c + (2 ^ 32 - 256)

-- `hashcode_index`, and its loop
unfoldable pub index_loop : List ℕ → ℕ → ℕ → ℕ
index_loop [] a hash = hash
index_loop (c ∷ cs) a hash =
    index_loop cs ((a * 378551) % 2 ^ 32) ((hash * a + char_value c) % 2 ^ 32)

unfoldable pub hashcode_index : List ℕ → ℕ → Option ℕ
hashcode_index key size =
    if size == 0 then none else some ((index_loop key 63689 0 % 2 ^ 31) % size)

-- `hashcode_create`, and its loop
unfoldable pub create_loop : List ℕ → ℕ → ℕ
create_loop [] hash = hash
create_loop (c ∷ cs) hash = create_loop cs ((hash * 131 + char_value c) % 2 ^ 32)

unfoldable pub hashcode_create : List ℕ → ℕ
hashcode_create key = create_loop key 0 % 2 ^ 31

-- The entry at an address.
unfoldable pub entry_at : List (Option Entry) → ℕ → Option Entry
entry_at cells at = elim (get_elem? cells at) [ none ↦ none | some cell ↦ cell ]

abbrev pub put_entry : List (Option Entry) → ℕ → Entry → List (Option Entry)
put_entry cells at e = set cells at (some e)

-- `map->data[i]`
unfoldable pub bucket_at : Option (List (Option ℕ)) → ℕ → Option (Option ℕ)
bucket_at none i = none
bucket_at (some heads) i = get_elem? heads i

abbrev pub set_bucket : Option (List (Option ℕ)) → ℕ → Option ℕ → Option (List (Option ℕ))
set_bucket none i head = none
set_bucket (some heads) i head = some (set heads i head)

-- `p->prev = at`, `p->next = at`, where `p` is not NULL
unfoldable pub set_prev : List (Option Entry) → Option ℕ → Option ℕ → Option (List (Option Entry))
set_prev cells none at = some cells
set_prev cells (some p) at = do
  e ← entry_at cells p
  some (put_entry cells p (record e { prev = at }))

unfoldable pub set_next : List (Option Entry) → ℕ → Option ℕ → Option (List (Option Entry))
set_next cells p at = do e ← entry_at cells p; some (put_entry cells p (record e { next = at }))

-- `hashmap_link`; `used` has 16 bits.
unfoldable pub hashmap_link :
    List (Option Entry) → Hashmap → ℕ → Option (List (Option Entry) × Hashmap)
unfolding set_prev
hashmap_link cells map elm = do
  e ← entry_at cells elm
  i ← hashcode_index e.key map.size
  head ← bucket_at map.buckets i
  cells₂ ← set_prev (put_entry cells elm (record e { next = head })) head (some elm)
  some (
    cells₂,
    record map { buckets = set_bucket map.buckets i (some elm); used = (map.used + 1) % 2 ^ 16 },
  )

-- `hashmap_size`: -1 with `data` NULL, or 0 with empty buckets; `calloc` says whether there is memory.
unfoldable pub hashmap_size : Bool → Hashmap → ℕ → Bool × Hashmap
hashmap_size calloc map size =
    if calloc
    then (true, record map { buckets = some (replicate size none); size = size; used = 0 })
    else (false, record map { buckets = none })

-- The loop of `hashmap_create`: the position of the first prime above `size`.
unfoldable pub prime_index : List ℕ → ℕ → ℕ → ℕ
prime_index [] size idx = idx
prime_index (p ∷ ps) size idx =
    let rest = prime_index ps size (suc idx) in if ltb size p then idx else rest

-- `hashmap_create`: NULL without memory or for a size that no prime exceeds.
unfoldable pub hashmap_create : Bool → ℕ → Option Hashmap
hashmap_create calloc size =
    let idx = prime_index primes size 0 in
    if calloc
    then (if leb (length primes) idx
        then none
        else some (record { size = 0; used = 0; idx = idx; buckets = none }))
    else none

-- `hashmap_grow` for one old bucket: every entry of the chain is linked again.
unfoldable pub grow_chain :
    ℕ → List (Option Entry) → Hashmap → Option ℕ → Option (List (Option Entry) × Hashmap)
grow_chain fuel cells map none = some (cells, map)
grow_chain zero cells map (some ht) = none
grow_chain (suc fuel) cells map (some ht) = do
  e ← entry_at cells ht
  linked ← hashmap_link cells map ht
  grow_chain fuel linked.0 linked.1 e.next

unfoldable pub grow_buckets :
    List (Option ℕ) → List (Option Entry) → Hashmap → Option (List (Option Entry) × Hashmap)
grow_buckets [] cells map = some (cells, map)
grow_buckets (h ∷ hs) cells map = do
  moved ← grow_chain (length cells) cells map h
  grow_buckets hs moved.0 moved.1

-- The first `n` buckets from `data` on.
unfoldable pub old_buckets : Option (List (Option ℕ)) → ℕ → Option (List (Option ℕ))
old_buckets heads zero = some []
old_buckets none (suc n) = none
old_buckets (some []) (suc n) = none
old_buckets (some (h ∷ hs)) (suc n) = do rest ← old_buckets (some hs) n; some (h ∷ rest)

-- What an operation that may lack memory leaves, and whether it succeeded.
pub record Grown : Type 0 where
  pub done : Bool
  pub cells : List (Option Entry)
  pub map : Hashmap

-- `hashmap_grow`; the index of the prime has 8 bits.
unfoldable pub hashmap_grow : Bool → List (Option Entry) → Hashmap → Option Grown
hashmap_grow calloc cells map = do
  size ← get_elem? primes ((map.idx + 1) % 2 ^ 8)
  let sized = hashmap_size calloc (record map { idx = (map.idx + 1) % 2 ^ 8 }) size
  heads ← old_buckets map.buckets map.size
  if sized.0
      then (do
        moved ← grow_buckets heads cells sized.1
        some (record { done = true; cells = moved.0; map = moved.1 }))
      else some (record { done = false; cells = cells; map = sized.1 })

-- The entry that `hashmap_insert` fills in.
abbrev pub new_entry : List ℕ → Option ℕ → Entry
new_entry key value = record {
  key = key;
  key_len = length key;
  hash_code = hashcode_create key;
  value = value;
  next = none;
  prev = none;
}

-- What `hashmap_insert` returns: the entry's address or NULL.
pub record Inserted : Type 0 where
  pub entry : Option ℕ
  pub cells : List (Option Entry)
  pub map : Hashmap

-- `hashmap_insert` behind the growing; the entry is a fresh cell at the end of the heap.
unfoldable pub enter : Bool → List (Option Entry) → Hashmap → List ℕ → Option ℕ → Option Inserted
enter calloc cells map key value =
    if calloc
    then (do
      linked ← hashmap_link (cells ++ some (new_entry key value) ∷ []) map (length cells)
      some (record { entry = some (length cells); cells = linked.0; map = linked.1 }))
    else some (record { entry = none; cells = cells; map = map })

-- `hashmap_insert`; the two Booleans say whether there is memory for the buckets and for the entry.
unfoldable pub hashmap_insert :
    Bool → Bool → List (Option Entry) → Hashmap → List ℕ → Option ℕ → Option Inserted
hashmap_insert calloc_buckets calloc_entry cells map key value =
    if leb map.size map.used
    then (do
      grown ← hashmap_grow calloc_buckets cells map
      if grown.done
          then enter calloc_entry grown.cells grown.map key value
          else some (record { entry = none; cells = grown.cells; map = grown.map }))
    else enter calloc_entry cells map key value

-- `memcmp(key, ht->key, ht->key_len) == 0` of keys of the same length
unfoldable pub same_bytes : List ℕ → List ℕ → Bool
same_bytes [] [] = true
same_bytes [] (d ∷ ds) = false
same_bytes (c ∷ cs) [] = false
same_bytes (c ∷ cs) (d ∷ ds) = c == d && same_bytes cs ds

abbrev pub matches : List ℕ → ℕ → Entry → Bool
matches key hc e = length key == e.key_len && hc == e.hash_code && same_bytes key e.key

-- `hashmap_find` and its loop: the value, NULL when there is no entry.
unfoldable pub find_loop : ℕ → List (Option Entry) → List ℕ → ℕ → Option ℕ → Option (Option ℕ)
find_loop fuel cells key hc none = some none
find_loop zero cells key hc (some ht) = none
find_loop (suc fuel) cells key hc (some ht) = do
  e ← entry_at cells ht
  let rest = find_loop fuel cells key hc e.next
  if matches key hc e then some e.value else rest

unfoldable pub hashmap_find : List (Option Entry) → Option Hashmap → List ℕ → Option (Option ℕ)
hashmap_find cells none key = none
hashmap_find cells (some map) key = do
  idx ← hashcode_index key map.size
  head ← bucket_at map.buckets idx
  find_loop (length cells) cells key (hashcode_create key) head

-- `hashmap_locate` and its loop: the entry's address, NULL when there is none.
unfoldable pub locate_loop : ℕ → List (Option Entry) → List ℕ → ℕ → Option ℕ → Option (Option ℕ)
locate_loop fuel cells key hc none = some none
locate_loop zero cells key hc (some ht) = none
locate_loop (suc fuel) cells key hc (some ht) = do
  e ← entry_at cells ht
  let rest = locate_loop fuel cells key hc e.next
  if matches key hc e then some (some ht) else rest

unfoldable pub hashmap_locate : List (Option Entry) → Option Hashmap → List ℕ → Option (Option ℕ)
hashmap_locate cells none key = none
hashmap_locate cells (some map) key = do
  idx ← hashcode_index key map.size
  head ← bucket_at map.buckets idx
  locate_loop (length cells) cells key (hashcode_create key) head
