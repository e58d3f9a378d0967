-- ===== src/Hashmap/Remove.antt =====
-- hashmap/hashmap.c: `hashmap_delete`, `hashmap_free`, `hashmap_walk` and `hashmap_list`.
use carrots.Base.{
  ℕ, zero, suc, ◌+◌, ◌-◌, ◌%◌, ◌^◌, List, [], ◌∷◌, ◌++◌, Option, none, some, Bool, true, false, leb,
  if◌then◌else◌, length, set, ◌>>=◌,
}
use carrots.Hashmap.{
  Entry, Hashmap, Heap, hashcode_index, hashcode_create, entry_at, bucket_at, set_bucket, set_prev,
  set_next, matches, old_buckets,
}

-- What `hashmap_delete` leaves; `done` is its return value 0.
pub record Deleted : Type 0 where
  pub done : Bool
  pub heap : Heap
  pub map : Hashmap

abbrev pub free_value : Option ℕ → List ℕ → List ℕ
free_value none freed = freed
free_value (some v) freed = v ∷ freed

-- `hashmap_delete`: the found entry is unlinked and freed.
unfoldable pub unlink : Heap → Hashmap → ℕ → ℕ → Entry → Option Deleted
unfolding set_prev
unlink heap map i ht e = do
  cells₁ ← set_prev heap.cells e.next e.prev
  let freed : List (Option Entry) → Hashmap → Deleted = λ cells m. record {
    done = true;
    heap = record {
      cells = set cells ht none;
      freed_values = free_value e.value heap.freed_values;
    };
    map = record m { used = (m.used + (2 ^ 16 - 1)) % 2 ^ 16 };
  }
  elim e.prev [
    | some p ↦ (set_next cells₁ p e.next >>= λ cells₂. some (freed cells₂ map))
    | none ↦ some (freed cells₁ (record map { buckets = set_bucket map.buckets i e.next }))
  ]

unfoldable pub delete_loop : ℕ → Heap → Hashmap → ℕ → List ℕ → ℕ → Option ℕ → Option Deleted
delete_loop fuel heap map i key hc none = some (record { done = false; heap = heap; map = map })
delete_loop zero heap map i key hc (some ht) = none
delete_loop (suc fuel) heap map i key hc (some ht) = do
  e ← entry_at heap.cells ht
  let rest = delete_loop fuel heap map i key hc e.next
  if matches key hc e then unlink heap map i ht e else rest

-- `hashmap_delete` of a map that is not NULL
unfoldable pub hashmap_delete : Heap → Hashmap → List ℕ → Option Deleted
hashmap_delete heap map key = do
  i ← hashcode_index key map.size
  head ← bucket_at map.buckets i
  delete_loop (length heap.cells) heap map i key (hashcode_create key) head

-- `hashmap_free`: the entries of a chain, then of all buckets; the map itself is gone.
unfoldable pub free_chain : ℕ → Heap → Option ℕ → Option Heap
free_chain fuel heap none = some heap
free_chain zero heap (some ht) = none
free_chain (suc fuel) heap (some ht) = do
  e ← entry_at heap.cells ht
  free_chain fuel
      (record {
        cells = set heap.cells ht none;
        freed_values = free_value e.value heap.freed_values;
      })
      e.next

unfoldable pub free_buckets : List (Option ℕ) → Heap → Option Heap
free_buckets [] heap = some heap
free_buckets (h ∷ hs) heap = do rest ← free_chain (length heap.cells) heap h; free_buckets hs rest

unfoldable pub hashmap_free : Heap → Option Hashmap → Option Heap
hashmap_free heap none = some heap
hashmap_free heap (some map) = do heads ← old_buckets map.buckets map.size; free_buckets heads heap

-- The entries of a chain and of all buckets in the order of `hashmap_walk` and `hashmap_list`.
unfoldable pub chain_members : ℕ → List (Option Entry) → Option ℕ → Option (List ℕ)
chain_members fuel cells none = some []
chain_members zero cells (some ht) = none
chain_members (suc fuel) cells (some ht) = do
  e ← entry_at cells ht
  rest ← chain_members fuel cells e.next
  some (ht ∷ rest)

unfoldable pub bucket_members : List (Option ℕ) → List (Option Entry) → Option (List ℕ)
bucket_members [] cells = some []
bucket_members (h ∷ hs) cells = do
  here ← chain_members (length cells) cells h
  rest ← bucket_members hs cells
  some (here ++ rest)

-- `hashmap_walk` with an action that leaves the map alone: its calls in order, on a state.
module _ {ℓ} {S : Type ℓ} (action : S → ℕ → S) where
  unfoldable pub call_all : List ℕ → S → S
  call_all [] s = s
  call_all (ht ∷ hts) s = call_all hts (action s ht)

  unfoldable pub hashmap_walk : List (Option Entry) → Option Hashmap → S → Option S
  hashmap_walk cells none s = some s
  hashmap_walk cells (some map) s = do
    heads ← old_buckets map.buckets map.size
    members ← bucket_members heads cells
    some (call_all members s)

-- `hashmap_list`: NULL without memory, else the members; more members than `used` are written out of
-- bounds.
unfoldable pub hashmap_list : Bool → List (Option Entry) → Option Hashmap → Option (Option (List ℕ))
hashmap_list calloc cells none = if calloc then some (some []) else some none
hashmap_list calloc cells (some map) = do
  heads ← old_buckets map.buckets map.size
  members ← bucket_members heads cells
  if calloc
      then (if leb (length members) map.used then some (some members) else none)
      else some none
