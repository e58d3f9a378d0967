-- ===== src/Hashmap/Tests.antt =====
-- hashmap/hashmap.c: runs at concrete inputs.
use carrots.Base.{
  sym, ◌∙◌, subst, ℕ, zero, suc, ◌≡◌, refl, List, [], ◌∷◌, Option, none, some, true, get_elem?,
  get_or, ap, arith, ◌>>=◌,
}
use carrots.Hashmap.{
  Entry, Hashmap, Inserted, Grown, prime_index, index_loop, hashcode_index, create_loop,
  hashcode_create, entry_at, bucket_at, set_prev, set_next, hashmap_link, hashmap_size,
  hashmap_create, grow_chain, grow_buckets, old_buckets, hashmap_grow, enter, hashmap_insert,
  same_bytes, find_loop, hashmap_find, hashmap_locate,
}
use carrots.Hashmap.Remove.{unlink, delete_loop, hashmap_delete}
use carrots.Hashmap.Chain.{end}
use carrots.Hashmap.Lookup.{IsSound}
use carrots.Hashmap.Insert.{hashmap_insert-found, hashmap_insert-other}
use carrots.Hashmap.Finite.{
  bind_all, IsNew, Refines, insert_all, hashmap_insert-Refines, insert_all-Refines,
}
use carrots.Hashmap.Sequence.{created-Refines, insert_all-find, hashmap_grow-find}
use carrots.Hashmap.Refine.{bind, value_of}
use carrots.Hashmap.Fresh.{hashmap_create-undefined}

-- Keys of one character, inserted in order into a map of `hashmap_create`.
unfoldable insert_chars : List ℕ → List (Option Entry) → Hashmap → Option Inserted
insert_chars [] cells map = some (record { entry = none; cells = cells; map = map })
insert_chars (c ∷ cs) cells map = do
  r ← hashmap_insert true true cells map (c ∷ []) (some c)
  insert_chars cs r.cells r.map

-- `b` and `i` share a bucket of 7; the eighth insertion grows the map to 11.
abbrev eight : List ℕ
eight = 98 ∷ 105 ∷ 99 ∷ 100 ∷ 101 ∷ 102 ∷ 103 ∷ 104 ∷ []

unfoldable filled : Option Inserted
filled = hashmap_create true 0 >>= λ map. insert_chars eight [] map

filled-finds : (filled >>= λ r. hashmap_find r.cells (some r.map) (98 ∷ [])) ≡ some (some 98)
unfolding filled insert_chars hashmap_create prime_index hashmap_insert enter hashmap_grow
    old_buckets grow_buckets grow_chain hashmap_size hashmap_link set_prev entry_at bucket_at
    hashcode_index index_loop hashcode_create create_loop hashmap_find find_loop same_bytes
filled-finds = refl

-- After the growing, the old `prev` of `b` keeps `hashmap_delete` from moving the head of its bucket,
-- which then points to the freed entry.
filled-deletes :
    (filled >>= λ r.
    hashmap_delete (record { cells = r.cells; freed_values = [] }) r.map (98 ∷ []) >>= λ d.
    hashmap_find d.heap.cells (some d.map) (98 ∷ []))
    ≡ none
unfolding filled insert_chars hashmap_create prime_index hashmap_insert enter hashmap_grow
    old_buckets grow_buckets grow_chain hashmap_size hashmap_link set_prev entry_at bucket_at
    hashcode_index index_loop hashcode_create create_loop hashmap_find find_loop same_bytes
    hashmap_delete delete_loop unlink set_next
filled-deletes = refl

abbrev small : Hashmap
small = record { size = 3; used = 0; idx = 0; buckets = some (none ∷ none ∷ none ∷ []) }

abbrev heads : List (Option ℕ)
heads = none ∷ none ∷ none ∷ []

small-chains : (i : ℕ) (head : Option ℕ) → get_elem? heads i ≡ some head → head ≡ none
small-chains zero head e = cc
small-chains (suc zero) head e = cc
small-chains (suc (suc zero)) head e = cc
small-chains (suc (suc (suc i))) head e = absurd cc

abbrev small-IsSound : IsSound [] small
small-IsSound = record {
  heads = heads;
  buckets = refl;
  positive = omega arith;
  sized = refl;
  chains = λ i head e. ([], rw (small-chains i head e) end, omega arith);
}

hashmap_insert-found_example :
    (r : Inserted) × (hashmap_insert true true [] small (98 ∷ []) (some 7) ≡ some r)
    × (r.entry ≡ some 0)
    × IsSound r.cells r.map
    × (hashmap_find r.cells (some r.map) (98 ∷ []) ≡ some (some 7))
    × (r.map.used ≡ 1)
hashmap_insert-found_example =
    hashmap_insert-found [] small (98 ∷ []) (some 7) small-IsSound (omega arith)

hashmap_insert-other_example :
    (r : Inserted) × (hashmap_insert true true [] small (98 ∷ []) (some 7) ≡ some r)
    × (hashmap_find r.cells (some r.map) (99 ∷ []) ≡ hashmap_find [] (some small) (99 ∷ []))
hashmap_insert-other_example =
    hashmap_insert-other [] small (98 ∷ []) (99 ∷ []) (some 7) small-IsSound (omega arith)
      (λ e. absurd (omega (arith, ap (λ (l : List ℕ). get_or l 0 0) e)))

hashmap_create-undefined_example :
    (hashcode_index (98 ∷ []) 0 ≡ none)
    × (hashmap_find [] (some (record { size = 0; used = 0; idx = 1; buckets = none })) (98 ∷ [])
        ≡ none)
    × (hashmap_locate [] (some (record { size = 0; used = 0; idx = 1; buckets = none })) (98 ∷ [])
        ≡ none)
    × (hashmap_delete
          (record { cells = []; freed_values = [] })
          (record { size = 0; used = 0; idx = 1; buckets = none })
          (98 ∷ [])
        ≡ none)
unfolding hashmap_create prime_index
hashmap_create-undefined_example =
    hashmap_create-undefined (record { cells = []; freed_values = [] }) 5
      (record { size = 0; used = 0; idx = 1; buckets = none }) (98 ∷ []) refl

abbrev unfilled : Hashmap
unfilled = record { size = 0; used = 0; idx = 0; buckets = none }

unfilled-created : hashmap_create true 0 ≡ some unfilled
unfolding hashmap_create prime_index
unfilled-created = refl

unfilled-Refines : Refines [] unfilled (λ k. none) 0
unfilled-Refines = created-Refines 0 unfilled unfilled-created (omega arith)

hashmap_insert-Refines_example :
    (r : Inserted) × (hashmap_insert true true [] unfilled (98 ∷ []) (some 7) ≡ some r)
    × (r.entry ≡ some 0)
    × Refines r.cells r.map (bind (98 ∷ []) (some 7) (λ k. none)) 1
hashmap_insert-Refines_example =
    hashmap_insert-Refines [] unfilled (98 ∷ []) (some 7) (λ k. none) 0 unfilled-Refines refl

-- Eight keys, the last of which makes the map grow.
abbrev pairs : List (List ℕ × Option ℕ)
pairs =
    (98 ∷ [], some 1)
    ∷ (105 ∷ [], some 2)
    ∷ (99 ∷ [], none)
    ∷ (100 ∷ [], some 4)
    ∷ (101 ∷ [], some 5)
    ∷ (102 ∷ [], some 6)
    ∷ (103 ∷ [], some 7)
    ∷ (104 ∷ [], some 8)
    ∷ []

pairs-IsNew : IsNew pairs (λ k. none)
unfolding IsNew bind same_bytes
pairs-IsNew = (refl, (refl, (refl, (refl, (refl, (refl, (refl, (refl, tt))))))))

insert_all-find_example :
    (r : Inserted) × (insert_all pairs [] unfilled ≡ some r)
    × (r.map.used ≡ 8)
    × (hashmap_find r.cells (some r.map) (105 ∷ []) ≡ some (some 2))
unfolding bind_all bind same_bytes value_of
insert_all-find_example =
    insert_all-find 0 unfilled pairs (105 ∷ []) unfilled-created (omega arith) (omega arith)
      pairs-IsNew

abbrev one_cell : List (Option Entry)
one_cell =
    some (record {
      key = 98 ∷ [];
      key_len = 1;
      hash_code = 98;
      value = some 7;
      next = none;
      prev = none;
    })
    ∷ []

abbrev one_map : Hashmap
one_map = record {
  size = 7;
  used = 1;
  idx = 1;
  buckets = some (some 0 ∷ none ∷ none ∷ none ∷ none ∷ none ∷ none ∷ []);
}

one_run :
    insert_all ((98 ∷ [], some 7) ∷ []) [] unfilled
    ≡ some (record { entry = none; cells = one_cell; map = one_map })
unfolding insert_all hashmap_insert enter hashmap_grow old_buckets grow_buckets grow_chain
    hashmap_size hashmap_link set_prev entry_at bucket_at hashcode_index index_loop hashcode_create
    create_loop
one_run = refl

inserted-same : {x y : Inserted} → some x ≡ some y → x ≡ y
inserted-same e = cc

one-Refines : Refines one_cell one_map (bind_all ((98 ∷ [], some 7) ∷ []) (λ k. none)) 1
unfolding IsNew
one-Refines =
    let (r, runs, held) =
      insert_all-Refines ((98 ∷ [], some 7) ∷ []) [] unfilled (λ k. none) 0 unfilled-Refines
        (refl, tt) in
    let same = inserted-same (sym runs ∙ one_run) in
    subst
      (λ (x : Inserted). Refines x.cells x.map (bind_all ((98 ∷ [], some 7) ∷ []) (λ k. none)) 1)
      same held

hashmap_grow-find_example :
    (r : Grown) × (hashmap_grow true one_cell one_map ≡ some r)
    × (r.done ≡ true)
    × (r.map.size ≡ 11)
    × (r.map.used ≡ 1)
    × (hashmap_find r.cells (some r.map) (98 ∷ []) ≡ hashmap_find one_cell (some one_map) (98 ∷ []))
hashmap_grow-find_example =
    hashmap_grow-find one_cell one_map (bind_all ((98 ∷ [], some 7) ∷ []) (λ k. none)) 1 11
      (98 ∷ []) one-Refines (omega arith) refl (omega arith)

-- The key `b` twice: before the growing the later value is found, after it the earlier one.
unfoldable twice : List (List ℕ × Option ℕ) → Option (Option ℕ)
twice more = insert_all ((98 ∷ [], some 1) ∷ (98 ∷ [], some 2) ∷ more) [] unfilled >>= λ r.
    hashmap_find r.cells (some r.map) (98 ∷ [])

twice-finds :
    (twice [] ≡ some (some 2))
    × (twice (
          (99 ∷ [], none)
          ∷ (100 ∷ [], none)
          ∷ (101 ∷ [], none)
          ∷ (102 ∷ [], none)
          ∷ (103 ∷ [], none)
          ∷ (104 ∷ [], none)
          ∷ [])
        ≡ some (some 1))
unfolding twice insert_all hashmap_insert enter hashmap_grow old_buckets grow_buckets grow_chain
    hashmap_size hashmap_link set_prev entry_at bucket_at hashcode_index index_loop hashcode_create
    create_loop hashmap_find find_loop same_bytes
twice-finds = (refl, refl)
