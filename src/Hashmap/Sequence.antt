-- ===== src/Hashmap/Sequence.antt =====
-- hashmap/hashmap.c: sequences of insertions, and growing, seen by `hashmap_find`.
use carrots.Base.{
  ℕ, ◌+◌, ◌%◌, ◌^◌, ◌<◌, ◌≡◌, ◌≢◌, refl, sym, ap, ◌∙◌, inl, inr, List, [], Option, none, some, true,
  length, get_elem?, arith,
}
use carrots.Hashmap.{
  Entry, Hashmap, Inserted, Grown, hashmap_find, hashmap_create, hashmap_grow, primes,
}
use carrots.Hashmap.Fresh.{hashmap_create-cases}
use carrots.Hashmap.Regrow.{hashmap_grow-Regrown}
use carrots.Hashmap.Refine.{value_of, find-Growing}
use carrots.Hashmap.Finite.{bind_all, IsNew, Refines, insert_all, insert_all-Refines, find-Refines}

some-same : {x y : Hashmap} → some x ≡ some y → x ≡ y
some-same e = cc

some-ne : {x : Hashmap} → some x ≢ none
some-ne e = cc

-- A map of `hashmap_create` holds nothing.
pub created-Refines :
    (size : ℕ) (map : Hashmap)
    → hashmap_create true size ≡ some map
    → map.idx < 71
    → Refines [] map (λ key. none) 0
created-Refines size map created low = elim (hashmap_create-cases size) [
  | inl null ↦ absurd (some-ne (sym created ∙ null))
  | inr given ↦
      let (m, p, made, empty, unused, none_yet, at, above) = given in
      let same : m ≡ map = some-same (sym made ∙ created) in
      record {
        small = omega arith;
        used = ap (λ (x : Hashmap). x.used) (sym same) ∙ unused;
        state = inl (ap (λ (x : Hashmap). x.size) (sym same) ∙ empty, λ key. refl, refl, low);
      }
]

-- When there is memory, hashmap_create gives a map whose index leaves a prime above it, and the
-- keys, at least one, are all different: inserting them in order always returns, however often the
-- map grows; afterwards hashmap_find of any key returns the value that was given with it, or NULL
-- when it was not inserted, and used is their number modulo 2 ^ 16.
pub insert_all-find :
    (size : ℕ) (map : Hashmap) (kvs : List (List ℕ × Option ℕ)) (key : List ℕ)
    → hashmap_create true size ≡ some map
    → map.idx < 71
    → 0 < length kvs
    → IsNew kvs (λ k. none)
    → (r : Inserted) × (insert_all kvs [] map ≡ some r)
      × (r.map.used ≡ length kvs % 2 ^ 16)
      × (hashmap_find r.cells (some r.map) key ≡ some (value_of (bind_all kvs (λ k. none) key)))
insert_all-find size map kvs key created low some_keys new =
    let (r, runs, held) =
      insert_all-Refines kvs [] map (λ k. none) 0 (created-Refines size map created low) new in
    (
      r,
      runs,
      omega (arith, held.used),
      find-Refines r.cells r.map (bind_all kvs (λ k. none)) (0 + length kvs) key held (omega arith),
    )

-- On a map that holds a finite map of at least one key, when there is memory and a next prime:
-- hashmap_grow always succeeds, the size is that prime, used is as it was, and hashmap_find gives
-- for every key what it gave before.
pub hashmap_grow-find :
    (cells : List (Option Entry)) (map : Hashmap) (f : List ℕ → Option (Option ℕ)) (total : ℕ)
    (size : ℕ) (key : List ℕ)
    → Refines cells map f total
    → 0 < total
    → get_elem? primes ((map.idx + 1) % 2 ^ 8) ≡ some size
    → 0 < size
    → (r : Grown) × (hashmap_grow true cells map ≡ some r)
      × (r.done ≡ true)
      × (r.map.size ≡ size)
      × (r.map.used ≡ map.used)
      × (hashmap_find r.cells (some r.map) key ≡ hashmap_find cells (some map) key)
hashmap_grow-find cells map f total size key h filled next above = elim h.state [
  | inl fresh ↦ absurd (let z = fresh.2 in omega (arith, z))
  | inr held ↦
      let (rows, g, prime) = held in
      let r = hashmap_grow-Regrown cells map size f total next above h.small rows g in
      (
        record { done = true; cells = r.cells₂; map = r.map₂ },
        r.runs,
        refl,
        r.size_is,
        omega (arith, h.used, r.growing.held.used, r.growing.shape.counted),
        find-Growing r.cells₂ r.map₂ r.rows f total key (omega (arith, h.small, r.same)) r.growing
            ∙ sym (find-Growing cells map rows f total key h.small g),
      )
]
