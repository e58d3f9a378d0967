-- ===== src/Hashmap/Finite.antt =====
-- hashmap/hashmap.c: the map as a finite map from keys to values. A sequence of `hashmap_insert`, which
-- grows the buckets as it needs, binds the keys one after the other.
use carrots.Base.{
  ℕ, suc, ◌+◌, ◌%◌, ◌^◌, ◌≤◌, ◌<◌, ◌≡◌, ◌⊎◌, refl, sym, ap, ◌∙◌, inl, inr, List, [], ◌∷◌, Option,
  none, some, true, false, leb, length, get_elem?, arith, Bool-cases, ◌>>=◌, subst,
}
use carrots.Hashmap.{Entry, Hashmap, Inserted, enter, hashmap_insert, hashmap_find, primes}
use carrots.Hashmap.Chain.{Item}
use carrots.Hashmap.Grow.{Growing}
use carrots.Hashmap.Regrow.{Regrown, hashmap_grow-Regrown, fresh-Regrown}
use carrots.Hashmap.Primes.{next_prime, prime-small}
use carrots.Hashmap.Refine.{bind, value_of, find-Growing, Entered, enter-Growing}

-- Several keys, each bound after those before it.
unfoldable pub bind_all :
    List (List ℕ × Option ℕ) → (List ℕ → Option (Option ℕ)) → List ℕ → Option (Option ℕ)
bind_all [] f = f
bind_all (kv ∷ kvs) f = bind_all kvs (bind kv.0 kv.1 f)

-- No key is there when it is bound.
unfoldable pub IsNew : List (List ℕ × Option ℕ) → (List ℕ → Option (Option ℕ)) → Type 0
IsNew [] f = Unit
IsNew (kv ∷ kvs) f = (f kv.0 ≡ none) × IsNew kvs (bind kv.0 kv.1 f)

-- A map of `hashmap_create`, whose index leaves a prime above it, or one with buckets, whose size is
-- the prime of its index; it holds the finite map, of `total` keys.
pub record Refines (cells : List (Option Entry)) (map : Hashmap) (f : List ℕ → Option (Option ℕ))
    (total : ℕ) : Type 0 where
  pub small : total ≤ length cells
  pub used : map.used ≡ total % 2 ^ 16
  pub state :
      ((map.size ≡ 0) × ((key : List ℕ) → f key ≡ none) × (total ≡ 0) × (map.idx < 71))
      ⊎ ((rows : ℕ → List Item) × Growing cells map rows [] f total
          × (get_elem? primes map.idx ≡ some map.size))

-- Keys and values, inserted in order while there is memory.
unfoldable pub insert_all :
    List (List ℕ × Option ℕ) → List (Option Entry) → Hashmap → Option Inserted
insert_all [] cells map = some (record { entry = none; cells = cells; map = map })
insert_all (kv ∷ kvs) cells map = do
  r ← hashmap_insert true true cells map kv.0 kv.1
  insert_all kvs r.cells r.map

Entered-Refines :
    (result : Option Inserted) (cells : List (Option Entry)) (size idx : ℕ)
    (f : List ℕ → Option (Option ℕ)) (total : ℕ)
    → total ≤ length cells
    → get_elem? primes idx ≡ some size
    → (e : Entered result cells size idx f (suc total))
    → Refines e.after.cells e.after.map f (suc total)
Entered-Refines result cells size idx f total small prime e = record {
  small = omega (arith, small, e.longer);
  used = omega (arith, e.growing.held.used, e.growing.shape.counted);
  state = inr (e.rows, e.growing, ap (get_elem? primes) e.idx_is ∙ prime ∙ ap some (sym e.size_is));
}

-- `hashmap_insert` with buckets that are just grown, and with room in the buckets.
module _ (cells : List (Option Entry)) (map : Hashmap) (key : List ℕ) (value : Option ℕ)
    (f : List ℕ → Option (Option ℕ)) (total : ℕ) (absent : f key ≡ none)
    (small : total ≤ length cells) where
  abbrev Bound : Type 0
  Bound =
      (r : Inserted) × (hashmap_insert true true cells map key value ≡ some r)
      × (r.entry ≡ some (length cells))
      × Refines r.cells r.map (bind key value f) (suc total)

  insert-grown :
      (size : ℕ)
      → leb map.size map.used ≡ true
      → get_elem? primes ((map.idx + 1) % 2 ^ 8) ≡ some size
      → Regrown cells map size f total
      → Bound
  unfolding hashmap_insert
  insert-grown size full prime g =
      let e = enter-Growing g.cells₂ g.map₂ g.rows f total key value absent g.growing in
      let index = ap (get_elem? primes) g.idx_is ∙ prime ∙ ap some (sym g.size_is) in
      (
        e.after,
        rw (full, g.runs) e.runs,
        e.entry_is ∙ ap some g.same,
        Entered-Refines (enter true g.cells₂ g.map₂ key value) g.cells₂ g.map₂.size g.map₂.idx
            (bind key value f) total (omega (arith, small, g.same)) index e,
      )

  insert-room :
      (rows : ℕ → List Item)
      → leb map.size map.used ≡ false
      → get_elem? primes map.idx ≡ some map.size
      → Growing cells map rows [] f total
      → Bound
  unfolding hashmap_insert
  insert-room rows room prime g =
      let e = enter-Growing cells map rows f total key value absent g in
      (
        e.after,
        rw room e.runs,
        e.entry_is,
        Entered-Refines (enter true cells map key value) cells map.size map.idx (bind key value f)
            total small prime e,
      )

-- When a map holds a finite map in which the key is not bound, and there is memory: hashmap_insert
-- always returns the entry, at a fresh address, and the map then holds the finite map with the key
-- bound to the value, also when its buckets first have to grow.
pub hashmap_insert-Refines :
    (cells : List (Option Entry)) (map : Hashmap) (key : List ℕ) (value : Option ℕ)
    (f : List ℕ → Option (Option ℕ)) (total : ℕ)
    → Refines cells map f total
    → f key ≡ none
    → (r : Inserted) × (hashmap_insert true true cells map key value ≡ some r)
      × (r.entry ≡ some (length cells))
      × Refines r.cells r.map (bind key value f) (suc total)
hashmap_insert-Refines cells map key value f total h absent = elim h.state [
  | inl fresh ↦
      let (empty, nothing, no_total, low) = fresh in
      let (q, prime, above) = next_prime map.idx low in
      insert-grown cells map key value f total absent h.small q (let z = empty in ground arith)
        prime (fresh-Regrown cells map q f total prime above h.small empty nothing no_total)
  | inr held ↦
      let (rows, g, prime) = held in
      elim (Bool-cases (leb map.size map.used)) [
        | inr room ↦ insert-room cells map key value f total absent h.small rows room prime g
        | inl full ↦
            let (q, next, above) =
              next_prime map.idx
                (prime-small map.idx map.size prime (let u = h.used in ground arith)) in
            insert-grown cells map key value f total absent h.small q full next
              (hashmap_grow-Regrown cells map q f total next above h.small rows g)
      ]
]

pub insert_all-Refines :
    (kvs : List (List ℕ × Option ℕ)) (cells : List (Option Entry)) (map : Hashmap)
    (f : List ℕ → Option (Option ℕ)) (total : ℕ)
    → Refines cells map f total
    → IsNew kvs f
    → (r : Inserted) × (insert_all kvs cells map ≡ some r)
      × Refines r.cells r.map (bind_all kvs f) (total + length kvs)
unfolding insert_all IsNew bind_all
insert_all-Refines [] cells map f total h new =
    let e : total ≡ total + 0 = omega arith in
    (record { entry = none; cells = cells; map = map }, refl, subst (Refines cells map f) e h)
insert_all-Refines (kv ∷ kvs) cells map f total h new =
    let (r, runs, at, next) = hashmap_insert-Refines cells map kv.0 kv.1 f total h new.0 in
    let (s, rest, final) =
      insert_all-Refines kvs r.cells r.map (bind kv.0 kv.1 f) (suc total) next new.1 in
    let e : suc total + length kvs ≡ total + suc (length kvs) = omega arith in
    (s, rw runs rest, subst (Refines s.cells s.map (bind_all kvs (bind kv.0 kv.1 f))) e final)

pub find-Refines :
    (cells : List (Option Entry)) (map : Hashmap) (f : List ℕ → Option (Option ℕ)) (total : ℕ)
    (key : List ℕ)
    → Refines cells map f total
    → 0 < total
    → hashmap_find cells (some map) key ≡ some (value_of (f key))
find-Refines cells map f total key h filled = elim h.state [
  | inl fresh ↦ absurd (let z = fresh.2 in omega (arith, z))
  | inr held ↦ let (rows, g, prime) = held in find-Growing cells map rows f total key h.small g
]
