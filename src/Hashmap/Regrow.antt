-- ===== src/Hashmap/Regrow.antt =====
-- hashmap/hashmap.c: `hashmap_grow` as a whole, of a map with buckets and of a new one.
use carrots.Base.{
  ℕ, zero, suc, ◌+◌, ◌≤◌, ◌<◌, ◌≡◌, refl, sym, ap, List, [], ◌∷◌, Option, none, some, length,
  get_elem?, arith, subst, replicate, length-replicate, true, ◌%◌, ◌^◌,
}
use carrots.Hashmap.{Entry, Hashmap, hashmap_grow, hashmap_size, old_buckets, primes}
use carrots.Hashmap.Chain.{Item, Chain, end}
use carrots.Hashmap.Rows.{count, gather, lookup, Placed}
use carrots.Hashmap.Shape.{Shape, gather-Shape, gather-nil}
use carrots.Hashmap.Grow.{Tails, none_left, Tails-chains, Growing, grow_buckets-moves, none_left}

old_buckets-all :
    (heads : List (Option ℕ)) (n : ℕ) → length heads ≡ n → old_buckets (some heads) n ≡ some heads
unfolding old_buckets
old_buckets-all [] zero h = refl
old_buckets-all [] (suc n) h = absurd (omega (arith, h))
old_buckets-all (x ∷ xs) zero h = absurd (omega (arith, h))
old_buckets-all (x ∷ xs) (suc n) h = rw (old_buckets-all xs n (omega (arith, h))) refl

some-inj : {x y : Option ℕ} → some x ≡ some y → x ≡ y
some-inj e = cc

replicate-none :
    (n i : ℕ) (head : Option ℕ) → get_elem? (replicate n none) i ≡ some head → none ≡ head
replicate-none zero i head h = absurd cc
replicate-none (suc n) zero head h = some-inj h
replicate-none (suc n) (suc i) head h = replicate-none n i head h

-- The map of `hashmap_size`.
abbrev pub sized_map : Hashmap → ℕ → Hashmap
sized_map map size = record map {
  idx = (map.idx + 1) % 2 ^ 8;
  buckets = some (replicate size none);
  size = size;
  used = 0;
}

sized-Growing :
    (cells : List (Option Entry)) (map : Hashmap) (size : ℕ) (waiting : List Item)
    (f : List ℕ → Option (Option ℕ)) (total : ℕ)
    → Shape size (λ i. []) waiting f total
    → Growing cells (sized_map map size) (λ i. []) waiting f total
sized-Growing cells map size waiting f total h = record {
  held = record {
    heads = replicate size none;
    buckets = refl;
    sized = length-replicate size none;
    chains = λ i head there. rw (sym (replicate-none size i head there)) end;
    used = let e = ap (length {A = Item}) (gather-nil size 0) in omega (arith, e);
  };
  shape = h;
}

-- What `hashmap_grow` leaves.
pub record Regrown (cells : List (Option Entry)) (map : Hashmap) (size : ℕ)
    (f : List ℕ → Option (Option ℕ)) (total : ℕ) : Type 0 where
  pub cells₂ : List (Option Entry)
  pub map₂ : Hashmap
  pub rows : ℕ → List Item
  pub runs : hashmap_grow true cells map ≡ some (record { done = true; cells = cells₂; map = map₂ })
  pub growing : Growing cells₂ map₂ rows [] f total
  pub same : length cells₂ ≡ length cells
  pub size_is : map₂.size ≡ size
  pub idx_is : map₂.idx ≡ (map.idx + 1) % 2 ^ 8

module _ (cells : List (Option Entry)) (map : Hashmap) (size : ℕ) (f : List ℕ → Option (Option ℕ))
    (total : ℕ) (prime : get_elem? primes ((map.idx + 1) % 2 ^ 8) ≡ some size) (above : 0 < size)
    (small : total ≤ length cells) where
  regrown :
      (heads : List (Option ℕ)) (old : ℕ → List Item)
      → old_buckets map.buckets map.size ≡ some heads
      → Tails cells old heads 0
      → Shape size (λ i. []) (gather (length heads) 0 old) f total
      → Regrown cells map size f total
  unfolding hashmap_grow hashmap_size gather
  regrown heads old olds tails shape =
      let m =
        grow_buckets-moves old f total heads 0 cells (sized_map map size) (λ i. []) small tails
          (sized-Growing cells map size (gather (length heads) 0 old) f total shape) in
      record {
        cells₂ = m.cells₂;
        map₂ = m.map₂;
        rows = m.rows;
        runs = rw (prime, olds, m.runs) refl;
        growing = m.growing;
        same = m.same;
        size_is = m.size;
        idx_is = m.idx;
      }

  pub hashmap_grow-Regrown :
      (rows : ℕ → List Item) → Growing cells map rows [] f total → Regrown cells map size f total
  hashmap_grow-Regrown rows g =
      let n = g.held.sized in
      regrown g.held.heads rows (rw g.held.buckets (old_buckets-all g.held.heads map.size n))
        (Tails-chains cells rows g.held.heads 0 (λ j h there.
          let e : j ≡ 0 + j = omega arith in
          subst (λ k. Chain cells h (rows k)) e (g.held.chains j h there)))
        (rw n (gather-Shape map.size size total rows f above g.shape))

  -- A map of `hashmap_create`.
  pub fresh-Regrown :
      map.size ≡ 0 → ((key : List ℕ) → f key ≡ none) → total ≡ 0 → Regrown cells map size f total
  unfolding old_buckets Placed count lookup gather
  fresh-Regrown empty nothing zero_total =
      regrown [] (λ i. []) (rw empty refl) (none_left 0)
        (record {
          positive = above;
          proper_waiting = tt;
          proper = λ i. tt;
          placed = λ i. tt;
          single = λ key. omega arith;
          reads = λ key. sym (nothing key);
          counted =
              let e = ap (length {A = Item}) (gather-nil size 0) in omega (arith, e, zero_total);
        })
