-- ===== src/Hashmap/Refine.antt =====
-- hashmap/hashmap.c: the map as a finite map from keys to values, and `hashmap_insert` as its binding,
-- whether the buckets grow or not.
use carrots.Base.{
  ℕ, suc, ◌+◌, ◌≤◌, ◌<◌, ◌≡◌, refl, sym, ap, ◌∙◌, inl, inr, List, [], ◌∷◌, ◌++◌, Option, none, some,
  true, false, ◌==◌, ==_iff, if◌then◌else◌, length, length-append, arith, Bool-cases, All,
}
use carrots.Hashmap.{
  Entry, Hashmap, same_bytes, new_entry, Inserted, enter, hashmap_find, hashcode_create,
}
use carrots.Hashmap.Chain.{Item, item, Chain-Keeps, Keeps-append, entry_at-fresh}
use carrots.Hashmap.Lookup.{first_value, is_item_of, hashmap_find-first, get_elem?-some}
use carrots.Hashmap.Fill.{same_bytes_refl, same_bytes-same, and-false}
use carrots.Hashmap.Rows.{slot, count, lookup, IsProper, count-absent, push}
use carrots.Hashmap.Shape.{slot-bound, length-row, push-Shape, first-nowhere}
use carrots.Hashmap.Relink.{hashcode_index-slot, linked_map, hashmap_link-Relinked}
use carrots.Hashmap.Grow.{Growing}

-- The finite map with one more key.
unfoldable pub bind : List ℕ → Option ℕ → (List ℕ → Option (Option ℕ)) → List ℕ → Option (Option ℕ)
bind key value f k = if same_bytes k key then some value else f k

-- What a lookup returns: NULL for a key that is not bound.
unfoldable pub value_of : Option (Option ℕ) → Option ℕ
value_of none = none
value_of (some v) = v

first_value-lookup :
    (key : List ℕ) (items : List Item)
    → All IsProper items
    → first_value key (hashcode_create key) items ≡ value_of (lookup key items none)
unfolding first_value lookup value_of IsProper
first_value-lookup key [] all = refl
first_value-lookup key (i ∷ is) all = elim (Bool-cases (same_bytes key i.key)) [
  | inl on ↦
      let e : key ≡ i.key = same_bytes-same key i.key on in
      let long : (length key == i.key_len) ≡ true =
        (==_iff (length key) i.key_len).1 (ap length e ∙ sym all.0.0) in
      let hash : (hashcode_create key == i.hash_code) ≡ true =
        (==_iff (hashcode_create key) i.hash_code).1 (ap hashcode_create e ∙ sym all.0.1) in
      rw (long, hash, on) refl
  | inr off ↦
      let other : is_item_of key (hashcode_create key) i ≡ false =
        rw off (and-false (length key == i.key_len) (hashcode_create key == i.hash_code)) in
      rw (other, off) (first_value-lookup key is all.1)
]

-- hashmap_find reads the finite map.
pub find-Growing :
    (cells : List (Option Entry)) (map : Hashmap) (rows : ℕ → List Item)
    (f : List ℕ → Option (Option ℕ)) (total : ℕ) (key : List ℕ)
    → total ≤ length cells
    → Growing cells map rows [] f total
    → hashmap_find cells (some map) key ≡ some (value_of (f key))
unfolding lookup
find-Growing cells map rows f total key small g =
    let s = slot key map.size in
    let below : s < 0 + map.size = slot-bound key map.size g.shape.positive in
    let (head, there) = get_elem?-some g.held.heads s (omega (arith, below, g.held.sized)) in
    hashmap_find-first cells map key g.held.heads
      (record {
        index = s;
        head = head;
        hashed = hashcode_index-slot key map.size g.shape.positive;
        there = there;
      })
      (rows s) g.held.buckets (g.held.chains s head there)
      (omega (arith, small, length-row map.size total s rows [] f g.shape (omega (arith, below))))
    ∙ ap some (first_value-lookup key (rows s) (g.shape.proper s))
    ∙ ap (λ o. some (value_of o)) (g.shape.reads key)

-- A fresh entry behind the heap, not yet linked.
appended-Growing :
    (cells : List (Option Entry)) (map : Hashmap) (rows : ℕ → List Item)
    (f : List ℕ → Option (Option ℕ)) (total : ℕ) (key : List ℕ) (value : Option ℕ)
    → f key ≡ none
    → Growing cells map rows [] f total
    → Growing
        (cells ++ some (new_entry key value) ∷ [])
        map
        rows
        (item (new_entry key value) ∷ [])
        (bind key value f)
        (suc total)
unfolding bind lookup count IsProper
appended-Growing cells map rows f total key value absent g =
    let none_there : count key (rows (slot key map.size)) ≡ 0 =
      count-absent key (rows (slot key map.size)) none (g.shape.reads key ∙ absent) in
    record {
      held = record {
        heads = g.held.heads;
        buckets = g.held.buckets;
        sized = g.held.sized;
        chains = λ i head there.
            Chain-Keeps cells (cells ++ some (new_entry key value) ∷ []) head (rows i)
              (Keeps-append cells (some (new_entry key value))) (g.held.chains i head there);
        used = g.held.used;
      };
      shape = record {
        positive = g.shape.positive;
        proper_waiting = ((refl, refl), tt);
        proper = g.shape.proper;
        placed = g.shape.placed;
        single = λ k. elim (Bool-cases (same_bytes k key)) [
          | inl on ↦
              let e : k ≡ key = same_bytes-same k key on in
              rw (e, same_bytes_refl key) (omega (arith, none_there))
          | inr off ↦ rw off (g.shape.single k)
        ];
        reads = λ k. elim (Bool-cases (same_bytes k key)) [
          | inl on ↦ rw on refl
          | inr off ↦ rw off (g.shape.reads k)
        ];
        counted = omega (arith, g.shape.counted);
      };
    }

-- What an insertion leaves.
pub record Entered (result : Option Inserted) (cells : List (Option Entry)) (size idx : ℕ)
    (f : List ℕ → Option (Option ℕ)) (total : ℕ) : Type 0 where
  pub after : Inserted
  pub rows : ℕ → List Item
  pub runs : result ≡ some after
  pub entry_is : after.entry ≡ some (length cells)
  pub growing : Growing after.cells after.map rows [] f total
  pub longer : length after.cells ≡ suc (length cells)
  pub size_is : after.map.size ≡ size
  pub idx_is : after.map.idx ≡ idx

pub enter-Growing :
    (cells : List (Option Entry)) (map : Hashmap) (rows : ℕ → List Item)
    (f : List ℕ → Option (Option ℕ)) (total : ℕ) (key : List ℕ) (value : Option ℕ)
    → f key ≡ none
    → Growing cells map rows [] f total
    → Entered (enter true cells map key value) cells map.size map.idx (bind key value f) (suc total)
unfolding enter
enter-Growing cells map rows f total key value absent g =
    let new = new_entry key value in
    let cells₁ = cells ++ some new ∷ [] in
    let n = length cells in
    let a = appended-Growing cells map rows f total key value absent g in
    let nowhere =
      first-nowhere map.size rows (item new) [] (bind key value f) (suc total) a.shape in
    let l =
      hashmap_link-Relinked cells₁ map rows n new a.held a.shape.positive (entry_at-fresh cells new)
        nowhere in
    record {
      after = record {
        entry = some n;
        cells = l.cells₂;
        map = linked_map map a.held.heads (slot key map.size) n;
      };
      rows = push (slot key map.size) (item new) rows;
      runs = rw l.runs refl;
      entry_is = refl;
      growing = record {
        held = l.held;
        shape = push-Shape map.size rows (item new) [] (bind key value f) (suc total) a.shape;
      };
      longer = omega (arith, l.same, length-append cells (some new ∷ []));
      size_is = refl;
      idx_is = refl;
    }
