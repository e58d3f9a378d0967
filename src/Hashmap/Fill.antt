-- ===== src/Hashmap/Fill.antt =====
-- hashmap/hashmap.c: what `hashmap_link` of a fresh entry leaves, and the items of its key.
use carrots.Base.{
  false-ne, ℕ, zero, suc, ◌+◌, ◌%◌, ◌^◌, ◌<◌, ◌≡◌, ◌≢◌, refl, ap, inl, inr, List, [], ◌∷◌, ◌++◌,
  Option, some, Bool, true, false, ◌==◌, ==_iff, ◌&&◌, length, get_elem?, set, length-set,
  length-append, set-middle, arith, Bool-cases,
}
use carrots.Hashmap.{
  Entry, Hashmap, entry_at, put_entry, hashcode_create, bucket_at, set_prev, same_bytes, new_entry,
  hashmap_link,
}
use carrots.Hashmap.Chain.{
  Item, item, Chain, Keeps, link, end, Chain-Keeps, Keeps-refl, Keeps-trans, Keeps-append,
  entry_at-fresh, Keeps-put_prev,
}
use carrots.Hashmap.Lookup.{first_value, Bucket, is_item_of}

-- The head of a chain gets a `prev`.
pub set_prev-Keeps :
    (cells : List (Option Entry)) (head at : Option ℕ) (items : List Item)
    → Chain cells head items
    → (cells₂ : List (Option Entry)) × (set_prev cells head at ≡ some cells₂)
      × Keeps cells cells₂
      × (length cells₂ ≡ length cells)
unfolding set_prev
set_prev-Keeps cells _ at _ end = (cells, refl, Keeps-refl cells, refl)
set_prev-Keeps cells _ at _ (link a e items found rest) = (
  put_entry cells a (record e { prev = at }),
  rw found refl,
  Keeps-put_prev cells a e at found,
  length-set cells a (some (record e { prev = at })),
)

put-fresh :
    (cells : List (Option Entry)) (e f : Entry)
    → put_entry (cells ++ some e ∷ []) (length cells) f ≡ cells ++ some f ∷ []
put-fresh cells e f = set-middle cells (some e) [] (some f)

kept-fresh :
    (cells : List (Option Entry)) (e : Entry) (cells₂ : List (Option Entry))
    → Keeps (cells ++ some e ∷ []) cells₂
    → (p : Option ℕ) × (entry_at cells₂ (length cells) ≡ some (record e { prev = p }))
unfolding Keeps
kept-fresh cells e cells₂ kept = kept (length cells) e (entry_at-fresh cells e)

-- What linking a fresh entry leaves.
pub record Linked (cells : List (Option Entry)) (map : Hashmap) (new : Entry)
    (heads : List (Option ℕ)) (i : ℕ) (head : Option ℕ) : Type 0 where
  pub cells₂ : List (Option Entry)
  pub runs :
      hashmap_link (cells ++ some new ∷ []) map (length cells)
      ≡ some (
        cells₂,
        record map {
          buckets = some (set heads i (some (length cells)));
          used = (map.used + 1) % 2 ^ 16;
        },
      )
  pub kept : Keeps cells cells₂
  pub longer : length cells₂ ≡ suc (length cells)
  pub prev : Option ℕ
  pub first : entry_at cells₂ (length cells) ≡ some (record new { next = head; prev = prev })

pub hashmap_link-fresh :
    (cells : List (Option Entry)) (map : Hashmap) (new : Entry) (heads : List (Option ℕ))
    (b : Bucket heads new.key map.size) (items : List Item)
    → map.buckets ≡ some heads
    → Chain cells b.head items
    → Linked cells map new heads b.index b.head
unfolding hashmap_link bucket_at
hashmap_link-fresh cells map new heads b items here chain =
    let n = length cells in
    let linked : Entry = record new { next = b.head } in
    let cells₁ = cells ++ some linked ∷ [] in
    let grown = Keeps-append cells (some linked) in
    let (cells₂, stores, kept, same) =
      set_prev-Keeps cells₁ b.head (some n) items
        (Chain-Keeps cells cells₁ b.head items grown chain) in
    let (prev, first) = kept-fresh cells linked cells₂ kept in
    record {
      cells₂ = cells₂;
      runs =
          rw (entry_at-fresh cells new, b.hashed, here, b.there, put-fresh cells new linked, stores)
            refl;
      kept = Keeps-trans cells cells₁ cells₂ grown kept;
      longer = omega (arith, same, length-append cells (some linked ∷ []));
      prev = prev;
      first = first;
    }

pub same_bytes_refl : (key : List ℕ) → same_bytes key key ≡ true
unfolding same_bytes
same_bytes_refl [] = refl
same_bytes_refl (c ∷ cs) = rw ((==_iff c c).1 refl) (same_bytes_refl cs)

pub same_bytes-same : (k l : List ℕ) → same_bytes k l ≡ true → k ≡ l
unfolding same_bytes
same_bytes-same [] [] h = refl
same_bytes-same [] (d ∷ ds) h = absurd (false-ne h)
same_bytes-same (c ∷ cs) [] h = absurd (false-ne h)
same_bytes-same (c ∷ cs) (d ∷ ds) h = elim (Bool-cases (c == d)) [
  | inr off ↦ absurd (false-ne (rw off at h))
  | inl on ↦ rw ((==_iff c d).0 on) (ap (◌∷◌ d) (same_bytes-same cs ds (rw on at h)))
]

-- The new entry is the first item of its key, and none of another key.
pub first_value-new :
    (key : List ℕ) (value : Option ℕ) (items : List Item)
    → first_value key (hashcode_create key) (item (new_entry key value) ∷ items) ≡ value
unfolding first_value
first_value-new key value items =
    rw
      (
        (==_iff (length key) (length key)).1 refl,
        (==_iff (hashcode_create key) (hashcode_create key)).1 refl,
        same_bytes_refl key,
      )
      refl

pub and-false : (a b : Bool) → (a && b && false) ≡ false
and-false true true = refl
and-false true false = refl
and-false false b = refl

pub first_value-other :
    (k key : List ℕ) (hc : ℕ) (value : Option ℕ) (items : List Item)
    → k ≢ key
    → first_value k hc (item (new_entry key value) ∷ items) ≡ first_value k hc items
unfolding first_value
first_value-other k key hc value items ne = elim (Bool-cases (same_bytes k key)) [
  | inl on ↦ absurd (ne (same_bytes-same k key on))
  | inr off ↦
      let other : is_item_of k hc (item (new_entry key value)) ≡ false =
        rw off (and-false (length k == length key) (hc == hashcode_create key)) in
      rw other refl
]

pub get_elem?-bound :
    (xs : List (Option ℕ)) (i : ℕ) (x : Option ℕ) → get_elem? xs i ≡ some x → i < length xs
get_elem?-bound [] i x h = absurd cc
get_elem?-bound (y ∷ xs) zero x h = omega arith
get_elem?-bound (y ∷ xs) (suc i) x h = omega (arith, get_elem?-bound xs i x h)

pub some-same : {x y : Option ℕ} → some x ≡ some y → x ≡ y
some-same e = cc
