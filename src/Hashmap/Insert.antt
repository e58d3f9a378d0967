-- ===== src/Hashmap/Insert.antt =====
-- hashmap/hashmap.c: what `hashmap_link` and `hashmap_insert` do to the lookups.
use carrots.Base.{
  ℕ, ◌+◌, ◌%◌, ◌^◌, ◌≤◌, ◌<◌, ◌≡◌, ◌≢◌, refl, sym, ap, ◌∙◌, inl, inr, List, ◌∷◌, Option, some, true,
  false, leb, ◌==◌, ==_iff, length, get_elem?, set, length-set, get_elem?-set_self,
  get_elem?-set_ne, arith, Bool-cases, subst,
}
use carrots.Hashmap.{
  Entry, Hashmap, hashmap_find, hashcode_index, hashcode_create, new_entry, Inserted, enter,
  hashmap_insert,
}
use carrots.Hashmap.Chain.{Item, item, Chain, link, Chain-Keeps}
use carrots.Hashmap.Lookup.{IsSound, Bucket, bucket, hashmap_find-first}
use carrots.Hashmap.Fill.{
  Linked, hashmap_link-fresh, first_value-new, first_value-other, get_elem?-bound, some-same,
}

-- A sound map with room, the bucket of a key in it, and what linking an entry of the key leaves.
module _ (cells : List (Option Entry)) (map : Hashmap) (key : List ℕ) (value : Option ℕ)
    (s : IsSound cells map) (room : map.used < map.size) where
  abbrev here : Bucket s.heads key map.size
  here = bucket s.heads key map.size s.positive s.sized

  linked : Linked cells map (new_entry key value) s.heads here.index here.head
  linked =
      let (items, chain, short) = s.chains here.index here.head here.there in
      hashmap_link-fresh cells map (new_entry key value) s.heads here items s.buckets chain

  abbrev inserted : Inserted
  inserted = record {
    entry = some (length cells);
    cells = linked.cells₂;
    map = record map {
      buckets = some (set s.heads here.index (some (length cells)));
      used = (map.used + 1) % 2 ^ 16;
    };
  }

  hashmap_insert-inserted : hashmap_insert true true cells map key value ≡ some inserted
  unfolding hashmap_insert enter
  hashmap_insert-inserted =
      let small : leb map.size map.used ≡ false = ground arith in rw (small, linked.runs) refl

  -- The chain of the key's bucket, with the new item at its front.
  new-Chain :
      (items : List Item)
      → Chain cells here.head items
      → Chain linked.cells₂ (some (length cells)) (item (new_entry key value) ∷ items)
  new-Chain items chain =
      link (length cells) (record (new_entry key value) { next = here.head; prev = linked.prev })
        items linked.first (Chain-Keeps cells linked.cells₂ here.head items linked.kept chain)

  new_there :
      get_elem? (set s.heads here.index (some (length cells))) here.index
      ≡ some (some (length cells))
  new_there =
      get_elem?-set_self s.heads here.index (some (length cells))
        (get_elem?-bound s.heads here.index here.head here.there)

  new_chains :
      (i : ℕ) (head : Option ℕ)
      → get_elem? (set s.heads here.index (some (length cells))) i ≡ some head
      → (items : List Item) × Chain linked.cells₂ head items × (length items ≤ length linked.cells₂)
  new_chains i head there = elim (Bool-cases (here.index == i)) [
    | inl on ↦
        let at : here.index ≡ i = (==_iff here.index i).0 on in
        let (items, chain, short) = s.chains here.index here.head here.there in
        let front : some (length cells) ≡ head = some-same (
          sym new_there
          ∙ ap (get_elem? (set s.heads here.index (some (length cells)))) at
          ∙ there) in
        (
          item (new_entry key value) ∷ items,
          subst (λ h. Chain linked.cells₂ h (item (new_entry key value) ∷ items)) front
              (new-Chain items chain),
          omega (arith, short, linked.longer),
        )
    | inr off ↦
        let old : get_elem? s.heads i ≡ some head =
          sym (get_elem?-set_ne s.heads (some (length cells)) (ground arith)) ∙ there in
        let (items, chain, short) = s.chains i head old in
        (
          items,
          Chain-Keeps cells linked.cells₂ head items linked.kept chain,
          omega (arith, short, linked.longer),
        )
  ]

  inserted-IsSound : IsSound inserted.cells inserted.map
  inserted-IsSound = record {
    heads = set s.heads here.index (some (length cells));
    buckets = refl;
    positive = s.positive;
    sized = length-set s.heads here.index (some (length cells)) ∙ s.sized;
    chains = new_chains;
  }

  find-inserted : hashmap_find inserted.cells (some inserted.map) key ≡ some value
  find-inserted =
      let (items, chain, short) = s.chains here.index here.head here.there in
      hashmap_find-first inserted.cells inserted.map key
        (set s.heads here.index (some (length cells)))
        (record {
          index = here.index;
          head = some (length cells);
          hashed = here.hashed;
          there = new_there;
        })
        (item (new_entry key value) ∷ items) refl (new-Chain items chain)
        (omega (arith, short, linked.longer))
      ∙ ap some (first_value-new key value items)

  find-other :
      (k : List ℕ)
      → k ≢ key
      → hashmap_find inserted.cells (some inserted.map) k ≡ hashmap_find cells (some map) k
  find-other k ne =
      let b = bucket s.heads k map.size s.positive s.sized in
      let (items, chain, short) = s.chains b.index b.head b.there in
      let before = hashmap_find-first cells map k s.heads b items s.buckets chain short in
      elim (Bool-cases (here.index == b.index)) [
        | inl on ↦
            let hashed : hashcode_index k map.size ≡ some here.index =
              b.hashed ∙ ap some (sym ((==_iff here.index b.index).0 on)) in
            let (olds, run, few) = s.chains here.index here.head here.there in
            hashmap_find-first inserted.cells inserted.map k
              (set s.heads here.index (some (length cells)))
              (record {
                index = here.index;
                head = some (length cells);
                hashed = hashed;
                there = new_there;
              })
              (item (new_entry key value) ∷ olds) refl (new-Chain olds run)
              (omega (arith, few, linked.longer))
            ∙ ap some (first_value-other k key (hashcode_create k) value olds ne)
            ∙ sym (
                hashmap_find-first cells map k s.heads
                  (record {
                    index = here.index;
                    head = here.head;
                    hashed = hashed;
                    there = here.there;
                  })
                  olds s.buckets run few)
        | inr off ↦
            hashmap_find-first inserted.cells inserted.map k
              (set s.heads here.index (some (length cells)))
              (record {
                index = b.index;
                head = b.head;
                hashed = b.hashed;
                there = get_elem?-set_ne s.heads (some (length cells)) (ground arith) ∙ b.there;
              })
              items refl (Chain-Keeps cells linked.cells₂ b.head items linked.kept chain)
              (omega (arith, short, linked.longer))
            ∙ sym before
      ]

-- hashmap_insert into a sound map with room, when there is memory, always returns the entry, at a
-- fresh address; the map is sound again, hashmap_find of the key gives the new value, also when
-- the key was there before, and used has grown by one modulo 2 ^ 16.
pub hashmap_insert-found :
    (cells : List (Option Entry)) (map : Hashmap) (key : List ℕ) (value : Option ℕ)
    → IsSound cells map
    → map.used < map.size
    → (r : Inserted) × (hashmap_insert true true cells map key value ≡ some r)
      × (r.entry ≡ some (length cells))
      × IsSound r.cells r.map
      × (hashmap_find r.cells (some r.map) key ≡ some value)
      × (r.map.used ≡ (map.used + 1) % 2 ^ 16)
hashmap_insert-found cells map key value s room = (
  inserted cells map key value s room,
  hashmap_insert-inserted cells map key value s room,
  refl,
  inserted-IsSound cells map key value s room,
  find-inserted cells map key value s room,
  refl,
)

-- hashmap_insert into a sound map with room, when there is memory, leaves the result of
-- hashmap_find for every other key as it was.
pub hashmap_insert-other :
    (cells : List (Option Entry)) (map : Hashmap) (key k : List ℕ) (value : Option ℕ)
    → IsSound cells map
    → map.used < map.size
    → k ≢ key
    → (r : Inserted) × (hashmap_insert true true cells map key value ≡ some r)
      × (hashmap_find r.cells (some r.map) k ≡ hashmap_find cells (some map) k)
hashmap_insert-other cells map key k value s room ne = (
  inserted cells map key value s room,
  hashmap_insert-inserted cells map key value s room,
  find-other cells map key value s room k ne,
)
