-- ===== src/Hashmap/Relink.antt =====
-- hashmap/hashmap.c: `hashmap_link` of an entry that is already on the heap, as `hashmap_grow` calls it.
use carrots.Base.{
  ℕ, suc, ◌+◌, ◌%◌, ◌^◌, ◌<◌, ◌≡◌, ◌≢◌, refl, sym, ap, ◌∙◌, inl, inr, List, ◌∷◌, Option, some,
  false, ◌==◌, ==_iff, length, get_elem?, set, length-set, get_elem?-set_self, get_elem?-set_ne,
  arith, Bool-cases, subst,
}
use carrots.Hashmap.{
  Entry, Hashmap, entry_at, put_entry, bucket_at, hashcode_index, hashmap_link, set_prev,
}
use carrots.Hashmap.Chain.{
  Item, item, Chain, link, end, Keeps, entry_at-put_self, entry_at-put_ne, some-injective,
}
use carrots.Hashmap.Lookup.{get_elem?-some}
use carrots.Hashmap.Fill.{same_bytes_refl, set_prev-Keeps, get_elem?-bound, some-same}
use carrots.Hashmap.Rows.{slot, count, count-tail, push, gather}
use carrots.Hashmap.Shape.{slot-bound, length-gather}

-- Every bucket of the map has a chain with its row of items, and `used` counts them.
pub record Held (cells : List (Option Entry)) (map : Hashmap) (rows : ℕ → List Item) : Type 0 where
  pub heads : List (Option ℕ)
  pub buckets : map.buckets ≡ some heads
  pub sized : length heads ≡ map.size
  pub chains : (i : ℕ) (head : Option ℕ) → get_elem? heads i ≡ some head → Chain cells head (rows i)
  pub used : map.used ≡ length (gather map.size 0 rows) % 2 ^ 16

-- Every other entry of one heap is in the other, but for its `prev`.
unfoldable pub KeepsBut : ℕ → List (Option Entry) → List (Option Entry) → Type 0
KeepsBut a cells cells₂ =
    (b : ℕ) (e : Entry)
    → a ≢ b
    → entry_at cells b ≡ some e
    → (p : Option ℕ) × (entry_at cells₂ b ≡ some (record e { prev = p }))

-- A chain without the key of the entry that changes.
pub Chain-KeepsBut :
    (cells cells₂ : List (Option Entry)) (a : ℕ) (e : Entry) (head : Option ℕ) (items : List Item)
    → KeepsBut a cells cells₂
    → entry_at cells a ≡ some e
    → count e.key items ≡ 0
    → Chain cells head items
    → Chain cells₂ head items
unfolding KeepsBut count
Chain-KeepsBut cells cells₂ a e _ _ k at none_there end = end
Chain-KeepsBut cells cells₂ a e _ _ k at none_there (link b g items found rest) =
    elim (Bool-cases (a == b)) [
      | inl on ↦
          let f_is : e ≡ g =
            some-injective (sym at ∙ ap (entry_at cells) ((==_iff a b).0 on) ∙ found) in
          let one : suc (count e.key items) ≡ 0 = rw (f_is, same_bytes_refl g.key) at none_there in
          absurd (omega (arith, one))
      | inr off ↦
          let (p, kept) = k b g (ground arith) found in
          link b (record g { prev = p }) items kept
            (Chain-KeepsBut cells cells₂ a e g.next items k at
              (count-tail e.key (item g) items none_there) rest)
    ]

pub hashcode_index-slot :
    (key : List ℕ) (size : ℕ) → 0 < size → hashcode_index key size ≡ some (slot key size)
unfolding hashcode_index slot
hashcode_index-slot key size positive = let off : (size == 0) ≡ false = ground arith in rw off refl

-- The map with the entry at the head of its bucket.
abbrev pub linked_map : Hashmap → List (Option ℕ) → ℕ → ℕ → Hashmap
linked_map map heads s a = record map {
  buckets = some (set heads s (some a));
  used = (map.used + 1) % 2 ^ 16;
}

-- What linking the entry leaves.
pub record Relinked (cells : List (Option Entry)) (map : Hashmap) (rows : ℕ → List Item) (a : ℕ)
    (e : Entry) (heads : List (Option ℕ)) : Type 0 where
  pub cells₂ : List (Option Entry)
  pub runs : hashmap_link cells map a ≡ some (cells₂, linked_map map heads (slot e.key map.size) a)
  pub kept : KeepsBut a cells cells₂
  pub same : length cells₂ ≡ length cells
  pub held :
      Held cells₂
        (linked_map map heads (slot e.key map.size) a)
        (push (slot e.key map.size) (item e) rows)

-- An entry on the heap whose key is in no bucket.
module _ (cells : List (Option Entry)) (map : Hashmap) (rows : ℕ → List Item) (a : ℕ) (e : Entry)
    (h : Held cells map rows) (positive : 0 < map.size) (at : entry_at cells a ≡ some e)
    (nowhere : (i : ℕ) → count e.key (rows i) ≡ 0) where
  abbrev s : ℕ
  s = slot e.key map.size

  head_there : (head : Option ℕ) × (get_elem? h.heads s ≡ some head)
  head_there = get_elem?-some h.heads s (omega (arith, slot-bound e.key map.size positive, h.sized))

  abbrev head : Option ℕ
  head = head_there.0

  abbrev cells₁ : List (Option Entry)
  cells₁ = put_entry cells a (record e { next = head })

  put-KeepsBut : KeepsBut a cells cells₁
  unfolding KeepsBut
  put-KeepsBut b g ne found =
      (g.prev, entry_at-put_ne cells a b (record e { next = head }) ne ∙ found)

  stored :
      (cells₂ : List (Option Entry)) × (set_prev cells₁ head (some a) ≡ some cells₂)
      × Keeps cells₁ cells₂
      × (length cells₂ ≡ length cells₁)
  stored = set_prev-Keeps cells₁ head (some a) (rows s) (
      Chain-KeepsBut cells cells₁ a e head (rows s) put-KeepsBut at (nowhere s)
        (h.chains s head head_there.1))

  stored-KeepsBut : KeepsBut a cells stored.0
  unfolding KeepsBut Keeps
  stored-KeepsBut b g ne found =
      let (p, kept) = put-KeepsBut b g ne found in stored.2 b (record g { prev = p }) kept

  relinked-head : (p : Option ℕ) × (entry_at stored.0 a ≡ some (record e { next = head; prev = p }))
  unfolding Keeps
  relinked-head =
      stored.2 a (record e { next = head })
        (entry_at-put_self cells a e (record e { next = head }) at)

  -- The chain of another bucket, and that of the entry's own with the entry at its front.
  old-Chain : (i : ℕ) (g : Option ℕ) → get_elem? h.heads i ≡ some g → Chain stored.0 g (rows i)
  old-Chain i g there =
      Chain-KeepsBut cells stored.0 a e g (rows i) stored-KeepsBut at (nowhere i)
        (h.chains i g there)

  new-Chain : Chain stored.0 (some a) (item e ∷ rows s)
  new-Chain =
      let (p, found) = relinked-head in
      link a (record e { next = head; prev = p }) (rows s) found (old-Chain s head head_there.1)

  relinked-chains :
      (i : ℕ) (g : Option ℕ)
      → get_elem? (set h.heads s (some a)) i ≡ some g
      → Chain stored.0 g (push s (item e) rows i)
  unfolding push
  relinked-chains i g there = elim (Bool-cases (s == i)) [
    | inl on ↦
        let e_s : s ≡ i = (==_iff s i).0 on in
        let front : some a ≡ g = some-same (
          sym (get_elem?-set_self h.heads s (some a) (get_elem?-bound h.heads s head head_there.1))
          ∙ ap (get_elem? (set h.heads s (some a))) e_s
          ∙ there) in
        rw on (
          subst (λ j. Chain stored.0 g (item e ∷ rows j)) e_s
            (subst (λ q. Chain stored.0 q (item e ∷ rows s)) front new-Chain))
    | inr off ↦
        rw off (old-Chain i g (sym (get_elem?-set_ne h.heads (some a) (ground arith)) ∙ there))
  ]

  pub hashmap_link-Relinked : Relinked cells map rows a e h.heads
  unfolding hashmap_link bucket_at
  hashmap_link-Relinked = record {
    cells₂ = stored.0;
    runs =
        rw (at, hashcode_index-slot e.key map.size positive, h.buckets, head_there.1, stored.1)
          refl;
    kept = stored-KeepsBut;
    same = stored.3 ∙ length-set cells a (some (record e { next = head }));
    held = record {
      heads = set h.heads s (some a);
      buckets = refl;
      sized = length-set h.heads s (some a) ∙ h.sized;
      chains = relinked-chains;
      used = omega (
        arith,
        h.used,
        length-gather s (item e) rows map.size 0 (omega arith) (slot-bound e.key map.size positive),
      );
    };
  }
