-- ===== src/Hashmap/Chain.antt =====
-- hashmap/hashmap.c: the chain of a bucket, and heaps that keep it.
use carrots.Base.{
  ℕ, zero, suc, ◌≡◌, ◌≢◌, refl, sym, ap, ◌∙◌, inl, inr, List, [], ◌∷◌, ◌++◌, Option, none, some,
  length, get_elem?-set_ne, arith, Bool-cases, ◌==◌, ==_iff,
}
use carrots.Hashmap.{Entry, entry_at, put_entry}

-- What of an entry the lookups read.
pub record Item : Type 0 where
  pub key : List ℕ
  pub key_len : ℕ
  pub hash_code : ℕ
  pub value : Option ℕ

abbrev pub item : Entry → Item
item e = record { key = e.key; key_len = e.key_len; hash_code = e.hash_code; value = e.value }

-- From an address the `next` pointers run through these items to NULL.
pub data Chain (cells : List (Option Entry)) : Option ℕ → List Item → Type 0 where
  end : Chain cells none []
  link :
      (a : ℕ) (e : Entry) (items : List Item)
      → entry_at cells a ≡ some e
      → Chain cells e.next items
      → Chain cells (some a) (item e ∷ items)

-- Every entry of one heap is in the other, but for its `prev`.
unfoldable pub Keeps : List (Option Entry) → List (Option Entry) → Type 0
Keeps cells cells₂ =
    (a : ℕ) (e : Entry)
    → entry_at cells a ≡ some e
    → (p : Option ℕ) × (entry_at cells₂ a ≡ some (record e { prev = p }))

pub Chain-Keeps :
    (cells cells₂ : List (Option Entry)) (head : Option ℕ) (items : List Item)
    → Keeps cells cells₂
    → Chain cells head items
    → Chain cells₂ head items
unfolding Keeps
Chain-Keeps cells cells₂ _ _ k end = end
Chain-Keeps cells cells₂ _ _ k (link a e items found rest) =
    let (p, kept) = k a e found in
    link a (record e { prev = p }) items kept (Chain-Keeps cells cells₂ e.next items k rest)

pub Keeps-refl : (cells : List (Option Entry)) → Keeps cells cells
unfolding Keeps
Keeps-refl cells a e found = (e.prev, found)

pub Keeps-trans : (xs ys zs : List (Option Entry)) → Keeps xs ys → Keeps ys zs → Keeps xs zs
unfolding Keeps
Keeps-trans xs ys zs f g a e found = let (p, kept) = f a e found in g a (record e { prev = p }) kept

-- A fresh cell behind the heap.
entry_at-append :
    (cells : List (Option Entry)) (c : Option Entry) (a : ℕ) (e : Entry)
    → entry_at cells a ≡ some e
    → entry_at (cells ++ c ∷ []) a ≡ some e
unfolding entry_at
entry_at-append [] c a e found = absurd cc
entry_at-append (x ∷ xs) c zero e found = found
entry_at-append (x ∷ xs) c (suc a) e found = entry_at-append xs c a e found

pub Keeps-append : (cells : List (Option Entry)) (c : Option Entry) → Keeps cells (cells ++ c ∷ [])
unfolding Keeps
Keeps-append cells c a e found = (e.prev, entry_at-append cells c a e found)

pub entry_at-fresh :
    (cells : List (Option Entry)) (e : Entry)
    → entry_at (cells ++ some e ∷ []) (length cells) ≡ some e
unfolding entry_at
entry_at-fresh [] e = refl
entry_at-fresh (x ∷ xs) e = entry_at-fresh xs e

pub entry_at-put_self :
    (cells : List (Option Entry)) (a : ℕ) (e f : Entry)
    → entry_at cells a ≡ some e
    → entry_at (put_entry cells a f) a ≡ some f
unfolding entry_at
entry_at-put_self [] a e f found = absurd cc
entry_at-put_self (x ∷ xs) zero e f found = refl
entry_at-put_self (x ∷ xs) (suc a) e f found = entry_at-put_self xs a e f found

pub entry_at-put_ne :
    (cells : List (Option Entry)) (a b : ℕ) (f : Entry)
    → a ≢ b
    → entry_at (put_entry cells a f) b ≡ entry_at cells b
unfolding entry_at
entry_at-put_ne cells a b f ne = rw (get_elem?-set_ne cells (some f) ne, entry_at) refl

pub some-injective : {x y : Entry} → some x ≡ some y → x ≡ y
some-injective e = cc

-- A store to a `prev` field.
pub Keeps-put_prev :
    (cells : List (Option Entry)) (a : ℕ) (e : Entry) (p : Option ℕ)
    → entry_at cells a ≡ some e
    → Keeps cells (put_entry cells a (record e { prev = p }))
unfolding Keeps
Keeps-put_prev cells a e p found b f there = elim (Bool-cases (a == b)) [
  | inl here ↦
      let same : a ≡ b = (==_iff a b).0 here in
      let f_is : e ≡ f = some-injective (sym found ∙ ap (entry_at cells) same ∙ there) in
      (
        p,
        ap (entry_at (put_entry cells a (record e { prev = p }))) (sym same)
            ∙ entry_at-put_self cells a e (record e { prev = p }) found
            ∙ ap (λ (x : Entry). some (record x { prev = p })) f_is,
      )
  | inr off ↦ (f.prev, entry_at-put_ne cells a b (record e { prev = p }) (ground arith) ∙ there)
]
