-- ===== src/Hashmap/Shape.antt =====
-- hashmap/hashmap.c: what the buckets and the items still to be linked hold together, and what linking
-- one item changes.
use carrots.Base.{
  ℕ, zero, suc, ◌+◌, ◌≤◌, ◌<◌, ◌≡◌, ◌≢◌, refl, sym, ap, ◌∙◌, inl, inr, List, [], ◌∷◌, ◌++◌, Option,
  none, some, true, false, ◌==◌, ==_iff, length, length-append, arith, Bool-cases, All, All-append,
  subst,
}
use carrots.Hashmap.{same_bytes}
use carrots.Hashmap.Chain.{Item}
use carrots.Hashmap.Fill.{same_bytes_refl, same_bytes-same}
use carrots.Hashmap.Rows.{
  slot, count, lookup, IsProper, push, gather, Placed, lookup-absent, count-elsewhere, count-gather,
  lookup-gather,
}

-- Buckets of a size and items still to be linked: each key once, in the bucket it hashes to, with the
-- values of a finite map.
pub record Shape (size : ℕ) (rows : ℕ → List Item) (waiting : List Item)
    (f : List ℕ → Option (Option ℕ)) (total : ℕ) : Type 0 where
  pub positive : 0 < size
  pub proper_waiting : All IsProper waiting
  pub proper : (i : ℕ) → All IsProper (rows i)
  pub placed : Placed size rows
  pub single : (key : List ℕ) → count key waiting + count key (rows (slot key size)) ≤ 1
  pub reads : (key : List ℕ) → lookup key waiting (lookup key (rows (slot key size)) none) ≡ f key
  pub counted : length waiting + length (gather size 0 rows) ≡ total

pub slot-bound : (key : List ℕ) (size : ℕ) → 0 < size → slot key size < 0 + size
unfolding slot
slot-bound key size positive = grind arith

-- A key is in no other bucket than its own.
pub count-others :
    (size : ℕ) (rows : ℕ → List Item) (key : List ℕ) (i : ℕ)
    → Placed size rows
    → slot key size ≢ i
    → count key (rows i) ≡ 0
unfolding Placed
count-others size rows key i placed ne = count-elsewhere key size i (rows i) (placed i) ne

pub push_self : (s : ℕ) (x : Item) (rows : ℕ → List Item) → push s x rows s ≡ x ∷ rows s
unfolding push
push_self s x rows = rw ((==_iff s s).1 refl) refl

push-All :
    (P : Item → ℕ → Type 0) (s : ℕ) (x : Item) (rows : ℕ → List Item)
    → P x s
    → ((i : ℕ) → All (λ y. P y i) (rows i))
    → (i : ℕ) → All (λ y. P y i) (push s x rows i)
unfolding push
push-All P s x rows new old i = elim (Bool-cases (s == i)) [
  | inl on ↦ rw on (subst (λ j. All (λ y. P y j) (x ∷ rows j)) ((==_iff s i).0 on) (new, old s))
  | inr off ↦ rw off (old i)
]

length-gather_off :
    (s : ℕ) (x : Item) (rows : ℕ → List Item) (n i : ℕ)
    → s < i
    → gather n i (push s x rows) ≡ gather n i rows
unfolding gather push
length-gather_off s x rows zero i h = refl
length-gather_off s x rows (suc n) i h =
    let off : (s == i) ≡ false = ground arith in
    rw off (ap (◌++◌ (rows i)) (length-gather_off s x rows n (suc i) (omega arith)))

pub length-gather :
    (s : ℕ) (x : Item) (rows : ℕ → List Item) (n i : ℕ)
    → i ≤ s
    → s < i + n
    → length (gather n i (push s x rows)) ≡ suc (length (gather n i rows))
unfolding gather push
length-gather s x rows zero i low high = absurd (omega arith)
length-gather s x rows (suc n) i low high = elim (Bool-cases (s == i)) [
  | inl on ↦
      rw on
        (ap (λ r. suc (length (rows i ++ r))) (length-gather_off s x rows n (suc i) (ground arith)))
  | inr off ↦ rw off (
      omega (
        arith,
        length-append (rows i) (gather n (suc i) (push s x rows)),
        length-append (rows i) (gather n (suc i) rows),
        length-gather s x rows n (suc i) (ground arith) (omega arith),
      ))
]

-- What linking the first of the waiting items changes.
module _ (size : ℕ) (rows : ℕ → List Item) (x : Item) (waiting : List Item)
    (f : List ℕ → Option (Option ℕ)) (total : ℕ) (h : Shape size rows (x ∷ waiting) f total) where
  abbrev s : ℕ
  s = slot x.key size

  own : same_bytes x.key x.key ≡ true
  own = same_bytes_refl x.key

  pub first-alone : (count x.key waiting ≡ 0) × (count x.key (rows s) ≡ 0)
  unfolding count
  first-alone =
      let one : count x.key (x ∷ waiting) + count x.key (rows s) ≤ 1 = h.single x.key in
      let two : suc (count x.key waiting) + count x.key (rows s) ≤ 1 = rw own at one in
      (omega (arith, two), omega (arith, two))

  pub first-nowhere : (i : ℕ) → count x.key (rows i) ≡ 0
  first-nowhere i = elim (Bool-cases (s == i)) [
    | inl on ↦ rw (sym ((==_iff s i).0 on)) first-alone.1
    | inr off ↦ count-others size rows x.key i h.placed (ground arith)
  ]

  single_after : (key : List ℕ) → count key waiting + count key (push s x rows (slot key size)) ≤ 1
  unfolding count push
  single_after key =
      let before : count key (x ∷ waiting) + count key (rows (slot key size)) ≤ 1 = h.single key in
      elim (Bool-cases (same_bytes key x.key)) [
        | inl on ↦
            let e : key ≡ x.key = same_bytes-same key x.key on in
            rw (e, (==_iff s s).1 refl, own) (omega (arith, first-alone.0, first-alone.1))
        | inr off ↦
            let b : count key waiting + count key (rows (slot key size)) ≤ 1 = rw off at before in
            elim (Bool-cases (s == slot key size)) [
              | inl here ↦ rw (here, off) b
              | inr there ↦ rw there b
            ]
      ]

  reads_after :
      (key : List ℕ) → lookup key waiting (lookup key (push s x rows (slot key size)) none) ≡ f key
  unfolding lookup push
  reads_after key =
      let before : lookup key (x ∷ waiting) (lookup key (rows (slot key size)) none) ≡ f key =
        h.reads key in
      elim (Bool-cases (same_bytes key x.key)) [
        | inl on ↦
            let e : key ≡ x.key = same_bytes-same key x.key on in
            let known : some x.value ≡ f key = rw on at before in
            rw (e, (==_iff s s).1 refl, own)
              (lookup-absent x.key waiting (some x.value) first-alone.0)
            ∙ known
        | inr off ↦
            let b : lookup key waiting (lookup key (rows (slot key size)) none) ≡ f key =
              rw off at before in
            elim (Bool-cases (s == slot key size)) [
              | inl here ↦ rw (here, off) b
              | inr there ↦ rw there b
            ]
      ]

  pub push-Shape : Shape size (push s x rows) waiting f total
  unfolding Placed
  push-Shape = record {
    positive = h.positive;
    proper_waiting = h.proper_waiting.1;
    proper = push-All (λ y i. IsProper y) s x rows h.proper_waiting.0 h.proper;
    placed = push-All (λ y i. slot y.key size ≡ i) s x rows refl h.placed;
    single = single_after;
    reads = reads_after;
    counted = omega (
      arith,
      h.counted,
      length-gather s x rows size 0 (omega arith) (slot-bound x.key size h.positive),
    );
  }

gather-All :
    (P : Item → Type 0) (rows : ℕ → List Item) (n i : ℕ)
    → ((j : ℕ) → All P (rows j))
    → All P (gather n i rows)
unfolding gather
gather-All P rows zero i all = tt
gather-All P rows (suc n) i all =
    All-append P (rows i) (gather n (suc i) rows) (all i) (gather-All P rows n (suc i) all)

pub gather-nil : (n i : ℕ) → gather n i (λ j. []) ≡ []
unfolding gather
gather-nil zero i = refl
gather-nil (suc n) i = gather-nil n (suc i)

-- The buckets of the next size are empty, and all items wait.
pub gather-Shape :
    (size next total : ℕ) (rows : ℕ → List Item) (f : List ℕ → Option (Option ℕ))
    → 0 < next
    → Shape size rows [] f total
    → Shape next (λ i. []) (gather size 0 rows) f total
unfolding count lookup Placed
gather-Shape size next total rows f above h = record {
  positive = above;
  proper_waiting = gather-All IsProper rows size 0 h.proper;
  proper = λ i. tt;
  placed = λ i. tt;
  single = λ key.
      let c =
        count-gather key rows (slot key size) (λ i ne. count-others size rows key i h.placed ne)
          size 0 (omega arith) (slot-bound key size h.positive) in
      omega (arith, c, h.single key);
  reads = λ key.
      lookup-gather key rows (slot key size) (λ i ne. count-others size rows key i h.placed ne) size
        0 (omega arith) (slot-bound key size h.positive)
      ∙ h.reads key;
  counted = omega (arith, h.counted, ap (length {A = Item}) (gather-nil next 0));
}

length-gather_row :
    (rows : ℕ → List Item) (n i j : ℕ)
    → i ≤ j
    → j < i + n
    → length (rows j) ≤ length (gather n i rows)
unfolding gather
length-gather_row rows zero i j low high = absurd (omega arith)
length-gather_row rows (suc n) i j low high =
    let split = length-append (rows i) (gather n (suc i) rows) in
    elim (Bool-cases (i == j)) [
      | inl on ↦ rw (sym ((==_iff i j).0 on)) (omega (arith, split))
      | inr off ↦
          omega (arith, split, length-gather_row rows n (suc i) j (ground arith) (omega arith))
    ]

-- A bucket has no more items than the map.
pub length-row :
    (size total i : ℕ) (rows : ℕ → List Item) (waiting : List Item) (f : List ℕ → Option (Option ℕ))
    → Shape size rows waiting f total
    → i < size
    → length (rows i) ≤ total
length-row size total i rows waiting f h below =
    omega (arith, h.counted, length-gather_row rows size 0 i (omega arith) (omega arith))
