-- ===== src/Hashmap/Grow.antt =====
-- hashmap/hashmap.c: `hashmap_grow` moves every entry to its bucket of the next size.
use carrots.Base.{
  ℕ, zero, suc, ◌+◌, ◌≤◌, ◌≡◌, refl, ◌∙◌, List, [], ◌∷◌, ◌++◌, Option, some, length, length-append,
  get_elem?, arith, subst,
}
use carrots.Hashmap.{Entry, Hashmap, entry_at, grow_chain, grow_buckets}
use carrots.Hashmap.Chain.{Item, item, Chain, link, end}
use carrots.Hashmap.Rows.{count, gather, count-append, slot, push}
use carrots.Hashmap.Shape.{Shape, first-alone, first-nowhere, push-Shape}
use carrots.Hashmap.Relink.{Held, KeepsBut, Chain-KeepsBut, linked_map, hashmap_link-Relinked}

-- The old buckets from one on, each with the chain of its row.
pub data Tails (cells : List (Option Entry)) (old : ℕ → List Item)
    : List (Option ℕ) → ℕ → Type 0 where
  none_left : (i : ℕ) → Tails cells old [] i
  more :
      (h : Option ℕ) (hs : List (Option ℕ)) (i : ℕ)
      → Chain cells h (old i)
      → Tails cells old hs (suc i)
      → Tails cells old (h ∷ hs) i

pub Tails-chains :
    (cells : List (Option Entry)) (old : ℕ → List Item) (hs : List (Option ℕ)) (i : ℕ)
    → ((j : ℕ) (h : Option ℕ) → get_elem? hs j ≡ some h → Chain cells h (old (i + j)))
    → Tails cells old hs i
Tails-chains cells old [] i chains = none_left i
Tails-chains cells old (h ∷ hs) i chains =
    let here : i + 0 ≡ i = omega arith in
    more h hs i (subst (λ j. Chain cells h (old j)) here (chains 0 h refl)) (
      Tails-chains cells old hs (suc i) (λ j g there.
        let next : i + suc j ≡ suc i + j = omega arith in
        subst (λ n. Chain cells g (old n)) next (chains (suc j) g there)))

Tails-KeepsBut :
    (cells cells₂ : List (Option Entry)) (old : ℕ → List Item) (a : ℕ) (e : Entry)
    (hs : List (Option ℕ)) (i : ℕ)
    → KeepsBut a cells cells₂
    → entry_at cells a ≡ some e
    → count e.key (gather (length hs) i old) ≡ 0
    → Tails cells old hs i
    → Tails cells₂ old hs i
unfolding gather
Tails-KeepsBut cells cells₂ old a e _ _ k at none_there (none_left i) = none_left i
Tails-KeepsBut cells cells₂ old a e _ _ k at none_there (more h hs i chain rest) =
    let split = count-append e.key (old i) (gather (length hs) (suc i) old) in
    more h hs i
      (Chain-KeepsBut cells cells₂ a e h (old i) k at (omega (arith, split, none_there)) chain)
      (Tails-KeepsBut cells cells₂ old a e hs (suc i) k at (omega (arith, split, none_there)) rest)

-- Buckets of a map, and items that wait.
pub record Growing (cells : List (Option Entry)) (map : Hashmap) (rows : ℕ → List Item)
    (waiting : List Item) (f : List ℕ → Option (Option ℕ)) (total : ℕ) : Type 0 where
  pub held : Held cells map rows
  pub shape : Shape map.size rows waiting f total

-- What the loops of `hashmap_grow` leave.
pub record Moved (result : Option (List (Option Entry) × Hashmap)) (cells : List (Option Entry))
    (map : Hashmap) (hs : List (Option ℕ)) (i : ℕ) (old : ℕ → List Item)
    (f : List ℕ → Option (Option ℕ)) (total : ℕ) : Type 0 where
  pub cells₂ : List (Option Entry)
  pub map₂ : Hashmap
  pub rows : ℕ → List Item
  pub runs : result ≡ some (cells₂, map₂)
  pub tails : Tails cells₂ old hs i
  pub growing : Growing cells₂ map₂ rows (gather (length hs) i old) f total
  pub same : length cells₂ ≡ length cells
  pub size : map₂.size ≡ map.size
  pub idx : map₂.idx ≡ map.idx

grow_chain-moves :
    (old : ℕ → List Item) (hs : List (Option ℕ)) (i : ℕ) (f : List ℕ → Option (Option ℕ))
    (total fuel : ℕ) (cells : List (Option Entry)) (map : Hashmap) (rows : ℕ → List Item)
    (head : Option ℕ) (items : List Item)
    → Chain cells head items
    → length items ≤ fuel
    → Tails cells old hs i
    → Growing cells map rows (items ++ gather (length hs) i old) f total
    → Moved (grow_chain fuel cells map head) cells map hs i old f total
unfolding grow_chain
grow_chain-moves old hs i f total fuel cells map rows _ _ end fits tails g = record {
  cells₂ = cells;
  map₂ = map;
  rows = rows;
  runs = refl;
  tails = tails;
  growing = g;
  same = refl;
  size = refl;
  idx = refl;
}
grow_chain-moves old hs i f total zero cells map rows _ _ (link a e items found rest) fits tails g =
    absurd (omega arith)
grow_chain-moves old hs i f total (suc fuel) cells map rows _ _ (link a e items found rest) fits
      tails g =
    let waiting = items ++ gather (length hs) i old in
    let (alone, nowhere) = first-alone map.size rows (item e) waiting f total g.shape in
    let split = count-append e.key items (gather (length hs) i old) in
    let l =
      hashmap_link-Relinked cells map rows a e g.held g.shape.positive found
        (first-nowhere map.size rows (item e) waiting f total g.shape) in
    let r =
      grow_chain-moves old hs i f total fuel l.cells₂
        (linked_map map g.held.heads (slot e.key map.size) a)
        (push (slot e.key map.size) (item e) rows) e.next items
        (Chain-KeepsBut cells l.cells₂ a e e.next items l.kept found (omega (arith, alone, split))
          rest)
        (omega arith)
        (Tails-KeepsBut cells l.cells₂ old a e hs i l.kept found (omega (arith, alone, split))
          tails)
        (record {
          held = l.held;
          shape = push-Shape map.size rows (item e) waiting f total g.shape;
        }) in
    record {
      cells₂ = r.cells₂;
      map₂ = r.map₂;
      rows = r.rows;
      runs = rw (found, l.runs) r.runs;
      tails = r.tails;
      growing = r.growing;
      same = r.same ∙ l.same;
      size = r.size;
      idx = r.idx;
    }

pub grow_buckets-moves :
    (old : ℕ → List Item) (f : List ℕ → Option (Option ℕ)) (total : ℕ) (hs : List (Option ℕ))
    (i : ℕ) (cells : List (Option Entry)) (map : Hashmap) (rows : ℕ → List Item)
    → total ≤ length cells
    → Tails cells old hs i
    → Growing cells map rows (gather (length hs) i old) f total
    → Moved (grow_buckets hs cells map) cells map [] 0 old f total
unfolding grow_buckets gather
grow_buckets-moves old f total [] i cells map rows small tails g = record {
  cells₂ = cells;
  map₂ = map;
  rows = rows;
  runs = refl;
  tails = none_left 0;
  growing = g;
  same = refl;
  size = refl;
  idx = refl;
}
grow_buckets-moves old f total (h ∷ hs) i cells map rows small (more _ _ _ chain rest) g =
    let split = length-append (old i) (gather (length hs) (suc i) old) in
    let m =
      grow_chain-moves old hs (suc i) f total (length cells) cells map rows h (old i) chain
        (omega (arith, split, small, g.shape.counted)) rest g in
    let r =
      grow_buckets-moves old f total hs (suc i) m.cells₂ m.map₂ m.rows
        (omega (arith, small, m.same)) m.tails m.growing in
    record {
      cells₂ = r.cells₂;
      map₂ = r.map₂;
      rows = r.rows;
      runs = rw m.runs r.runs;
      tails = r.tails;
      growing = r.growing;
      same = r.same ∙ m.same;
      size = r.size ∙ m.size;
      idx = r.idx ∙ m.idx;
    }
