-- ===== src/Ctlogic/Forward.antt =====
-- ctserver/src/ctlogicprocess.c: what of a command line is handed to the client.
use carrots.Base.{
  ℕ, zero, suc, ◌+◌, ◌-◌, ◌≤◌, ◌<◌, ◌≡◌, ◌≢◌, refl, sym, ap, ap₂, ◌∙◌, List, [], ◌∷◌, ◌++◌, some,
  true, false, leb, ◌==◌, length, take, drop, replicate, take-append_le, drop-append_le,
  length-append, append_assoc, append-nil, arith, All,
}
use carrots.Ctlogic.{strlen, Split, store, ends_command, split_loop, forwarded}

-- A character inside of a word.
abbrev pub IsWord : ℕ → Type 0
IsWord c = (c ≢ 0) × (c ≢ 13) × (c ≢ 10) × (c ≢ 32)

word-ends : (c : ℕ) → IsWord c → (ends_command c ≡ false) × ((c == 32) ≡ false)
unfolding ends_command
word-ends c w = let (a, b, d, e) = w in ground arith

-- A store inside of a buffer keeps its length.
store-inside :
    (xs : List ℕ) (j ch : ℕ)
    → j < length xs
    → (ys : List ℕ) × (store xs j ch ≡ some ys) × (length ys ≡ length xs)
unfolding store
store-inside [] j ch inside = absurd (omega arith)
store-inside (x ∷ xs) zero ch inside = (ch ∷ xs, refl, refl)
store-inside (x ∷ xs) (suc j) ch inside =
    let (ys, stores, size) = store-inside xs j ch (omega arith) in
    (x ∷ ys, rw stores refl, ap suc size)

store-middle :
    (xs : List ℕ) (a : ℕ) (ys : List ℕ) (ch : ℕ)
    → store (xs ++ a ∷ ys) (length xs) ch ≡ some (xs ++ ch ∷ ys)
unfolding store
store-middle [] a ys ch = refl
store-middle (x ∷ xs) a ys ch = rw (store-middle xs a ys ch) refl

-- The type of the command is stored, and the loop goes on behind it.
split_loop-type :
    (word rest : List ℕ) (i j : ℕ) (type_buf name_buf : List ℕ)
    → All IsWord word
    → j + length word ≤ length type_buf
    → (type_buf₂ : List ℕ) × (split_loop (word ++ rest) i j false type_buf name_buf
        ≡ split_loop rest (i + length word) (j + length word) false type_buf₂ name_buf)
      × (length type_buf₂ ≡ length type_buf)
unfolding split_loop
split_loop-type [] rest i j type_buf name_buf all inside =
    let a : i ≡ i + 0 = omega arith in
    let b : j ≡ j + 0 = omega arith in
    (type_buf, ap₂ (λ x y. split_loop rest x y false type_buf name_buf) a b, refl)
split_loop-type (c ∷ cs) rest i j type_buf name_buf all inside =
    let (goes_on, no_space) = word-ends c all.0 in
    let (stored, stores, same) = store-inside type_buf j c (omega arith) in
    let (type_buf₂, runs, size) =
      split_loop-type cs rest (suc i) (suc j) stored name_buf all.1 (omega (arith, same)) in
    let a : suc i + length cs ≡ i + suc (length cs) = omega arith in
    let b : suc j + length cs ≡ j + suc (length cs) = omega arith in
    (
      type_buf₂,
      rw (goes_on, no_space, stores)
          (runs ∙ ap₂ (λ x y. split_loop rest x y false type_buf₂ name_buf) a b),
      size ∙ same,
    )

-- The name is stored behind what is there, over zeros.
split_loop-name :
    (word rest : List ℕ) (i k : ℕ) (type_buf before : List ℕ)
    → All IsWord word
    → split_loop
        (word ++ rest)
        i
        (length before)
        true
        type_buf
        (before ++ replicate (length word + k) 0)
      ≡ split_loop rest
          (i + length word)
          (length before + length word)
          true
          type_buf
          ((before ++ word) ++ replicate k 0)
unfolding split_loop
split_loop-name [] rest i k type_buf before all =
    let a : i ≡ i + 0 = omega arith in
    let b : length before ≡ length before + 0 = omega arith in
    let z : 0 + k ≡ k = omega arith in
    ap (λ n. split_loop rest i (length before) true type_buf (before ++ replicate n 0)) z
    ∙ ap (λ (l : List ℕ). split_loop rest i (length before) true type_buf (l ++ replicate k 0))
        (sym (append-nil before))
    ∙ ap₂ (λ x y. split_loop rest x y true type_buf ((before ++ []) ++ replicate k 0)) a b
split_loop-name (c ∷ cs) rest i k type_buf before all =
    let (goes_on, no_space) = word-ends c all.0 in
    let more : suc (length cs) + k ≡ suc (length cs + k) = omega arith in
    let stored = store-middle before 0 (replicate (length cs + k) 0) c in
    let n : length (before ++ c ∷ []) ≡ suc (length before) =
      length-append before (c ∷ []) ∙ omega arith in
    let next = before ++ c ∷ [] in
    let a : suc i + length cs ≡ i + suc (length cs) = omega arith in
    let b : length next + length cs ≡ length before + suc (length cs) = omega (arith, n) in
    let step : before ++ c ∷ replicate (length cs + k) 0 ≡ next ++ replicate (length cs + k) 0 =
      sym (append_assoc before (c ∷ []) (replicate (length cs + k) 0)) in
    rw (more, goes_on, no_space, stored)
      (ap₂ (λ x y. split_loop (cs ++ rest) (suc i) x true type_buf y) (sym n) step
        ∙ split_loop-name cs rest (suc i) k type_buf next all.1
        ∙ ap₂ (λ x y. split_loop rest x y true type_buf ((next ++ cs) ++ replicate k 0)) a b
        ∙ ap
            (λ (l : List ℕ).
              split_loop rest (i + suc (length cs)) (length before + suc (length cs)) true type_buf
                (l ++ replicate k 0))
            (append_assoc before (c ∷ []) cs))

strlen-zeros : (k : ℕ) → strlen (replicate k 0) ≡ 0
unfolding strlen
strlen-zeros zero = refl
strlen-zeros (suc k) = refl

strlen-word :
    (word : List ℕ) (k : ℕ) → All IsWord word → strlen (word ++ replicate k 0) ≡ length word
unfolding strlen
strlen-word [] k all = strlen-zeros k
strlen-word (c ∷ cs) k all =
    let some_char : (c == 0) ≡ false = let w = all.0 in let a = w.0 in ground arith in
    rw some_char (ap suc (strlen-word cs k all.1))

strlen-line_end : (k : ℕ) → strlen (13 ∷ 10 ∷ replicate k 0) ≡ 2
unfolding strlen
strlen-line_end k = ap (λ n. suc (suc n)) (strlen-zeros k)

-- Where the splitting stops.
split_loop-command :
    (kind name more : List ℕ) (type_buf : List ℕ) (z : ℕ)
    → All IsWord kind
    → All IsWord name
    → length kind < length type_buf
    → (type_buf₂ : List ℕ) × (split_loop
          (kind ++ 32 ∷ (name ++ 13 ∷ more))
          0
          0
          false
          type_buf
          (replicate (length name + z) 0)
        ≡ some (record {
          at = suc (length kind) + length name;
          cmd_type = type_buf₂;
          cmd_name = name ++ replicate z 0;
        }))
unfolding split_loop ends_command
split_loop-command kind name more type_buf z kind_word name_word inside =
    let (t, runs, size) =
      split_loop-type kind (32 ∷ (name ++ 13 ∷ more)) 0 0 type_buf (replicate (length name + z) 0)
        kind_word (omega arith) in
    let (t₂, ends, _) = store-inside t (0 + length kind) 0 (omega (arith, size)) in
    let a : 0 + length kind ≡ length kind = omega arith in
    (
      t₂,
      runs
          ∙ rw ends (split_loop-name name (13 ∷ more) (suc (0 + length kind)) z t₂ [] name_word)
          ∙ ap
              (λ n. some (record {
                at = suc n + length name;
                cmd_type = t₂;
                cmd_name = name ++ replicate z 0;
              }))
              a,
    )

-- What is handed on.
pub forwarded-name :
    (kind name more type_buf : List ℕ) (k z : ℕ)
    → All IsWord kind
    → All IsWord name
    → length kind < length type_buf
    → (s : Split) × (split_loop
          (kind ++ 32 ∷ (name ++ 13 ∷ more))
          0
          0
          false
          type_buf
          (replicate (length name + z) 0)
        ≡ some s)
      × (forwarded (kind ++ 32 ∷ (name ++ 13 ∷ 10 ∷ replicate k 0)) s ≡ some (name ++ 13 ∷ 10 ∷ []))
unfolding forwarded
forwarded-name kind name more type_buf k z kind_word name_word room =
    let (t, stops) = split_loop-command kind name more type_buf z kind_word name_word room in
    let tail : List ℕ = 13 ∷ 10 ∷ replicate k 0 in
    let at = suc (length kind) + length name in
    let front = kind ++ 32 ∷ [] in
    let front_len : length front ≡ suc (length kind) = length-append kind (32 ∷ []) ∙ omega arith in
    let inside : leb (length name) at ≡ true = ground arith in
    let whole : kind ++ 32 ∷ (name ++ tail) ≡ front ++ (name ++ tail) =
      sym (append_assoc kind (32 ∷ []) (name ++ tail)) in
    let whole₂ : kind ++ 32 ∷ (name ++ tail) ≡ (front ++ name) ++ tail =
      whole ∙ sym (append_assoc front name tail) in
    let both : length (front ++ name) ≡ at = length-append front name ∙ omega (arith, front_len) in
    let behind : drop at (kind ++ 32 ∷ (name ++ tail)) ≡ tail =
      ap (drop at) whole₂
      ∙ drop-append_le at (front ++ name) tail (omega (arith, both))
      ∙ ap (λ n. drop n tail)
          (let e : at - length (front ++ name) ≡ 0 = omega (arith, both) in e) in
    let from : drop (at - length name) (kind ++ 32 ∷ (name ++ tail)) ≡ name ++ tail =
      ap (drop (at - length name)) whole
      ∙ drop-append_le (at - length name) front (name ++ tail) (omega (arith, front_len))
      ∙ ap (λ n. drop n (name ++ tail))
          (let e : at - length name - length front ≡ 0 = omega (arith, front_len) in e) in
    let some_left : 2 + length name - length name ≡ 2 = omega arith in
    (
      record { at = at; cmd_type = t; cmd_name = name ++ replicate z 0 },
      stops,
      rw (strlen-word name z name_word, inside, behind, strlen-line_end k, from)
          (ap some (
            take-append_le (2 + length name) name tail (omega arith)
            ∙ ap (λ n. name ++ take n tail) some_left)),
    )
