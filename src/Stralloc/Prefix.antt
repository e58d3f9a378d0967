-- ===== src/Stralloc/Prefix.antt =====
-- libstralloc/stralloc.c: `stralloc_starts` decides whether the text begins with a C string.
use carrots.Base.{
  false-ne, ℕ, zero, suc, ◌≤◌, ◌≡◌, ◌≢◌, ◌↔◌, refl, sym, ap, ap₂, ◌∙◌, inl, inr, List, [], ◌∷◌,
  Option, none, some, length-take, true, false, leb, ◌==◌, ==_iff, Bool-cases, length, take, All,
  arith, tests,
}
use carrots.Stralloc.{Stralloc, strncmp_eq, stralloc_starts, text}
use carrots.Stralloc.Allocator.{Buffer}
use carrots.Stralloc.Ready.{IsSound}

abbrev pub IsChar : ℕ → Type 0
IsChar c = c ≢ 0

==-ne : (a b : ℕ) → a ≢ b → (a == b) ≡ false
==-ne a b ne = ground arith

cons-injective_head : {c d : ℕ} {s t : List ℕ} → (c ∷ s) ≡ (d ∷ t) → c ≡ d
cons-injective_head e = cc

cons-injective_tail : {c d : ℕ} {s t : List ℕ} → (c ∷ s) ≡ (d ∷ t) → s ≡ t
cons-injective_tail e = cc

strncmp_eq-take :
    (s t : List ℕ)
    → All IsChar t
    → length t ≤ length s
    → strncmp_eq (length t) s t ≡ true
    → take (length t) s ≡ t
unfolding strncmp_eq
strncmp_eq-take s [] chars h e = refl
strncmp_eq-take [] (d ∷ t) chars h e = absurd (omega arith)
strncmp_eq-take (c ∷ s) (d ∷ t) chars h e = elim (Bool-cases (c == d)) [
  | inr other ↦ absurd (false-ne (rw other at e))
  | inl same ↦
      let c≡d : c ≡ d = (==_iff c d).0 same in
      let live : (c == 0) ≡ false = ==-ne c 0 (λ z. chars.0 (sym c≡d ∙ z)) in
      ap₂ ◌∷◌ c≡d (strncmp_eq-take s t chars.1 (omega arith) (rw (same, live) at e))
]

strncmp_eq-of : (s t : List ℕ) → take (length t) s ≡ t → strncmp_eq (length t) s t ≡ true
unfolding strncmp_eq
strncmp_eq-of s [] e = refl
strncmp_eq-of [] (d ∷ t) e = absurd (omega (arith, ap length e))
strncmp_eq-of (c ∷ s) (d ∷ t) e =
    let c≡d : c ≡ d = cons-injective_head e in
    let same : (c == d) ≡ true = (==_iff c d).1 c≡d in
    rw (same) (elim (Bool-cases (c == 0)) [
      | inl end ↦ rw end refl
      | inr on ↦ rw on (strncmp_eq-of s t (cons-injective_tail e))
    ])

take-take_le : (m n : ℕ) (xs : List ℕ) → m ≤ n → take m (take n xs) ≡ take m xs
take-take_le zero n xs h = refl
take-take_le (suc m) zero xs h = absurd (omega arith)
take-take_le (suc m) (suc n) [] h = refl
take-take_le (suc m) (suc n) (x ∷ xs) h = ap (◌∷◌ x) (take-take_le m n xs (omega arith))

starts_parts :
    (o : Option Buffer) (len a : ℕ) (t : List ℕ)
    → IsSound (record { s = o; len = len; a = a })
    → All IsChar t
    → (stralloc_starts (record { s = o; len = len; a = a }) t ≡ true)
      ↔ (take (length t) (text (record { s = o; len = len; a = a })) ≡ t)
unfolding stralloc_starts strncmp_eq IsSound
starts_parts none len a [] sound chars = (λ e. refl, λ e. rw sound refl)
starts_parts none len a (d ∷ t) sound chars =
    let short : leb (suc (length t)) 0 ≡ false = ground arith in
    rw (sound, short) (λ e. absurd (false-ne e), λ e. absurd (omega (arith, ap length e)))
starts_parts (some b) len a t (fits, within) chars = elim (Bool-cases (leb (length t) len)) [
  | inl enough ↦
      let le : length t ≤ len = omega tests in
      rw (enough, take-take_le (length t) len b.cells le)
        (λ e. strncmp_eq-take b.cells t chars (omega arith) e, λ e. strncmp_eq-of b.cells t e)
  | inr short ↦ rw short (
    λ e. absurd (false-ne e),
    λ e. absurd (
        omega (
          tests,
          sym (ap length e),
          length-take (length t) (take len b.cells),
          length-take len b.cells,
        )),
  )
]

-- stralloc_starts of a sound string and a C string of nonzero characters returns true exactly when
-- the text begins with that string.
pub stralloc_starts-prefix :
    (x : Stralloc) (t : List ℕ)
    → IsSound x
    → All IsChar t
    → (stralloc_starts x t ≡ true) ↔ (take (length t) (text x) ≡ t)
stralloc_starts-prefix x t sound chars = starts_parts x.s x.len x.a t sound chars
