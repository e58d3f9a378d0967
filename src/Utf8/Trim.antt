-- ===== src/Utf8/Trim.antt =====
-- str_utf8/str_utf8.c: `utf8_ltrim` takes the spaces off the front and nothing else.
use carrots.Base.{
  true-ne, append_assoc, ℕ, ◌≡◌, ◌≢◌, refl, ap, inl, inr, List, [], ◌∷◌, ◌++◌, true, false, ◌==◌,
  ==_iff, Bool-cases, length, All, arith,
}
use carrots.Utf8.{utf8_ltrim, is_wide_space}
use carrots.Utf8.Count.{join}

-- A space, or the three bytes of an ideographic space.
pub data IsSpace : List ℕ → Type 0 where
  blank : IsSpace (32 ∷ [])
  wide : IsSpace (227 ∷ 128 ∷ 128 ∷ [])

-- The string begins with no space.
unfoldable pub IsTrimmed : List ℕ → Type 0
IsTrimmed s = (sp rest : List ℕ) → IsSpace sp → s ≢ sp ++ rest

-- What is trimmed of a string: spaces in front of a rest that begins with none.
pub record Trimmed (s rest : List ℕ) : Type 0 where
  pub spaces : List (List ℕ)
  pub whole : s ≡ join spaces ++ rest
  pub blanks : All IsSpace spaces
  pub trimmed : IsTrimmed rest

IsTrimmed-nil : IsTrimmed []
unfolding IsTrimmed
IsTrimmed-nil sp rest blank e = absurd (omega (arith, ap length e))
IsTrimmed-nil sp rest wide e = absurd (omega (arith, ap length e))

stays : (s : List ℕ) → IsTrimmed s → Trimmed s s
stays s t = record { spaces = []; whole = refl; blanks = tt; trimmed = t }

more_space : (sp s rest : List ℕ) → IsSpace sp → Trimmed s rest → Trimmed (sp ++ s) rest
more_space sp s rest sp_ok t = record {
  spaces = sp ∷ t.spaces;
  whole = rw t.whole (simp (append_assoc));
  blanks = (sp_ok, t.blanks);
  trimmed = t.trimmed;
}

first_byte : {c d : ℕ} {s t : List ℕ} → (c ∷ s) ≡ (d ∷ t) → c ≡ d
first_byte e = cc

next_bytes : {c d : ℕ} {s t : List ℕ} → (c ∷ s) ≡ (d ∷ t) → s ≡ t
next_bytes e = cc

==-ne : (a b : ℕ) → (a == b) ≡ false → a ≢ b
==-ne a b h = ground arith

IsTrimmed-short : (c d : ℕ) → c ≢ 32 → IsTrimmed (c ∷ d ∷ [])
unfolding IsTrimmed
IsTrimmed-short c d ne sp rest blank e = ne (first_byte e)
IsTrimmed-short c d ne sp rest wide e = absurd (omega (arith, ap length e))

IsTrimmed-byte : (c : ℕ) → c ≢ 32 → IsTrimmed (c ∷ [])
unfolding IsTrimmed
IsTrimmed-byte c ne sp rest blank e = ne (first_byte e)
IsTrimmed-byte c ne sp rest wide e = absurd (omega (arith, ap length e))

wide-bytes : (c d e : ℕ) → is_wide_space c d e ≡ true → (c ≡ 227) × (d ≡ 128) × (e ≡ 128)
wide-bytes c d e h = ground arith

IsTrimmed-long :
    (c d e : ℕ) (more : List ℕ)
    → c ≢ 32
    → is_wide_space c d e ≡ false
    → IsTrimmed (c ∷ d ∷ e ∷ more)
unfolding IsTrimmed
IsTrimmed-long c d e more ne h sp rest blank eq = ne (first_byte eq)
IsTrimmed-long c d e more ne h sp rest wide eq =
    let c_is = first_byte eq in
    let d_is = first_byte (next_bytes eq) in
    let e_is = first_byte (next_bytes (next_bytes eq)) in
    absurd (true-ne (rw (c_is, d_is, e_is) at h))

-- utf8_ltrim returns the rest behind the spaces and ideographic spaces that the string begins
-- with, and that rest begins with neither.
pub utf8_ltrim-Trimmed : (s : List ℕ) → Trimmed s (utf8_ltrim s)
unfolding utf8_ltrim
utf8_ltrim-Trimmed [] = stays [] IsTrimmed-nil
utf8_ltrim-Trimmed (c ∷ []) = elim (Bool-cases (c == 32)) [
  | inl on ↦ rw ((==_iff c 32).0 on) (more_space (32 ∷ []) [] [] blank (stays [] IsTrimmed-nil))
  | inr off ↦ rw off (stays (c ∷ []) (IsTrimmed-byte c (==-ne c 32 off)))
]
utf8_ltrim-Trimmed (c ∷ d ∷ []) = elim (Bool-cases (c == 32)) [
  | inl on ↦
      rw ((==_iff c 32).0 on)
        (more_space (32 ∷ []) (d ∷ []) (utf8_ltrim (d ∷ [])) blank (utf8_ltrim-Trimmed (d ∷ [])))
  | inr off ↦ rw off (stays (c ∷ d ∷ []) (IsTrimmed-short c d (==-ne c 32 off)))
]
utf8_ltrim-Trimmed (c ∷ d ∷ e ∷ more) = elim (Bool-cases (c == 32)) [
  | inl on ↦ rw ((==_iff c 32).0 on) (
      more_space (32 ∷ []) (d ∷ e ∷ more) (utf8_ltrim (d ∷ e ∷ more)) blank
        (utf8_ltrim-Trimmed (d ∷ e ∷ more)))
  | inr off ↦ elim (Bool-cases (is_wide_space c d e)) [
    | inl far ↦
        let (c_is, d_is, e_is) = wide-bytes c d e far in
        rw (c_is, d_is, e_is)
          (more_space (227 ∷ 128 ∷ 128 ∷ []) more (utf8_ltrim more) wide (utf8_ltrim-Trimmed more))
    | inr near ↦
        rw (off, near) (stays (c ∷ d ∷ e ∷ more) (IsTrimmed-long c d e more (==-ne c 32 off) near))
  ]
]
