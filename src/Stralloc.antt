-- ===== src/Stralloc.antt =====
-- libstralloc/stralloc.c: strings that grow, over an allocator of their own (`Stralloc.Allocator`).
-- An operation returns none when it would write outside of its buffer. Sizes wrap as unsigned ints;
-- `len` and `a` are ints in the code, and the model agrees with them while they are below 2 ^ 31.
pub mod Allocator
pub mod Ready
pub mod Text
pub mod Prefix
mod Tests
use carrots.Base.{
  ℕ, zero, suc, ◌+◌, ◌-◌, ◌*◌, ◌/◌, ◌%◌, ◌^◌, ◌≤◌, List, [], ◌∷◌, ◌++◌, Option, none, some, Bool,
  true, false, ltb, leb, ◌==◌, ◌&&◌, if◌then◌else◌, length, take, drop,
}
use Allocator.{Buffer, Memory, alloc, alloc_re, alloc_free}

-- `stralloc`
pub record Stralloc : Type 0 where
  pub s : Option Buffer
  pub len : ℕ
  pub a : ℕ

-- The string and the allocator that an operation leaves, and its return value.
pub record Result : Type 0 where
  pub done : Bool
  pub string : Stralloc
  pub memory : Memory

abbrev pub u32 : ℕ → ℕ
u32 n = n % 2 ^ 32

-- `30 + n + (n >> 3)`
unfoldable pub grown_size : ℕ → ℕ
grown_size n = u32 (30 + n + n / 8)

abbrev pub is_some {ℓ} : {A : Type ℓ} → Option A → Bool
is_some none = false
is_some (some a) = true

-- `memcpy` of the bytes to an offset, then the NUL behind them.
abbrev pub write_at : List ℕ → ℕ → List ℕ → Option (List ℕ)
write_at cells offset bytes =
    if leb (offset + length bytes) (length cells)
    then some (take offset cells ++ bytes ++ drop (offset + length bytes) cells)
    else none

unfoldable pub put_text : Stralloc → Memory → ℕ → List ℕ → Option Result
put_text x mem offset bytes = elim x.s [
  | none ↦ none
  | some b ↦ elim (write_at b.cells offset (bytes ++ 0 ∷ [])) [
    | none ↦ none
    | some cells ↦ some (record {
      done = true;
      string = record x { s = some (record b { cells = cells }); len = offset + length bytes };
      memory = mem;
    })
  ]
]

-- The bytes before the NUL of a C string, for `strlen`.
abbrev pub c_string : List ℕ → List ℕ
c_string [] = []
c_string (c ∷ cs) = if c == 0 then [] else c ∷ c_string cs

-- The `len` bytes of the string
abbrev pub text : Stralloc → List ℕ
text x = elim x.s [ none ↦ [] | some b ↦ take x.len b.cells ]

-- The end of the two growing branches: `x->a` is the new size only when the buffer has moved.
unfoldable pub regrown : Stralloc → ℕ → Option (Option Buffer × Memory) → Option Result
regrown x size none = none
regrown x size (some (none, mem)) = some (record { done = false; string = x; memory = mem })
regrown x size (some (some b, mem)) =
    some (record { done = true; string = record x { s = some b; a = size }; memory = mem })

module _ (malloc : ℕ → Bool) (junk : ℕ) where
  -- `x->len = 0; return !!(x->s = _alloc(x->a = n))`
  unfoldable pub first_buffer : ℕ → Memory → Result
  first_buffer n mem =
      let (given, mem₁) = alloc malloc junk n mem in
      record { done = is_some given; string = record { s = given; len = 0; a = n }; memory = mem₁ }

  unfoldable pub grow_buffer : Stralloc → Buffer → ℕ → Memory → Option Result
  unfolding regrown
  grow_buffer x b n mem = regrown x (grown_size n) (alloc_re malloc junk b x.a (grown_size n) mem)

  -- `stralloc_ready`
  unfoldable pub stralloc_ready : Stralloc → ℕ → Memory → Option Result
  unfolding first_buffer grow_buffer
  stralloc_ready x n mem = elim x.s [
    | none ↦ some (first_buffer n mem)
    | some b ↦
        if ltb x.a n
        then grow_buffer x b n mem
        else some (record { done = true; string = x; memory = mem })
  ]

  -- `stralloc_readyplus`
  unfoldable pub stralloc_readyplus : Stralloc → ℕ → Memory → Option Result
  unfolding first_buffer grow_buffer
  stralloc_readyplus x n mem = elim x.s [
    | none ↦ some (first_buffer n mem)
    | some b ↦
        if ltb x.a (u32 (n + x.len))
        then grow_buffer x b (u32 (n + x.len)) mem
        else some (record { done = true; string = x; memory = mem })
  ]

  -- `stralloc_copyb` of the given bytes
  unfoldable pub stralloc_copyb : Stralloc → List ℕ → Memory → Option Result
  unfolding put_text
  stralloc_copyb sa bytes mem = elim (stralloc_ready sa (u32 (length bytes + 1)) mem) [
    | none ↦ none
    | some r ↦ if r.done then put_text r.string r.memory 0 bytes else some r
  ]

  -- `stralloc_catb` of the given bytes
  unfoldable pub stralloc_catb : Stralloc → List ℕ → Memory → Option Result
  unfolding put_text
  stralloc_catb sa bytes mem = elim sa.s [
    | none ↦ stralloc_copyb sa bytes mem
    | some b ↦ elim (stralloc_readyplus sa (u32 (length bytes + 1)) mem) [
      | none ↦ none
      | some r ↦ if r.done then put_text r.string r.memory r.string.len bytes else some r
    ]
  ]

  -- `stralloc_copys`, `stralloc_cats`
  pub stralloc_copys : Stralloc → List ℕ → Memory → Option Result
  stralloc_copys sa s mem = stralloc_copyb sa (c_string s) mem

  pub stralloc_cats : Stralloc → List ℕ → Memory → Option Result
  stralloc_cats sa s mem = stralloc_catb sa (c_string s) mem

  -- `stralloc_copy`, `stralloc_cat` from another string
  pub stralloc_copy : Stralloc → Stralloc → Memory → Option Result
  stralloc_copy dst src mem = stralloc_copyb dst (text src) mem

  pub stralloc_cat : Stralloc → Stralloc → Memory → Option Result
  stralloc_cat dst src mem = stralloc_catb dst (text src) mem

-- `strncmp(s, t, n) == 0`: the first `n` characters are equal, up to the end of both strings.
unfoldable pub strncmp_eq : ℕ → List ℕ → List ℕ → Bool
strncmp_eq zero s t = true
strncmp_eq (suc n) [] t = false
strncmp_eq (suc n) (c ∷ s) [] = c == 0
strncmp_eq (suc n) (c ∷ s) (d ∷ t) =
    if c == d then (if c == 0 then true else strncmp_eq n s t) else false

-- `stralloc_starts`; the buffer and the C string without its NUL
unfoldable pub stralloc_starts : Stralloc → List ℕ → Bool
stralloc_starts sa s = elim sa.s [
  | none ↦ leb (length s) sa.len && strncmp_eq (length s) [] s
  | some b ↦ leb (length s) sa.len && strncmp_eq (length s) b.cells s
]

-- `stralloc_free`
unfoldable pub stralloc_free : Stralloc → Memory → Stralloc × Memory
stralloc_free x mem = elim x.s [
  | none ↦ (x, mem)
  | some b ↦ (record { s = none; len = 0; a = 0 }, alloc_free b mem)
]
