-- ===== src/Mc/Calls.antt =====
-- ctapi_mc/ctapi_mc.c: what the calls of the three functions are, and what a value of 128 bytes does.
use carrots.Base.{
  ℕ, ◌+◌, ◌-◌, ◌%◌, ◌^◌, ◌≤◌, ◌<◌, ◌≡◌, ◌⊎◌, refl, inl, inr, List, [], ◌∷◌, Option, some, Bool,
  true, false, not, ◌&&◌, ◌||◌, ◌==◌, if◌then◌else◌, ltb, length, arith, Bool-cases,
}
use carrots.Mc.{
  McReturn, success, not_found, other, Replies, McCall, created, no_block_set, timeout_set,
  appended, pushed, list_freed, set_value, freed, char_length, set_mc, get_mc, delete_mc,
}

-- What the calls before leave: whether there is a client, whether it has been freed, and how many lists
-- of servers are held.
pub record Held : Type 0 where
  pub client : Bool
  pub gone : Bool
  pub lists : ℕ

-- Whether each call uses a client that is there, and a list that is held.
unfoldable pub uses_held : Held → List McCall → Bool
uses_held h [] = h.gone && h.lists == 0
uses_held h (created ∷ cs) = if h.client then false else uses_held (record h { client = true }) cs
uses_held h (appended ∷ cs) = uses_held (record h { lists = h.lists + 1 }) cs
uses_held h (list_freed ∷ cs) =
    if h.lists == 0 then false else uses_held (record h { lists = h.lists - 1 }) cs
uses_held h (freed ∷ cs) =
    if h.gone || not h.client then false else uses_held (record h { gone = true }) cs
uses_held h (c ∷ cs) = if h.gone || not h.client then false else uses_held h cs

-- The calls of a function that returned: one client is made, every call that takes it comes between that
-- and its one release, and no list of servers is kept.
unfoldable pub IsBalanced {ℓ} : {A : Type ℓ} → Option (A × List McCall) → Type ℓ
IsBalanced {A = A} result =
    (r : A × List McCall) × (result ≡ some r)
    × (uses_held (record { client = false; gone = false; lists = 0 }) r.1 ≡ true)

McReturn-cases : (r : McReturn) → (r ≡ success) ⊎ ((r ≡ not_found) ⊎ (r ≡ other))
McReturn-cases success = inl refl
McReturn-cases not_found = inr (inl refl)
McReturn-cases other = inr (inr refl)

get_mc-IsBalanced :
    (server : Replies) (key : List ℕ) → server.creates ≡ true → IsBalanced (get_mc server key)
unfolding get_mc IsBalanced uses_held
get_mc-IsBalanced server key on = elim (Bool-cases server.appends) [
  | inr off ↦ rw (on, off) (_, refl, refl)
  | inl listed ↦ elim (Bool-cases server.pushes) [
    | inr off ↦ rw (on, listed, off) (_, refl, refl)
    | inl up ↦ rw (on, listed, up) (_, refl, refl)
  ]
]

set_mc-IsBalanced :
    (server : Replies) (key value : List ℕ)
    → server.creates ≡ true
    → IsBalanced (set_mc server key value)
unfolding set_mc IsBalanced uses_held
set_mc-IsBalanced server key value on = elim (Bool-cases server.appends) [
  | inr off ↦ rw (on, off) (_, refl, refl)
  | inl listed ↦ elim (Bool-cases server.pushes) [
    | inr off ↦ rw (on, listed, off) (_, refl, refl)
    | inl up ↦ elim (McReturn-cases server.answer) [
      | inl r ↦ rw (on, listed, up, r) (_, refl, refl)
      | inr (inl r) ↦ rw (on, listed, up, r) (_, refl, refl)
      | inr (inr r) ↦ rw (on, listed, up, r) (_, refl, refl)
    ]
  ]
]

delete_mc-IsBalanced :
    (server : Replies) (key : List ℕ) → server.creates ≡ true → IsBalanced (delete_mc server key)
unfolding delete_mc IsBalanced uses_held
delete_mc-IsBalanced server key on = elim (Bool-cases server.appends) [
  | inr off ↦ rw (on, off) (_, refl, refl)
  | inl listed ↦ elim (Bool-cases server.pushes) [
    | inr off ↦ rw (on, listed, off) (_, refl, refl)
    | inl up ↦ elim (McReturn-cases server.answer) [
      | inl r ↦ rw (on, listed, up, r) (_, refl, refl)
      | inr (inl r) ↦ rw (on, listed, up, r) (_, refl, refl)
      | inr (inr r) ↦ rw (on, listed, up, r) (_, refl, refl)
    ]
  ]
]

-- When the library gives a client, and whatever else it answers, each of set_mc, get_mc and
-- delete_mc returns, and of the calls that it makes one creates the client, one releases it, all
-- calls that take it come between these two, and every list of servers that was made is released.
pub mc-IsBalanced :
    (server : Replies) (key value : List ℕ)
    → server.creates ≡ true
    → IsBalanced (set_mc server key value)
      × IsBalanced (get_mc server key)
      × IsBalanced (delete_mc server key)
mc-IsBalanced server key value on = (
  set_mc-IsBalanced server key value on,
  get_mc-IsBalanced server key on,
  delete_mc-IsBalanced server key on,
)

char_length-cases :
    (len : ℕ)
    → len < 256
    → (n : ℕ) × (char_length len ≡ n) × (((len < 128) × (n ≡ len)) ⊎ ((128 ≤ len) × (len < n)))
unfolding char_length
char_length-cases len short =
    let low : len % 256 ≡ len = omega arith in
    elim (Bool-cases (ltb len 128)) [
      | inl small ↦ (len, rw (low, small) refl, inl (ground arith, refl))
      | inr large ↦ (len + (2 ^ 64 - 256), rw (low, large) refl, inr (ground arith, omega arith))
    ]

-- With a client and a server that is there, for a value of less than 256 bytes: set_mc makes
-- exactly its calls in order, and hands the library the length of the value when that is below
-- 128, and else a number that is larger than the value.
pub set_mc-length :
    (server : Replies) (key value : List ℕ)
    → server.creates ≡ true
    → server.appends ≡ true
    → server.pushes ≡ true
    → length value < 256
    → (ret n : ℕ) × (set_mc server key value
        ≡ some (
          ret,
          created
              ∷ no_block_set
              ∷ timeout_set
              ∷ appended
              ∷ pushed
              ∷ list_freed
              ∷ set_value key value n
              ∷ freed
              ∷ [],
        ))
      × (((length value < 128) × (n ≡ length value)) ⊎ ((128 ≤ length value) × (length value < n)))
unfolding set_mc
set_mc-length server key value there on up short =
    let (n, sized, which) = char_length-cases (length value) short in
    elim (McReturn-cases server.answer) [
      | inl r ↦ (0, n, rw (set_mc, there, on, up, r, sized) refl, which)
      | inr (inl r) ↦ (1, n, rw (set_mc, there, on, up, r, sized) refl, which)
      | inr (inr r) ↦ (1, n, rw (set_mc, there, on, up, r, sized) refl, which)
    ]
