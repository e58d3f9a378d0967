-- ===== src/Mc.antt =====
-- ctapi_mc/ctapi_mc.c: setting, getting and deleting a key of a memcached server. What the client library
-- answers is a parameter; a call returns its value and the calls that it made of the library.
pub mod Calls
mod Tests
use carrots.Base.{
  ℕ, ◌+◌, ◌-◌, ◌%◌, ◌^◌, List, [], ◌∷◌, ◌++◌, Option, none, some, Bool, true, false, not, ltb,
  if◌then◌else◌, length,
}

-- `memcached_return`, as far as the code tells it apart
pub data McReturn : Type 0 where
  success : McReturn
  not_found : McReturn
  other : McReturn

-- What the library answers: whether `memcached_create` gives a client, whether
-- `memcached_server_list_append` and `memcached_server_push` succeed, what the operation returns, and the
-- value of `memcached_get`.
pub record Replies : Type 0 where
  pub creates : Bool
  pub appends : Bool
  pub pushes : Bool
  pub answer : McReturn
  pub value : Option (List ℕ)

-- The calls; a list of servers is there only when it could be appended to.
pub data McCall : Type 0 where
  created : McCall
  no_block_set : McCall
  timeout_set : McCall
  appended : McCall
  append_failed : McCall
  pushed : McCall
  list_freed : McCall
  set_value : List ℕ → List ℕ → ℕ → McCall
  got : List ℕ → McCall
  deleted : List ℕ → McCall
  freed : McCall

-- A length that is stored in a char, as a size again.
unfoldable pub char_length : ℕ → ℕ
char_length n = let c = n % 256 in if ltb c 128 then c else c + (2 ^ 64 - 256)

-- `set_mc`; none, here and below, when the client is NULL, which the code hands to the library all the same.
unfoldable pub set_mc : Replies → List ℕ → List ℕ → Option (ℕ × List McCall)
set_mc server key value =
    let asked = created ∷ no_block_set ∷ timeout_set ∷ [] in
    let listed = asked ++ appended ∷ pushed ∷ list_freed ∷ [] in
    let called = listed ++ set_value key value (char_length (length value)) ∷ [] in
    if not server.creates
    then none
    else if not server.appends
    then some (1, asked ++ append_failed ∷ freed ∷ [])
    else if not server.pushes
    then some (1, listed ++ freed ∷ [])
    else elim server.answer [
      | success ↦ some (0, called ++ freed ∷ [])
      | not_found ↦ some (1, called ++ freed ∷ [])
      | other ↦ some (1, called ++ freed ∷ [])
    ]

-- `get_mc`: the value that the library returned, or NULL.
unfoldable pub get_mc : Replies → List ℕ → Option (Option (List ℕ) × List McCall)
get_mc server key =
    let asked = created ∷ no_block_set ∷ timeout_set ∷ [] in
    let listed = asked ++ appended ∷ pushed ∷ list_freed ∷ [] in
    let called = listed ++ got key ∷ [] in
    if not server.creates
    then none
    else if not server.appends
    then some (none, asked ++ append_failed ∷ freed ∷ [])
    else if not server.pushes
    then some (none, listed ++ freed ∷ [])
    else some (server.value, called ++ freed ∷ [])

-- `delete_mc`
unfoldable pub delete_mc : Replies → List ℕ → Option (ℕ × List McCall)
delete_mc server key =
    let asked = created ∷ no_block_set ∷ timeout_set ∷ [] in
    let listed = asked ++ appended ∷ pushed ∷ list_freed ∷ [] in
    let called = listed ++ deleted key ∷ [] in
    if not server.creates
    then none
    else if not server.appends
    then some (1, asked ++ append_failed ∷ freed ∷ [])
    else if not server.pushes
    then some (1, listed ++ freed ∷ [])
    else elim server.answer [
      | success ↦ some (0, called ++ freed ∷ [])
      | not_found ↦ some (1, called ++ freed ∷ [])
      | other ↦ some (2, called ++ freed ∷ [])
    ]
