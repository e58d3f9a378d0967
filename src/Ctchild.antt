-- ===== src/Ctchild.antt =====
-- ctserver/src/ctchild.c: the child's configuration and what it reads from its socket into an `Mfile`.
-- Inside the code's functions, `none` is undefined behaviour or a read that is still waited for.
pub mod Socket
pub mod Segment
mod Tests
use carrots.Base.{
  ℕ, zero, suc, ◌+◌, ◌-◌, List, [], ◌∷◌, ◌++◌, Option, none, some, Bool, true, false, ltb, ◌==◌,
  if◌then◌else◌, length, take, get_or, get_elem?, ◌>>=◌,
}
use carrots.Base.Int.{ℤ, pos, negsuc}
use carrots.Mfile.{Mfile, mwrite}

-- The keys that `read_config` asks for, each `global:` and its name.
pub data Key : Type 0 where
  log_level_key : Key
  conntimeout_key : Key
  rwtimeout_key : Key
  buf_size_key : Key
  max_blocksize_key : Key

-- `config_st`
pub record Config : Type 0 where
  pub log_level : List ℕ
  pub conntimeout : List ℕ
  pub rwtimeout : List ℕ
  pub buf_size : List ℕ
  pub max_blocksize : List ℕ

-- "8"
abbrev pub default_log_level : List ℕ
default_log_level = 56 ∷ []

-- "3"
abbrev pub default_conntimeout : List ℕ
default_conntimeout = 51 ∷ []

-- "5"
abbrev pub default_rwtimeout : List ℕ
default_rwtimeout = 53 ∷ []

-- `snprintf(field, 1024, "%s", ...)` of the value, or of the default when there is none
unfoldable pub setting : Option (List ℕ) → List ℕ → List ℕ
setting none default = take 1023 default
setting (some value) default = take 1023 value

-- `read_config`; the defaults of the two sizes are numbers that are printed as texts, which is
-- undefined.
unfoldable pub read_config : Option (Key → Option (List ℕ)) → Config → Option (ℕ × Config)
unfolding setting
read_config none config = some (1, config)
read_config (some get) config = do
  size ← get buf_size_key
  block ← get max_blocksize_key
  some (
    0,
    record {
      log_level = setting (get log_level_key) default_log_level;
      conntimeout = setting (get conntimeout_key) default_conntimeout;
      rwtimeout = setting (get rwtimeout_key) default_rwtimeout;
      buf_size = take 1023 size;
      max_blocksize = take 1023 block;
    },
  )

-- What one call of `read` gives: bytes, the end of the file, EAGAIN or another error.
pub data Reading : Type 0 where
  got : List ℕ → Reading
  end_of_file : Reading
  again : Reading
  failed : Reading

-- `nw != 1`
unfoldable pub is_one : ℤ → Bool
is_one (pos n) = n == 1
is_one (negsuc n) = false

-- The loop of `read_buf_to_mfp_from_sockfd`, over what the reads give: `length` grows by the result
-- of `mwrite`, which is 1.
unfoldable pub read_loop : (ℕ → Bool) → List Reading → ℕ → Mfile → Option (ℤ × Mfile)
read_loop alloc [] count mfp = none
read_loop alloc (failed ∷ rs) count mfp = some (negsuc 0, mfp)
read_loop alloc (again ∷ rs) count mfp = some (pos count, mfp)
read_loop alloc (end_of_file ∷ rs) count mfp = some (pos 0, mfp)
read_loop alloc (got bytes ∷ rs) count mfp = do
  w ← mwrite alloc bytes mfp
  let rest = read_loop alloc rs (count + 1) w.1
  if is_one w.0 then rest else some (negsuc 0, w.1)

-- `read_buf_to_mfp_from_sockfd`
unfoldable pub read_buf_to_mfp_from_sockfd : (ℕ → Bool) → List Reading → Mfile → Option (ℤ × Mfile)
read_buf_to_mfp_from_sockfd alloc reads mfp = read_loop alloc reads 0 mfp

-- `fast_write`: 0 or 1
unfoldable pub fast_write : (ℕ → Bool) → List ℕ → Mfile → Option (Bool × Mfile)
fast_write alloc bytes mfp = do w ← mwrite alloc bytes mfp; some (is_one w.0, w.1)

-- How `read_buf_from_sockfd` ends: it returns a number, or runs off its end without one.
pub data Ending : Type 0 where
  returns : ℤ → Ending
  no_value : Ending

-- The loop of `read_buf_from_sockfd` behind the test of the room in `tbuf`.
module _ (alloc : ℕ → Bool) (size : ℕ) (tag : List ℕ) where
  -- `tbuf` is flushed and the function returns.
  unfoldable pub finish : List ℕ → ℕ → Mfile → Option (Ending × Mfile)
  unfolding fast_write
  finish tbuf total mfp = do
    w ← fast_write alloc tbuf mfp
    some (if w.0 then returns (pos (total + length tbuf)) else returns (negsuc 0), w.1)

  unfoldable pub segment_loop : List ℕ → List ℕ → ℕ → ℕ → Mfile → Option (Ending × Mfile)
  unfolding finish fast_write
  segment_loop [] tbuf state total mfp = some (no_value, mfp)
  segment_loop (ch ∷ rest) tbuf state total mfp = do
    flushed ← (if ltb (size - length tbuf) 2 then fast_write alloc tbuf mfp else some (true, mfp))
    let full = ltb (size - length tbuf) 2
    let kept = if full then [] else tbuf
    let stored = if full then total + length tbuf else total
    let line = kept ++ ch ∷ []
    let on = segment_loop rest line (suc state) stored flushed.1
    let back = segment_loop rest line 0 stored flushed.1
    if flushed.0
        then (if ch == get_or tag state 0
            then (if suc state == length tag then finish line stored flushed.1 else on)
            else back)
        else some (returns (negsuc 0), flushed.1)

-- `read_buf_from_sockfd`, with what its one read gives; the bytes are at most `size`.
unfoldable pub read_buf_from_sockfd :
    (ℕ → Bool) → ℕ → List ℕ → Reading → Mfile → Option (Ending × Mfile)
unfolding segment_loop
read_buf_from_sockfd alloc size tag end_of_file mfp = some (returns (pos 0), mfp)
read_buf_from_sockfd alloc size tag again mfp = some (returns (negsuc 0), mfp)
read_buf_from_sockfd alloc size tag failed mfp = some (returns (negsuc 0), mfp)
read_buf_from_sockfd alloc size tag (got bytes) mfp = segment_loop alloc size tag bytes [] 0 0 mfp
