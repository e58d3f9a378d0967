-- ===== src/Mysql.antt =====
-- mysql_api/mysql_api.c: connections to a MySQL server that are opened again when the server is gone. The
-- client library is a parameter. An operation returns none where the code hands a connection to the
-- library that is NULL or closed.
pub mod Calls
pub mod Session
pub mod Whole
mod Tests
use carrots.Base.{
  ℕ, zero, suc, List, Option, none, some, Bool, true, false, ltb, leb, ◌==◌, ◌&&◌, ◌||◌,
  if◌then◌else◌, take,
}
use carrots.Base.Int.{ℤ, pos, negsuc}

-- `handle->msp`: NULL, a connection, or one that was closed.
pub data Msp : Type 0 where
  null : Msp
  opened : Msp
  closed : Msp

-- `MYSQL_CONN`
pub record Handle : Type 0 where
  pub msp : Msp
  pub db_host : List ℕ
  pub db_user : List ℕ
  pub db_pass : List ℕ
  pub db_name : List ℕ
  pub db_port : ℕ
  pub db_conn_timeout : ℕ

-- The calls of the client library, with whether they succeed, and the numbers of its errors.
pub record Library (W : Type 0) (R : Type 0) : Type 0 where
  pub init : W → Bool × W
  pub set_timeout : W → ℕ → Bool × W
  pub set_charset : W → Bool × W
  pub real_connect : W → Handle → Bool × W
  pub autocommit : W → W
  pub close : W → W
  pub real_query : W → List ℕ → Bool × W
  pub store_result : W → Option R × W
  pub set_option : W → ℕ → W
  pub set_server_option : W → ℕ → W
  pub errno : W → ℕ
  pub error_first : ℕ
  pub error_last : ℕ
  pub server_gone : ℕ
  pub server_lost : ℕ

-- What a call returns, and what it leaves.
pub record Done (W : Type 0) : Type 0 where
  pub ret : ℤ
  pub handle : Handle
  pub world : W

unfoldable pub timeout_of : Handle → ℕ
timeout_of handle = if ltb 0 handle.db_conn_timeout then handle.db_conn_timeout else 3

-- What `_mysql_conn` leaves, by which of its four steps succeed: the new connection, its two settings, and
-- the connecting; with the state after each of them.
unfoldable pub conn_done :
    {W R : Type 0} → Library W R → Bool → Bool → Bool → Bool → Handle → W → W → W → W → Done W
conn_done lib false timed named connected handle w₁ w₂ w₃ w₄ = record {
  ret = negsuc 0;
  handle = handle;
  world = w₁;
}
conn_done lib true false named connected handle w₁ w₂ w₃ w₄ = record {
  ret = negsuc 0;
  handle = handle;
  world = lib.close w₂;
}
conn_done lib true true false connected handle w₁ w₂ w₃ w₄ = record {
  ret = negsuc 0;
  handle = handle;
  world = lib.close w₃;
}
conn_done lib true true true false handle w₁ w₂ w₃ w₄ = record {
  ret = negsuc 1;
  handle = record handle { msp = null };
  world = lib.close w₄;
}
conn_done lib true true true true handle w₁ w₂ w₃ w₄ = record {
  ret = pos 0;
  handle = record handle { msp = opened };
  world = lib.autocommit w₄;
}

-- `_mysql_conn`, of a handle that is not NULL
unfoldable pub mysql_conn : {W R : Type 0} → Library W R → Handle → W → Done W
mysql_conn lib handle w =
    let (made, w₁) = lib.init w in
    let (timed, w₂) = lib.set_timeout w₁ (timeout_of handle) in
    let (named, w₃) = lib.set_charset w₂ in
    let (connected, w₄) = lib.real_connect w₃ (record handle { msp = opened }) in
    conn_done lib made timed named connected handle w₁ w₂ w₃ w₄

unfoldable pub is_zero : ℤ → Bool
is_zero (pos n) = n == 0
is_zero (negsuc n) = false

-- Names of 128 bytes at most
unfoldable pub new_handle : List ℕ → List ℕ → List ℕ → List ℕ → ℕ → ℕ → Handle
new_handle host user pass name port timeout = record {
  msp = null;
  db_host = take 128 host;
  db_user = take 128 user;
  db_pass = take 128 pass;
  db_name = take 128 name;
  db_port = port;
  db_conn_timeout = timeout;
}

-- `_mysql_init`, of names that are not NULL: the handle, none for NULL; whether there is memory.
unfoldable pub mysql_init :
    {W R : Type 0}
    → Library W R
    → Bool
    → List ℕ
    → List ℕ
    → List ℕ
    → List ℕ
    → ℕ
    → ℕ
    → W
    → Option Handle × W
mysql_init lib calloc host user pass name port timeout w =
    let d = mysql_conn lib (new_handle host user pass name port timeout) w in
    if calloc then ((if is_zero d.ret then some d.handle else none), d.world) else (none, w)

-- The kinds of errors that the loops tell apart.
unfoldable pub is_syntax : {W R : Type 0} → Library W R → ℕ → Bool
is_syntax lib err = leb lib.error_first err && leb err lib.error_last

unfoldable pub is_lost : {W R : Type 0} → Library W R → ℕ → Bool
is_lost lib err = err == lib.server_gone || err == lib.server_lost

-- The handle when the server cannot be reconnected, or the one that is.
unfoldable pub reconnect : {W R : Type 0} → Library W R → Handle → W → Bool × Handle × W
reconnect lib handle w =
    let d = mysql_conn lib (record handle { msp = closed }) (lib.close w) in
    (is_zero d.ret, (if is_zero d.ret then d.handle else record d.handle { msp = null }), d.world)

-- The loop of `_mysql_query`; the Booleans are whether `options` asks for a retry, and `retry_flag`.
unfoldable pub query_loop :
    {W R : Type 0} → Library W R → List ℕ → Bool → ℕ → Bool → Handle → W → Option (Done W)
query_loop lib sql retry zero flag handle w = none
query_loop lib sql retry (suc fuel) flag handle w = elim handle.msp [
  | null ↦ none
  | closed ↦ none
  | opened ↦
      let (worked, w₁) = lib.real_query w sql in
      let err = lib.errno w₁ in
      let (connected, again, w₂) = reconnect lib handle w₁ in
      let rest = query_loop lib sql retry fuel true again w₂ in
      if worked
      then some (record { ret = pos 0; handle = handle; world = w₁ })
      else if is_syntax lib err
      then some (record { ret = pos err; handle = handle; world = w₁ })
      else if is_lost lib err
      then (if retry
          then (if flag
              then some (record { ret = pos 0; handle = handle; world = w₁ })
              else if connected
              then rest
              else some (record { ret = negsuc 0; handle = again; world = w₂ }))
          else some (record { ret = pos 0; handle = handle; world = w₁ }))
      else some (record { ret = negsuc 0; handle = handle; world = w₁ })
]

-- `_mysql_query`, of a handle and a string that are not NULL
unfoldable pub mysql_query :
    {W R : Type 0} → Library W R → List ℕ → Bool → Handle → W → Option (Done W)
mysql_query lib sql retry handle w =
    let d = mysql_conn lib handle w in
    elim handle.msp [
      | null ↦
          if is_zero d.ret
          then query_loop lib sql retry 2 false d.handle d.world
          else some (record { ret = negsuc 0; handle = d.handle; world = d.world })
      | opened ↦ query_loop lib sql retry 2 false handle w
      | closed ↦ query_loop lib sql retry 2 false handle w
    ]

-- What `_mysql_store_result` returns, NULL for none.
pub record Stored (W : Type 0) (R : Type 0) : Type 0 where
  pub result : Option R
  pub handle : Handle
  pub world : W

unfoldable pub store_loop :
    {W R : Type 0} → Library W R → Bool → ℕ → Bool → Handle → W → Option (Stored W R)
store_loop lib retry zero flag handle w = none
store_loop lib retry (suc fuel) flag handle w = elim handle.msp [
  | null ↦ some (record { result = none; handle = handle; world = w })
  | closed ↦ none
  | opened ↦
      let (result, w₁) = lib.store_result w in
      let err = lib.errno w₁ in
      let (connected, again, w₂) = reconnect lib handle w₁ in
      let rest = store_loop lib retry fuel true again w₂ in
      let failed = some (record { result = none; handle = handle; world = w₁ }) in
      elim result [
        | some r ↦ some (record { result = some r; handle = handle; world = w₁ })
        | none ↦
            if is_syntax lib err
            then failed
            else if is_lost lib err
            then (if retry
                then (if flag
                    then failed
                    else if connected
                    then rest
                    else some (record { result = none; handle = again; world = w₂ }))
                else failed)
            else failed
      ]
]

-- `_mysql_store_result`, of a handle that is not NULL
unfoldable pub mysql_store_result :
    {W R : Type 0} → Library W R → Bool → Handle → W → Option (Stored W R)
mysql_store_result lib retry handle w =
    let d = mysql_conn lib handle w in
    elim handle.msp [
      | null ↦
          if is_zero d.ret
          then store_loop lib retry 2 false d.handle d.world
          else some (record { result = none; handle = d.handle; world = d.world })
      | opened ↦ store_loop lib retry 2 false handle w
      | closed ↦ store_loop lib retry 2 false handle w
    ]

-- A call on the connection, which is opened when there is none.
unfoldable pub on_connection : {W R : Type 0} → Library W R → (W → W) → Handle → W → Option (Done W)
on_connection lib call handle w =
    let d = mysql_conn lib handle w in
    elim handle.msp [
      | null ↦
          if is_zero d.ret
          then some (record { ret = pos 0; handle = d.handle; world = call d.world })
          else some (record { ret = negsuc 1; handle = d.handle; world = d.world })
      | opened ↦ some (record { ret = pos 0; handle = handle; world = call w })
      | closed ↦ none
    ]

-- `_mysql_options`, of an argument that is not NULL, and `_mysql_set_server_option`
abbrev pub mysql_options : {W R : Type 0} → Library W R → ℕ → Handle → W → Option (Done W)
mysql_options lib option handle w = on_connection lib (λ v. lib.set_option v option) handle w

abbrev pub mysql_set_server_option : {W R : Type 0} → Library W R → ℕ → Handle → W → Option (Done W)
mysql_set_server_option lib option handle w =
    on_connection lib (λ v. lib.set_server_option v option) handle w

-- `_mysql_destroy`, of a handle that is not NULL, which is then freed
unfoldable pub mysql_destroy : {W R : Type 0} → Library W R → Handle → W → Option W
mysql_destroy lib handle w = elim handle.msp [
  | null ↦ some (lib.close w)
  | opened ↦ some (lib.close w)
  | closed ↦ none
]
