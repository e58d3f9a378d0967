-- ===== src/Mysql/Whole.antt =====
-- mysql_api/mysql_api.c: sessions from the connecting to the end.
use carrots.Base.{
  ℕ, ◌≡◌, ◌≢◌, refl, sym, ap, ◌∙◌, inl, inr, List, [], ◌∷◌, Option, none, some, Bool, true, false,
  Bool-cases, ◌>>=◌,
}
use carrots.Mysql.{
  opened, Handle, Library, mysql_conn, is_zero, mysql_query, mysql_store_result, mysql_options,
  mysql_set_server_option, mysql_destroy, mysql_init, new_handle,
}
use carrots.Mysql.Calls.{
  IsUsable, opened-usable, conn-msp, IsUsable-msp, msp-cases, mysql_query-Answered,
}
use carrots.Mysql.Session.{mysql_store_result-Stores, on_connection-IsUsable}

-- The calls of a session, whatever they return.
pub data Call : Type 0 where
  query : List ℕ → Bool → Call
  store : Bool → Call
  option : ℕ → Call
  server_option : ℕ → Call

unfoldable pub call_once : {W R : Type 0} → Library W R → Call → Handle → W → Option (Handle × W)
call_once lib (query sql retry) h w = do d ← mysql_query lib sql retry h w; some (d.handle, d.world)
call_once lib (store retry) h w = do d ← mysql_store_result lib retry h w; some (d.handle, d.world)
call_once lib (option n) h w = do d ← mysql_options lib n h w; some (d.handle, d.world)
call_once lib (server_option n) h w = do
  d ← mysql_set_server_option lib n h w
  some (d.handle, d.world)

unfoldable pub session : {W R : Type 0} → Library W R → List Call → Handle → W → Option (Handle × W)
session lib [] h w = some (h, w)
session lib (c ∷ cs) h w = do after ← call_once lib c h w; session lib cs after.0 after.1

module _ {W R : Type 0} (lib : Library W R) where
  call_once-IsUsable :
      (c : Call) (h : Handle) (w : W)
      → IsUsable h
      → (after : Handle × W) × (call_once lib c h w ≡ some after) × IsUsable after.0
  unfolding call_once
  call_once-IsUsable (query sql retry) h w usable =
      let a = mysql_query-Answered lib sql retry h w usable in
      ((a.done.handle, a.done.world), rw a.ends refl, a.usable)
  call_once-IsUsable (store retry) h w usable =
      let a = mysql_store_result-Stores lib retry h w usable in
      ((a.done.handle, a.done.world), rw a.ends refl, a.usable)
  call_once-IsUsable (option n) h w usable =
      let (d, ends, good) = on_connection-IsUsable lib (λ v. lib.set_option v n) h w usable in
      ((d.handle, d.world), rw ends refl, good)
  call_once-IsUsable (server_option n) h w usable =
      let (d, ends, good) =
        on_connection-IsUsable lib (λ v. lib.set_server_option v n) h w usable in
      ((d.handle, d.world), rw ends refl, good)

  session-IsUsable :
      (cs : List Call) (h : Handle) (w : W)
      → IsUsable h
      → (after : Handle × W) × (session lib cs h w ≡ some after) × IsUsable after.0
  unfolding session
  session-IsUsable [] h w usable = ((h, w), refl, usable)
  session-IsUsable (c ∷ cs) h w usable =
      let (mid, once, good) = call_once-IsUsable c h w usable in
      let (after, rest, better) = session-IsUsable cs mid.0 mid.1 good in
      (after, rw once rest, better)

  destroy-IsUsable : (h : Handle) (w : W) → IsUsable h → mysql_destroy lib h w ≡ some (lib.close w)
  unfolding mysql_destroy IsUsable
  destroy-IsUsable h w usable = elim (msp-cases lib h.msp usable) [
    | inl nothing ↦ rw (mysql_destroy, nothing) refl
    | inr here ↦ rw (mysql_destroy, here) refl
  ]

some-ne : {h : Handle} → none ≢ some h
some-ne e = cc

some-same : {h g : Handle} → some h ≡ some g → h ≡ g
some-same e = cc

init-IsUsable :
    {W R : Type 0} (lib : Library W R) (calloc : Bool) (host user pass name : List ℕ)
    (port timeout : ℕ) (w : W) (h : Handle)
    → (mysql_init lib calloc host user pass name port timeout w).0 ≡ some h
    → IsUsable h
unfolding mysql_init
init-IsUsable lib false host user pass name port timeout w h made = absurd (some-ne made)
init-IsUsable lib true host user pass name port timeout w h made =
    let d = mysql_conn lib (new_handle host user pass name port timeout) w in
    elim (Bool-cases (is_zero d.ret)) [
      | inr off ↦ absurd (some-ne (rw off at made))
      | inl ok ↦
          let same : some d.handle ≡ some h = rw ok at made in
          IsUsable-msp lib h opened
            (ap (λ (g : Handle). g.msp) (sym (some-same same))
              ∙ conn-msp lib (new_handle host user pass name port timeout) w ok)
            opened-usable
    ]

-- A handle that mysql_init gives, whatever the client library answers: after any sequence of
-- queries, stored results and options, whatever they return, every call has returned and
-- mysql_destroy ends the session; at no point is a closed connection handed to the library.
pub session-destroy :
    {W R : Type 0} (lib : Library W R) (calloc : Bool) (host user pass name : List ℕ)
    (port timeout : ℕ) (w : W) (h : Handle) (cs : List Call)
    → (mysql_init lib calloc host user pass name port timeout w).0 ≡ some h
    → (after : Handle × W) × (last : W) × (session lib cs h
          (mysql_init lib calloc host user pass name port timeout w).1
        ≡ some after)
      × (mysql_destroy lib after.0 after.1 ≡ some last)
session-destroy lib calloc host user pass name port timeout w h cs made =
    let good = init-IsUsable lib calloc host user pass name port timeout w h made in
    let (after, runs, usable) =
      session-IsUsable lib cs h (mysql_init lib calloc host user pass name port timeout w).1 good in
    (after, lib.close after.1, runs, destroy-IsUsable lib after.0 after.1 usable)
