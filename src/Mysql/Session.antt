-- ===== src/Mysql/Session.antt =====
-- mysql_api/mysql_api.c: a session of calls from the connecting to the end never hands a closed
-- connection to the library.
use carrots.Base.{
  ℕ, suc, ◌≡◌, ◌⊎◌, refl, sym, ap, ◌∙◌, inl, inr, Option, none, some, Bool, true, false, Bool-cases,
  Option-cases, false-ne,
}
use carrots.Base.Int.{pos, negsuc}
use carrots.Mysql.{
  null, opened, Handle, Library, Done, mysql_conn, is_zero, is_syntax, is_lost, reconnect, Stored,
  store_loop, mysql_store_result, on_connection,
}
use carrots.Mysql.Calls.{
  IsUsable, opened-usable, null-usable, conn-msp, conn-IsUsable, reconnect-opened, reconnect-failed,
  IsUsable-msp, msp-cases,
}

-- A result that was stored by the library, or NULL.
pub record Stores {W R : Type 0} (lib : Library W R) (result : Option (Stored W R)) : Type 0 where
  pub done : Stored W R
  pub ends : result ≡ some done
  pub usable : IsUsable done.handle
  pub answer :
      (done.result ≡ none)
      ⊎ ((v : W) × (r : R) × (lib.store_result v ≡ (some r, done.world)) × (done.result ≡ some r))

module _ {W R : Type 0} (lib : Library W R) where
  unstored :
      (handle : Handle) (w : W)
      → IsUsable handle
      → Stores lib (some (record { result = none; handle = handle; world = w }))
  unstored handle w usable = record {
    done = record { result = none; handle = handle; world = w };
    ends = refl;
    usable = usable;
    answer = inl refl;
  }

  store_loop-Stores :
      (retry flag : Bool) (fuel : ℕ) (handle : Handle) (w : W)
      → handle.msp ≡ opened
      → ((flag ≡ true)
          ⊎ ((h : Handle) (v : W)
              → h.msp ≡ opened
              → Stores lib (store_loop lib retry fuel true h v)))
      → Stores lib (store_loop lib retry (suc fuel) flag handle w)
  unfolding store_loop
  store_loop-Stores retry flag fuel handle w here again =
      let q = lib.store_result w in
      let err = lib.errno q.1 in
      let c = reconnect lib handle q.1 in
      let good = IsUsable-msp lib handle opened here opened-usable in
      elim (Option-cases q.0) [
        | inr found ↦
            rw (store_loop, here, found.1)
              (record {
                done = record { result = some found.0; handle = handle; world = q.1 };
                ends = refl;
                usable = good;
                answer = inr (w, found.0, ap (λ o. (o, q.1)) found.1, refl);
              })
        | inl nothing ↦ elim (Bool-cases (is_syntax lib err)) [
          | inl syntax ↦ rw (store_loop, here, nothing, syntax) (unstored handle q.1 good)
          | inr no_syntax ↦ elim (Bool-cases (is_lost lib err)) [
            | inr other ↦
                rw (store_loop, here, nothing, no_syntax, other) (unstored handle q.1 good)
            | inl lost ↦ elim (Bool-cases retry) [
              | inr off ↦
                  rw (store_loop, here, nothing, no_syntax, lost, off) (unstored handle q.1 good)
              | inl on ↦ elim (Bool-cases flag) [
                | inl set_already ↦
                    rw (store_loop, here, nothing, no_syntax, lost, on, set_already)
                      (unstored handle q.1 good)
                | inr first ↦ elim (Bool-cases c.0) [
                  | inr down ↦
                      rw (store_loop, here, nothing, no_syntax, lost, on, first, down)
                        (unstored c.1 c.2 (
                          IsUsable-msp lib c.1 null (reconnect-failed lib handle q.1 down)
                            null-usable))
                  | inl up ↦
                      rw (store_loop, here, nothing, no_syntax, lost, on, first, up)
                        (elim again [
                          | inl already ↦ absurd (false-ne (sym first ∙ already))
                          | inr next ↦ next c.1 c.2 (reconnect-opened lib handle q.1 up)
                        ])
                ]
              ]
            ]
          ]
        ]
      ]

  opened-Stores :
      (retry : Bool) (handle : Handle) (w : W)
      → handle.msp ≡ opened
      → Stores lib (store_loop lib retry 2 false handle w)
  opened-Stores retry handle w here =
      store_loop-Stores retry false 1 handle w here
        (inr (λ h v up. store_loop-Stores retry true 0 h v up (inl refl)))

  -- Whatever the client library answers, mysql_store_result on a handle whose connection is not
  -- closed always returns, and leaves such a handle; it returns NULL, or a result that the library
  -- has stored.
  pub mysql_store_result-Stores :
      (retry : Bool) (handle : Handle) (w : W)
      → IsUsable handle
      → Stores lib (mysql_store_result lib retry handle w)
  unfolding mysql_store_result IsUsable
  mysql_store_result-Stores retry handle w usable = elim (msp-cases lib handle.msp usable) [
    | inr here ↦ rw (mysql_store_result, here) (opened-Stores retry handle w here)
    | inl nothing ↦
        let d = mysql_conn lib handle w in
        elim (Bool-cases (is_zero d.ret)) [
          | inl ok ↦
              rw (mysql_store_result, nothing, ok)
                (opened-Stores retry d.handle d.world (conn-msp lib handle w ok))
          | inr off ↦
              rw (mysql_store_result, nothing, off)
                (unstored d.handle d.world (conn-IsUsable lib handle w usable))
        ]
  ]

  pub on_connection-IsUsable :
      (call : W → W) (handle : Handle) (w : W)
      → IsUsable handle
      → (d : Done W) × (on_connection lib call handle w ≡ some d) × IsUsable d.handle
  unfolding on_connection IsUsable
  on_connection-IsUsable call handle w usable = elim (msp-cases lib handle.msp usable) [
    | inr here ↦
        rw (on_connection, here)
          (record { ret = pos 0; handle = handle; world = call w }, refl, usable)
    | inl nothing ↦
        let d = mysql_conn lib handle w in
        let kept = conn-IsUsable lib handle w usable in
        elim (Bool-cases (is_zero d.ret)) [
          | inl ok ↦
              rw (on_connection, nothing, ok)
                (record { ret = pos 0; handle = d.handle; world = call d.world }, refl, kept)
          | inr off ↦
              rw (on_connection, nothing, off)
                (record { ret = negsuc 1; handle = d.handle; world = d.world }, refl, kept)
        ]
  ]
