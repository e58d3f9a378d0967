-- ===== src/Mysql/Calls.antt =====
-- mysql_api/mysql_api.c: the calls end, and what their results say.
use carrots.Base.{
  ℕ, suc, ◌≡◌, ◌≢◌, refl, sym, ap, ◌∙◌, inl, inr, List, Option, some, Bool, true, false, Bool-cases,
  false-ne, ◌⊎◌,
}
use carrots.Base.Int.{pos, negsuc}
use carrots.Mysql.{
  Msp, null, opened, closed, Handle, Library, Done, mysql_conn, conn_done, timeout_of, is_zero,
  is_syntax, is_lost, reconnect, query_loop, mysql_query,
}

-- A handle whose connection is not closed behind its back.
unfoldable pub IsUsable : Handle → Type 0
IsUsable handle = handle.msp ≢ closed

pub opened-usable : opened ≢ closed
opened-usable e = cc

pub null-usable : null ≢ closed
null-usable e = cc

-- What the return value of a query says.
pub data Answer {W R : Type 0} (lib : Library W R) (sql : List ℕ) (d : Done W) : Type 0 where
  executed : (v : W) → lib.real_query v sql ≡ (true, d.world) → d.ret ≡ pos 0 → Answer lib sql d
  gone :
      (v : W)
      → lib.real_query v sql ≡ (false, d.world)
      → is_lost lib (lib.errno d.world) ≡ true
      → d.ret ≡ pos 0
      → Answer lib sql d
  refused :
      (v : W)
      → lib.real_query v sql ≡ (false, d.world)
      → is_syntax lib (lib.errno d.world) ≡ true
      → d.ret ≡ pos (lib.errno d.world)
      → Answer lib sql d
  failed :
      (v : W)
      → lib.real_query v sql ≡ (false, d.world)
      → is_syntax lib (lib.errno d.world) ≡ false
      → is_lost lib (lib.errno d.world) ≡ false
      → d.ret ≡ negsuc 0
      → Answer lib sql d
  lost_for_good :
      (v v₁ : W) (handle : Handle)
      → lib.real_query v sql ≡ (false, v₁)
      → is_syntax lib (lib.errno v₁) ≡ false
      → is_lost lib (lib.errno v₁) ≡ true
      → reconnect lib handle v₁ ≡ (false, d.handle, d.world)
      → d.ret ≡ negsuc 0
      → Answer lib sql d
  unconnected :
      (v : W) (handle : Handle)
      → handle.msp ≡ null
      → is_zero (mysql_conn lib handle v).ret ≡ false
      → (mysql_conn lib handle v).handle ≡ d.handle
      → (mysql_conn lib handle v).world ≡ d.world
      → d.ret ≡ negsuc 0
      → Answer lib sql d

pub record Answered {W R : Type 0} (lib : Library W R) (sql : List ℕ) (result : Option (Done W))
    : Type 0 where
  pub done : Done W
  pub ends : result ≡ some done
  pub usable : IsUsable done.handle
  pub answer : Answer lib sql done

module _ {W R : Type 0} (lib : Library W R) where
  -- After `_mysql_conn`: a connection when it returned 0, and else not one that it has closed.
  done-msp :
      (a b c e : Bool) (handle : Handle) (w₁ w₂ w₃ w₄ : W)
      → is_zero (conn_done lib a b c e handle w₁ w₂ w₃ w₄).ret ≡ true
      → (conn_done lib a b c e handle w₁ w₂ w₃ w₄).handle.msp ≡ opened
  unfolding conn_done is_zero
  done-msp false b c e handle w₁ w₂ w₃ w₄ ok = absurd (false-ne ok)
  done-msp true false c e handle w₁ w₂ w₃ w₄ ok = absurd (false-ne ok)
  done-msp true true false e handle w₁ w₂ w₃ w₄ ok = absurd (false-ne ok)
  done-msp true true true false handle w₁ w₂ w₃ w₄ ok = absurd (false-ne ok)
  done-msp true true true true handle w₁ w₂ w₃ w₄ ok = refl

  done-IsUsable :
      (a b c e : Bool) (handle : Handle) (w₁ w₂ w₃ w₄ : W)
      → IsUsable handle
      → IsUsable (conn_done lib a b c e handle w₁ w₂ w₃ w₄).handle
  unfolding conn_done IsUsable
  done-IsUsable false b c e handle w₁ w₂ w₃ w₄ h = h
  done-IsUsable true false c e handle w₁ w₂ w₃ w₄ h = h
  done-IsUsable true true false e handle w₁ w₂ w₃ w₄ h = h
  done-IsUsable true true true false handle w₁ w₂ w₃ w₄ h = null-usable
  done-IsUsable true true true true handle w₁ w₂ w₃ w₄ h = opened-usable

  pub conn-msp :
      (handle : Handle) (w : W)
      → is_zero (mysql_conn lib handle w).ret ≡ true
      → (mysql_conn lib handle w).handle.msp ≡ opened
  unfolding mysql_conn
  conn-msp handle w ok =
      let w₁ = (lib.init w).1 in
      let w₂ = (lib.set_timeout w₁ (timeout_of handle)).1 in
      let w₃ = (lib.set_charset w₂).1 in
      done-msp (lib.init w).0 (lib.set_timeout w₁ (timeout_of handle)).0 (lib.set_charset w₂).0
        (lib.real_connect w₃ (record handle { msp = opened })).0 handle w₁ w₂ w₃
        (lib.real_connect w₃ (record handle { msp = opened })).1 ok

  pub conn-IsUsable :
      (handle : Handle) (w : W) → IsUsable handle → IsUsable (mysql_conn lib handle w).handle
  unfolding mysql_conn
  conn-IsUsable handle w h =
      let w₁ = (lib.init w).1 in
      let w₂ = (lib.set_timeout w₁ (timeout_of handle)).1 in
      let w₃ = (lib.set_charset w₂).1 in
      done-IsUsable (lib.init w).0 (lib.set_timeout w₁ (timeout_of handle)).0 (lib.set_charset w₂).0
        (lib.real_connect w₃ (record handle { msp = opened })).0 handle w₁ w₂ w₃
        (lib.real_connect w₃ (record handle { msp = opened })).1 h

  pub reconnect-opened :
      (handle : Handle) (w : W)
      → (reconnect lib handle w).0 ≡ true
      → (reconnect lib handle w).1.msp ≡ opened
  unfolding reconnect
  reconnect-opened handle w ok = rw ok (conn-msp (record handle { msp = closed }) (lib.close w) ok)

  pub reconnect-failed :
      (handle : Handle) (w : W)
      → (reconnect lib handle w).0 ≡ false
      → (reconnect lib handle w).1.msp ≡ null
  unfolding reconnect
  reconnect-failed handle w off = rw off refl

  pub IsUsable-msp : (handle : Handle) (m : Msp) → handle.msp ≡ m → m ≢ closed → IsUsable handle
  unfolding IsUsable
  IsUsable-msp handle m is ne = λ e. ne (sym is ∙ e)

  -- The loop of the query; `retry_flag` is set, or the next round answers.
  query_loop-Answered :
      (sql : List ℕ) (retry flag : Bool) (fuel : ℕ) (handle : Handle) (w : W)
      → handle.msp ≡ opened
      → ((flag ≡ true)
          ⊎ ((h : Handle) (v : W)
              → h.msp ≡ opened
              → Answered lib sql (query_loop lib sql retry fuel true h v)))
      → Answered lib sql (query_loop lib sql retry (suc fuel) flag handle w)
  unfolding query_loop
  query_loop-Answered sql retry flag fuel handle w here again =
      let q = lib.real_query w sql in
      let err = lib.errno q.1 in
      let c = reconnect lib handle q.1 in
      let good = IsUsable-msp handle opened here opened-usable in
      elim (Bool-cases q.0) [
        | inl worked ↦
            rw (query_loop, here, worked)
              (record {
                done = record { ret = pos 0; handle = handle; world = q.1 };
                ends = refl;
                usable = good;
                answer = executed w (ap (λ b. (b, q.1)) worked) refl;
              })
        | inr bad ↦
            let failing : q ≡ (false, q.1) = ap (λ b. (b, q.1)) bad in
            elim (Bool-cases (is_syntax lib err)) [
              | inl syntax ↦
                  rw (query_loop, here, bad, syntax)
                    (record {
                      done = record { ret = pos err; handle = handle; world = q.1 };
                      ends = refl;
                      usable = good;
                      answer = refused w failing syntax refl;
                    })
              | inr no_syntax ↦ elim (Bool-cases (is_lost lib err)) [
                | inr other ↦
                    rw (query_loop, here, bad, no_syntax, other)
                      (record {
                        done = record { ret = negsuc 0; handle = handle; world = q.1 };
                        ends = refl;
                        usable = good;
                        answer = failed w failing no_syntax other refl;
                      })
                | inl lost ↦ elim (Bool-cases retry) [
                  | inr off ↦
                      rw (query_loop, here, bad, no_syntax, lost, off)
                        (record {
                          done = record { ret = pos 0; handle = handle; world = q.1 };
                          ends = refl;
                          usable = good;
                          answer = gone w failing lost refl;
                        })
                  | inl on ↦ elim (Bool-cases flag) [
                    | inl set_already ↦
                        rw (query_loop, here, bad, no_syntax, lost, on, set_already)
                          (record {
                            done = record { ret = pos 0; handle = handle; world = q.1 };
                            ends = refl;
                            usable = good;
                            answer = gone w failing lost refl;
                          })
                    | inr first ↦ elim (Bool-cases c.0) [
                      | inr down ↦
                          rw (query_loop, here, bad, no_syntax, lost, on, first, down)
                            (record {
                              done = record { ret = negsuc 0; handle = c.1; world = c.2 };
                              ends = refl;
                              usable =
                                  IsUsable-msp c.1 null (reconnect-failed handle q.1 down)
                                    null-usable;
                              answer =
                                  lost_for_good w q.1 handle failing no_syntax lost
                                    (ap (λ b. (b, c.1, c.2)) down) refl;
                            })
                      | inl up ↦
                          rw (query_loop, here, bad, no_syntax, lost, on, first, up)
                            (elim again [
                              | inl already ↦ absurd (false-ne (sym first ∙ already))
                              | inr next ↦ next c.1 c.2 (reconnect-opened handle q.1 up)
                            ])
                    ]
                  ]
                ]
              ]
            ]
      ]

  opened-Answered :
      (sql : List ℕ) (retry : Bool) (handle : Handle) (w : W)
      → handle.msp ≡ opened
      → Answered lib sql (query_loop lib sql retry 2 false handle w)
  opened-Answered sql retry handle w here =
      query_loop-Answered sql retry false 1 handle w here
        (inr (λ h v up. query_loop-Answered sql retry true 0 h v up (inl refl)))

  pub msp-cases : (m : Msp) → m ≢ closed → (m ≡ null) ⊎ (m ≡ opened)
  msp-cases null ne = inl refl
  msp-cases opened ne = inr refl
  msp-cases closed ne = absurd (ne refl)

  -- Whatever the client library answers, mysql_query on a handle whose connection is not closed
  -- always returns, and leaves such a handle. Its value is 0 only when the last query was executed
  -- or was lost with the connection; the error number only when the server refused the query; and
  -- -1 only when the query failed for another reason, when the lost connection could not be opened
  -- again, or when the handle had no connection and none could be opened.
  pub mysql_query-Answered :
      (sql : List ℕ) (retry : Bool) (handle : Handle) (w : W)
      → IsUsable handle
      → Answered lib sql (mysql_query lib sql retry handle w)
  unfolding mysql_query IsUsable
  mysql_query-Answered sql retry handle w usable = elim (msp-cases handle.msp usable) [
    | inr here ↦ rw (mysql_query, here) (opened-Answered sql retry handle w here)
    | inl nothing ↦
        let d = mysql_conn lib handle w in
        elim (Bool-cases (is_zero d.ret)) [
          | inl ok ↦
              rw (mysql_query, nothing, ok)
                (opened-Answered sql retry d.handle d.world (conn-msp handle w ok))
          | inr off ↦
              rw (mysql_query, nothing, off)
                (record {
                  done = record { ret = negsuc 0; handle = d.handle; world = d.world };
                  ends = refl;
                  usable = conn-IsUsable handle w usable;
                  answer = unconnected w handle nothing off refl refl refl;
                })
        ]
  ]
