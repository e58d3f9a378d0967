-- ===== src/Mysql/Tests.antt =====
-- mysql_api/mysql_api.c: runs with a library that counts its calls.
use carrots.Base.{ℕ, ◌+◌, ◌≡◌, refl, [], ◌∷◌, none, some, true, false, ◌>>=◌}
use carrots.Base.Int.{pos}
use carrots.Mysql.{
  opened, Handle, Library, mysql_conn, conn_done, timeout_of, is_zero, new_handle, is_syntax,
  is_lost, reconnect, query_loop, mysql_query, mysql_store_result, mysql_destroy, mysql_init,
}
use carrots.Mysql.Calls.{IsUsable, Answered, mysql_query-Answered, opened-usable}
use carrots.Mysql.Session.{Stores, mysql_store_result-Stores}
use carrots.Mysql.Whole.{query, store, session, session-destroy}

-- Every call counts; the server is always gone.
abbrev gone_library : Library ℕ ℕ
gone_library = record {
  init = λ w. (true, w + 1);
  set_timeout = λ w t. (true, w + 1);
  set_charset = λ w. (true, w + 1);
  real_connect = λ w h. (true, w + 1);
  autocommit = λ w. w;
  close = λ w. w;
  real_query = λ w sql. (false, w + 1);
  store_result = λ w. (none, w + 1);
  set_option = λ w n. w;
  set_server_option = λ w n. w;
  errno = λ w. 2006;
  error_first = 1000;
  error_last = 1880;
  server_gone = 2006;
  server_lost = 2013;
}

abbrev connected : Handle
connected = record {
  msp = opened;
  db_host = [];
  db_user = [];
  db_pass = [];
  db_name = [];
  db_port = 3306;
  db_conn_timeout = 0;
}

-- The query was lost twice, and 0 is returned.
gone_returns_zero :
    (mysql_query gone_library [] true connected 0 >>= λ d. some (d.ret)) ≡ some (pos 0)
unfolding mysql_query query_loop reconnect mysql_conn conn_done is_zero is_syntax is_lost timeout_of
gone_returns_zero = refl

connected-IsUsable : IsUsable connected
unfolding IsUsable
connected-IsUsable = opened-usable

mysql_query-Answered_example :
    Answered gone_library (1 ∷ []) (mysql_query gone_library (1 ∷ []) true connected 0)
mysql_query-Answered_example =
    mysql_query-Answered gone_library (1 ∷ []) true connected 0 connected-IsUsable

mysql_store_result-Stores_example :
    Stores gone_library (mysql_store_result gone_library true connected 0)
mysql_store_result-Stores_example =
    mysql_store_result-Stores gone_library true connected 0 connected-IsUsable

init_connects : (mysql_init gone_library true [] [] [] [] 3306 0 0).0 ≡ some connected
unfolding mysql_init mysql_conn conn_done is_zero new_handle timeout_of
init_connects = refl

session-destroy_example :
    (after : Handle × ℕ) × (last : ℕ) × (session gone_library
        (query [] true ∷ store true ∷ query [] false ∷ [])
        connected
        (mysql_init gone_library true [] [] [] [] 3306 0 0).1
      ≡ some after)
    × (mysql_destroy gone_library after.0 after.1 ≡ some last)
session-destroy_example =
    session-destroy gone_library true [] [] [] [] 3306 0 0 connected
      (query [] true ∷ store true ∷ query [] false ∷ []) init_connects
