-- ===== src/Mysql/Defs.antt =====
-- What the wrapper of the client library keeps, and the calls that it makes.
use libslave.Common.{ℕ, Bool, Bytes, List, ◌∷◌, Option}
use libslave.Common.Effects.{M, modify}

-- nanomysql.h's `mysql_conn_opts`.
pub record Options : Type 0 where
  pub mysql_host : Bytes
  pub mysql_port : ℕ
  pub mysql_db : Bytes
  pub mysql_user : Bytes
  pub mysql_pass : Bytes
  pub mysql_ssl_ca : Bytes
  pub mysql_ssl_cert : Bytes
  pub mysql_ssl_key : Bytes
  pub mysql_connect_timeout : ℕ
  pub mysql_read_timeout : ℕ
  pub mysql_write_timeout : ℕ

-- The calls on the client library, on pthread and on the mutex. A thread is a number; `none` is a
-- null pointer.
pub data Call : Type 0 where
  pthread_key_create pthread_key_delete mysql_library_init mysql_library_end : Call
  -- Whether the pointer is not null; whether the call succeeds.
  pthread_setspecific mysql_thread_init : (thread : ℕ) → Bool → Call
  mysql_thread_end : (thread : ℕ) → Call
  -- Whether the handle is not null.
  mysql_init : Bool → Call
  mysql_close lock unlock mysql_use_result mysql_free_result : Call
  mysql_opt_connect_timeout mysql_opt_read_timeout mysql_opt_write_timeout : ℕ → Call
  mysql_ssl_set : (key cert ca : Option Bytes) → Call
  mysql_real_connect : (host user passwd db : Bytes) → (port : ℕ) → Call
  mysql_real_query : Bytes → Call

-- MysqlGuard.h's `Local` of a thread, and what the thread keeps under the key: `specific` says that
-- it is not null.
pub record Local : Type 0 where
  pub m_needs_cleanup : Bool
  pub specific : Bool

-- The process: whether `sGlobal` stands, the threads whose `sLocal` stands, and the calls so far,
-- the last one first.
pub record Process : Type 0 where
  pub global : Bool
  pub locals : List (ℕ × Local)
  pub calls : List Call

unfoldable pub note : Call → Process → Process
note c p = record p { calls = c ∷ p.calls }

unfoldable pub emit : Call → M Process (Unit {0})
unfolding note
emit c = modify (note c)
