-- ===== src/Mysql/Connection.antt =====
-- nanomysql.h's `Connection`.
use libslave.Common.{
  ℕ, Bool, ltb, Bytes, [], ◌∷◌, ◌++◌, Option, none, some, Outcome, ok, throws, if◌then◌else◌, codes,
  no_handle, client_failed,
}
use libslave.Common.Int.{signed}
use libslave.Common.Maps.{string_eq}
use libslave.Common.Effects.{M, ◌>>=◌, ◌>>◌, lift, when}
use libslave.Position.Defs.{is_nil}
use libslave.Position.Text.{to_string}
use libslave.Mysql.Defs.{
  Options, Call, Process, note, emit, mysql_init, mysql_close, lock, unlock,
  mysql_opt_connect_timeout, mysql_opt_read_timeout, mysql_opt_write_timeout, mysql_ssl_set,
  mysql_real_connect, mysql_real_query,
}
use libslave.Mysql.Guard.{Answers, init}

-- What `mysql_error` and `mysql_errno` answer.
pub record Diagnosis : Type 0 where
  pub mysql_error : Bytes
  pub mysql_errno : ℕ

-- `throw_error`: `%d` prints the number as an `int`.
unfoldable pub error_message : Diagnosis → Bytes → Bytes → Bytes
unfolding to_string
error_message d msg m2 =
    msg
    ++ (codes ": "
        ++ (d.mysql_error
            ++ (codes " : "
                ++ (to_string (signed 32 d.mysql_errno)
                    ++ (if is_nil m2 then [] else codes " : [" ++ (m2 ++ codes "]"))))))

unfoldable pub throw_error {ℓ} : {A : Type ℓ} → Diagnosis → Bytes → Bytes → Outcome A
unfolding error_message
throw_error d msg m2 = throws (client_failed (error_message d msg m2))

abbrev or_null : Bytes → Option Bytes
or_null [] = none
or_null (c ∷ s) = some (c ∷ s)

-- A timeout of 0 is none.
unfoldable pub set_timeout : (ℕ → Call) → ℕ → M Process (Unit {0})
unfolding emit
set_timeout option seconds = when (ltb 0 seconds) (emit (option seconds))

-- `setOptions`
unfoldable pub set_options : Options → M Process (Unit {0})
unfolding set_timeout emit
set_options o = do
  set_timeout mysql_opt_connect_timeout o.mysql_connect_timeout
  set_timeout mysql_opt_read_timeout o.mysql_read_timeout
  set_timeout mysql_opt_write_timeout o.mysql_write_timeout
  emit (mysql_ssl_set (or_null o.mysql_ssl_key) (or_null o.mysql_ssl_cert) (or_null o.mysql_ssl_ca))

-- What a connection's library calls answer: the guard's, whether `mysql_init` gives a handle, and
-- why `mysql_real_connect` fails, if it does.
pub record Attempt : Type 0 where
  pub guard : Answers
  pub has_handle : Bool
  pub refusal : Option Diagnosis

-- `mysql_safe_init`
unfoldable pub safe_init : ℕ → Attempt → M Process (Unit {0})
unfolding init emit
safe_init thread a = init thread a.guard >>= (λ _. emit (mysql_init a.has_handle))

-- `mysql_safe_connect`: `mysql_real_connect` under the lock.
unfoldable pub safe_connect : Options → M Process (Unit {0})
unfolding emit
safe_connect o = do
  emit lock
  emit (mysql_real_connect o.mysql_host o.mysql_user o.mysql_pass o.mysql_db o.mysql_port)
  emit unlock

abbrev pub refused : Option Diagnosis → Outcome (Unit {0})
unfolding throw_error
refused none = ok tt
refused (some d) = throw_error d (codes "Could not mysql_real_connect()") []

-- `Connection(opts)`, by `connect`.
unfoldable pub construct : ℕ → Options → Attempt → M Process (Unit {0})
unfolding safe_init set_options safe_connect throw_error
construct thread o a =
    safe_init thread a
    >>= (λ _. lift (if a.has_handle then ok tt else throws no_handle))
    >>= (λ _. set_options o)
    >>= (λ _. safe_connect o)
    >>= (λ _. lift (refused a.refusal))

-- A destructor behind a call: it also runs where the call throws.
unfoldable pub finally : {A : Type 0} → Call → M Process A → M Process A
unfolding note
finally c m p = let (r, q) = m p in (r, note c q)

-- A `Connection` in a block: `~Connection` runs only where the constructor has returned.
unfoldable pub with_connection : {A : Type 0} → ℕ → Options → Attempt → M Process A → M Process A
unfolding construct finally
with_connection thread o a body = construct thread o a >>= (λ _. finally mysql_close body)

-- `query`
unfoldable pub query : Option Diagnosis → Bytes → M Process (Unit {0})
unfolding emit throw_error
query answer q = emit (mysql_real_query q) >>= (λ _.
    lift (elim answer [ none ↦ ok tt | some d ↦ throw_error d (codes "mysql_query() failed") q ]))
