-- ===== src/Mysql/Examples.antt =====
-- A process that connects twice, and a result of two rows.
use libslave.Common.{◌+◌, ◌≡◌, refl, true, List, [], ◌∷◌, ◌++◌, none, some, codes, map}
use libslave.Common.Maps.{lookup, string_eq}
use libslave.Common.Effects.{M}
use libslave.Mysql.Defs.{Options, Process, note, emit, mysql_use_result, mysql_free_result}
use libslave.Mysql.Guard.{
  Answers, begin, init_called, thread_ended, local_gone, process_ended, Event, run, local_destroyed,
}
use libslave.Mysql.Count.{IsBalanced, count_calls, is_thread_init, is_thread_end}
use libslave.Mysql.Balance.{run-thread_end}
use libslave.Mysql.Connection.{Diagnosis, Attempt, construct, query, with_connection}
use libslave.Mysql.Closed.{closes, returned, with_connection-mysql_close}
use libslave.Mysql.Result.{ResultSet, fetch_ended, store}
use libslave.Mysql.Rows.{row_of, IsDistinct, store-row_of}

abbrev fine : Answers
fine = record { key_created = 0; library_ready = 0; specific_set = 0; thread_ready = 0 }

abbrev failing : Answers
failing = record fine { thread_ready = 1 }

abbrev events : List Event
events =
    init_called 1 failing
    ∷ init_called 1 fine
    ∷ init_called 2 fine
    ∷ thread_ended 2
    ∷ local_gone 2
    ∷ init_called 1 fine
    ∷ local_gone 1
    ∷ thread_ended 1
    ∷ process_ended
    ∷ []

run-thread_end_example :
    IsBalanced 2 (run events begin)
    × (count_calls (is_thread_init 2) (local_destroyed 2 (run events begin)).calls
        ≡ count_calls (is_thread_end 2) (local_destroyed 2 (run events begin)).calls)
run-thread_end_example = run-thread_end 2 events

abbrev options : Options
options = record {
  mysql_host = codes "db1";
  mysql_port = 3306;
  mysql_db = [];
  mysql_user = codes "repl";
  mysql_pass = codes "x";
  mysql_ssl_ca = [];
  mysql_ssl_cert = [];
  mysql_ssl_key = [];
  mysql_connect_timeout = 10;
  mysql_read_timeout = 900;
  mysql_write_timeout = 900;
}

abbrev denied : Diagnosis
denied = record { mysql_error = codes "Access denied"; mysql_errno = 1045 }

abbrev refusing : Attempt
refusing = record { guard = fine; has_handle = true; refusal = some denied }

abbrev asking : M Process (Unit {0})
unfolding query
asking = query none (codes "SELECT VERSION()")

with_connection-mysql_close_example :
    closes (with_connection 1 options refusing asking begin).1
    ≡ closes begin + returned (construct 1 options refusing begin).0
unfolding query emit note
with_connection-mysql_close_example =
    with_connection-mysql_close 1 options refusing asking begin (λ q. refl)

abbrev charsets : ResultSet
charsets = record {
  num_fields = 2;
  columns = (codes "Charset", 253) ∷ (codes "Maxlen", 8) ∷ [];
  rows = (codes "utf8" ∷ codes "3" ∷ []) ∷ (codes "latin1" ∷ codes "1" ∷ []) ∷ [];
  failure = none;
}

charsets-IsDistinct : IsDistinct charsets.columns
unfolding lookup
charsets-IsDistinct = (refl, (refl, tt))

store-row_of_example : store denied (some charsets) (begin, []) ≡ (
  fetch_ended charsets.failure,
  (
    note mysql_free_result (note mysql_use_result begin),
    [] ++ map (row_of charsets.columns) charsets.rows,
  ),
)
store-row_of_example =
    store-row_of denied charsets begin [] refl charsets-IsDistinct (refl, (refl, tt))
