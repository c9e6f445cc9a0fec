-- ===== src/Remote/Examples.antt =====
-- A call of `get_remote_binlog`: a short transaction, a lost connection, and the interrupt flag.
use libslave.Common.{◌≡◌, refl, Bool, true, false, List, [], ◌∷◌, ok, some, none, arith}
use libslave.Wire.Laws.{plain}
use libslave.Field.Examples.{sample}
use libslave.Rows.Examples.{people}
use libslave.Slave.Connect.{Turn}
use libslave.Slave.Requests.{generate_slave_id}
use libslave.Slave.Synced.{InSync}
use libslave.Slave.Examples.{start, here, find_type, nobody, crc, gtid_packet, xid_packet}
use libslave.Remote.Defs.{Remote, connect}
use libslave.Remote.Binlog.{Round, Setting, get_remote_binlog, round}
use libslave.Remote.Counts.{IsClosed}
use libslave.Remote.Closed.{get_remote_binlog-IsClosed}
use libslave.Remote.Resume.{get_remote_binlog-InSync}
use libslave.Remote.Lost.{
  IsDangling, IsTwiceClosed, get_remote_binlog-no_handle, round-IsTwiceClosed,
}

abbrev before : Remote
before = record { session = start; m_slave_thread_id = 0; acts = [] }

abbrev setting : Bool → Setting
setting handle = record {
  thread = 9;
  slave_hosts = [];
  seed = 77;
  hostname = none;
  first = here;
  handle = handle;
  refuses = false;
}

abbrev of : Turn → Round
of t = record {
  turn = t;
  interrupted = false;
  mysql_errno = 2013;
  interrupted_there = false;
  handle = true;
}

abbrev rounds : List Round
rounds =
    of (record { now = 50; reply = some gtid_packet; connection = here })
    ∷ of (record { now = 51; reply = some xid_packet; connection = here })
    ∷ of (record { now = 52; reply = none; connection = here })
    ∷ []

abbrev stop : Round
stop = record (of (record { now = 53; reply = none; connection = here })) { interrupted = true }

abbrev all : List Round
all =
    of (record { now = 50; reply = some gtid_packet; connection = here })
    ∷ of (record { now = 52; reply = none; connection = here })
    ∷ stop
    ∷ []

abbrev end : Remote
unfolding get_remote_binlog
end = (get_remote_binlog people nobody sample crc find_type (setting true) all before).1

-- The call is left by the flag.
ends :
    get_remote_binlog people nobody sample crc find_type (setting true) all before
    ≡ (ok (some tt), end)
unfolding get_remote_binlog end plain
ends = refl

get_remote_binlog-InSync_example : InSync end.session
get_remote_binlog-InSync_example =
    get_remote_binlog-InSync people nobody sample crc find_type (setting true) all before end ends

get_remote_binlog-IsClosed_example : IsClosed end
unfolding end
get_remote_binlog-IsClosed_example =
    get_remote_binlog-IsClosed people nobody sample crc find_type (setting true) all refl
      (refl, (refl, (refl, tt))) before (refl, refl, refl) (rw ends tt)

get_remote_binlog-no_handle_example :
    IsDangling 9 (get_remote_binlog people nobody sample crc find_type (setting false) [] before)
get_remote_binlog-no_handle_example =
    get_remote_binlog-no_handle people nobody sample crc find_type (setting false) [] before 77 refl
      (λ h. omega arith) (unfold generate_slave_id in refl)

abbrev open_one : Remote
unfolding connect
open_one = (connect 9 false 100 true [] before).1

abbrev lost : Round
lost = record (of (record { now = 52; reply = none; connection = here })) { handle = false }

round-IsTwiceClosed_example :
    IsTwiceClosed (round people nobody sample crc find_type 9 lost open_one)
unfolding open_one
round-IsTwiceClosed_example =
    round-IsTwiceClosed people nobody sample crc find_type 9 lost open_one (refl, refl, refl) refl
      refl refl
