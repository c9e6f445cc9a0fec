-- ===== src/Lib.antt =====
-- libslave: a client of MySQL replication. It connects to a master as a slave, asks for the binary
-- log from a position on, decodes the events of the log, and calls the user back for the rows of the
-- tables that the user named. This library models the client's own logic.
--
-- The parts of the program, and the modules that model them:
--   * Gtid, Position: binlog_pos.h and binlog_pos.cpp. `Position` is the place in the log and the set
--     of executed GTIDs; Gtid/Defs models `addGtid`, Position/Defs the short methods, Position/Encode
--     `hex2bin`, `encodedGtidSize` and `encodeGtid`, Position/Text `str` and `parseGtid`.
--   * Field: field.h, field.cpp, dec_util.h, dec_util.cpp and the values of types.h. A class of column
--     is a constructor of `Kind`; Field/Create models the constructors, Field/Temporal `reset` and the
--     packed dates, Field/Unpack `unpack` of each class, Field/Decimal `bin2dec` and `dec2dbl`.
--   * Table: table.h, recordset.h and relayloginfo.h: a table with its filter, the rows that the user
--     gets, the names of tables by id.
--   * Event: slave_log_event.h and the first half of slave_log_event.cpp: the header of an event, the
--     records that events are parsed into, and `read_log_event` with its checks.
--   * Rows: the second half of slave_log_event.cpp: `unpack_row`, `do_writedelete_row`,
--     `do_update_row`, `apply_row_event`.
--   * State: SlaveStats.h and DefaultExtState.h: what the client keeps of the replication.
--   * Slave: Slave.h, Slave.cpp and collate.cpp. Slave/Defs is the object, Slave/Schema `createTable`
--     and `readCollateMap`, Slave/Query `checkAlterOrCreateQuery`, Slave/Process `process_event`,
--     Slave/Requests the commands that are sent, Slave/Checks the queries on the master, Slave/Loop
--     and Slave/Connect `get_remote_binlog`.
--   * Remote: Slave.cpp's `raii_mysql_connector`, `close_connection` and the whole of
--     `get_remote_binlog`. Remote/Defs is the connector, Remote/Binlog the call with its interrupt flag,
--     its handler and the jump to `connected`; the work on packets is that of Slave/Loop.
--   * Mysql: nanomysql.h, MysqlGuard.h and nanofield.h: Mysql/Guard is the initialisation of the client
--     library in a process and its threads, Mysql/Connection `Connection`, Mysql/Result `use` and
--     `store`.
--   * Common holds the shared names: outcomes, integers over the native numbers, maps, the monad of
--     calls that change a state. Clib models the functions of the C library that the code calls.
--
-- How the parts interact: `get_remote_binlog` reads a packet, `read_log_event` checks it, the loop
-- updates the position from XID, rotate and GTID events, and `process_event` hands table maps to the
-- relay log information and row events to `apply_row_event`, which unpacks rows column by column and
-- calls back.
--
-- Conventions. A C++ pointer into a packet is the list of bytes from it to the end of the packet, and
-- a read behind that end is the outcome `fault`, which C++ leaves undefined; an exception is `throws`.
-- Words have 32 or 64 bits as on a 64-bit Linux, and `char` is signed. Calls that leave the program
-- (callbacks, listeners) are recorded in order; `ext_state` is a `DefaultExtState`, whose members change.
-- The numbers of GTIDs are integers without a bound, which those of `int64_t` are up to its ends.
--
-- Parameters. The macros of the MySQL headers are the record `Wire`, with their documented byte order
-- in `IsLittleEndian`; `plain` is a wire that has it. `crc32`, `decimal_make_zero`, the arithmetic of
-- doubles, `find_type`, what `time` answers, and the answers of the client library, of pthread and of the master are
-- arguments.
--
-- Fuel. `apply_rows` takes one more than the bytes of the event: a row with a column takes a byte or
-- more. `first_free` takes one more than the ids in use. `to_string` has 20 digits, which is enough
-- for 64 bits.
--
-- Not modelled: the client library and pthread themselves, whose answers are arguments and whose calls
-- are recorded; the conversion operator of nanofield.h's `field`; what a signal does to the thread
-- that reads, beyond a lost connection; logging, the tests.
pub mod Common
pub mod Gtid
pub mod Wire
pub mod Clib
pub mod Field
pub mod Table
pub mod Event
pub mod Rows
pub mod Position
pub mod State
pub mod Mysql
pub mod Slave
pub mod Remote
