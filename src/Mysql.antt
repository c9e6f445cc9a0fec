-- ===== src/Mysql.antt =====
-- nanomysql.h and MysqlGuard.h: the wrapper of the client library.
pub mod Defs
pub mod Guard
pub mod Count
pub mod Balance
pub mod Connection
pub mod Result
pub mod Rows
pub mod Closed
pub mod Examples
