-- ===== src/Field.antt =====
-- field.h and field.cpp: the classes of columns, how each is made from its SQL type, and how each
-- takes its value out of a row image. dec_util.cpp: packed decimals.
pub mod Defs
pub mod Create
pub mod Temporal
pub mod Decimal
pub mod Unpack
pub mod Packed
pub mod Groups
pub mod Decimals
pub mod PackedDecimal
pub mod ReadBack
pub mod Images
pub mod RoundTrip
pub mod Enums
pub mod Shrinks
pub mod Types
pub mod Examples
