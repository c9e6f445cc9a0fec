-- ===== src/Field/Packed.antt =====
-- The packed dates and times of MySQL 5.6.4, field by field.
use libslave.Common.{ℕ, ◌+◌, ◌-◌, ◌*◌, ◌^◌, ◌≤◌, ◌<◌, ◌≡◌, arith}
use libslave.Common.Int.{pos, neg}
use libslave.Field.Temporal.{datetime_of, time_of}

-- The 40 bits of a `DATETIME`, below whatever stands above them in the word.
abbrev pub pack_datetime : (above year month day hour minute second : ℕ) → ℕ
pack_datetime above year month day hour minute second =
    ((((above * 2 ^ 17 + (year * 13 + month)) * 32 + day) * 32 + hour) * 64 + minute) * 64 + second

-- For a year up to 9999, a month up to 12 and other parts within their bits, `Field_datetime::unpack`
-- turns the packed parts into the digits YYYYMMDDhhmmss, whatever the sign bit and the bytes of the word that it never writes hold.
pub datetime_of-pack_datetime :
    (above year month day hour minute second : ℕ)
    → year ≤ 9999
    → month ≤ 12
    → day < 32
    → hour < 32
    → minute < 64
    → second < 64
    → datetime_of (pack_datetime above year month day hour minute second)
      ≡ year * 10000000000
        + month * 100000000
        + day * 1000000
        + hour * 10000
        + minute * 100
        + second
unfolding datetime_of
datetime_of-pack_datetime above year month day hour minute second y m d h mi s = omega arith

-- A `TIME` is stored around 2^23.
abbrev pub pack_time : (hour minute second : ℕ) → ℕ
pack_time hour minute second = (hour * 64 + minute) * 64 + second

-- `Field_time::unpack` turns a packed time other than zero, of up to 838 hours, into hhhmmss, with the
-- sign of the time.
pub time_of-pack_time :
    (hour minute second : ℕ)
    → hour ≤ 838
    → minute < 64
    → second < 64
    → 0 < pack_time hour minute second
    → (time_of (2 ^ 23 + pack_time hour minute second) ≡ pos (hour * 10000 + minute * 100 + second))
      × (time_of (2 ^ 23 - pack_time hour minute second)
          ≡ neg (pos (hour * 10000 + minute * 100 + second)))
unfolding time_of
time_of-pack_time hour minute second h m s z = (ground arith, ground arith)

pub positive_time_of :
    (hour minute second : ℕ)
    → hour ≤ 838
    → minute < 64
    → second < 64
    → time_of (2 ^ 23 + pack_time hour minute second) ≡ pos (hour * 10000 + minute * 100 + second)
unfolding time_of
positive_time_of hour minute second h m s = ground arith
