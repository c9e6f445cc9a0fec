-- ===== src/Position/Defs.antt =====
-- binlog_pos.h's `Position` with its short methods.
use libslave.Common.{
  ℕ, Bool, true, false, ◌&&◌, ◌||◌, Bytes, List, [], ◌∷◌, ◌==◌, ltb, leb, if◌then◌else◌, some, none,
  length,
}
use libslave.Common.Int.{eqb_ℤ}
use libslave.Common.Maps.{lookup, bytes_eq, string_eq}
use libslave.Gtid.Defs.{Interval, GtidSet, Gtid, add_gtid}

pub record Position : Type 0 where
  pub log_name : Bytes
  pub log_pos : ℕ
  pub gtid_executed : GtidSet

abbrev pub is_nil {ℓ} : {A : Type ℓ} → List A → Bool
is_nil [] = true
is_nil (x ∷ xs) = false

unfoldable pub empty : Position → Bool
empty p = (is_nil p.log_name || p.log_pos == 0) && is_nil p.gtid_executed

unfoldable pub cleared : Position
cleared = record { log_name = []; log_pos = 0; gtid_executed = [] }

unfoldable pub add_gtid_to : Gtid → Position → Position
unfolding add_gtid
add_gtid_to gtid p = record p { gtid_executed = add_gtid gtid p.gtid_executed }

-- `std::string`'s order: bytes as unsigned numbers, a prefix before what it begins.
abbrev pub bytes_lt : Bytes → Bytes → Bool
bytes_lt [] [] = false
bytes_lt [] (b ∷ t) = true
bytes_lt (a ∷ s) [] = false
bytes_lt (a ∷ s) (b ∷ t) = let rest = bytes_lt s t in ltb a b || (a == b && rest)

abbrev pub intervals_eq : List Interval → List Interval → Bool
intervals_eq [] [] = true
intervals_eq [] (b ∷ t) = false
intervals_eq (a ∷ s) [] = false
intervals_eq (a ∷ s) (b ∷ t) =
    eqb_ℤ a.first b.first && (eqb_ℤ a.second b.second && intervals_eq s t)

-- `==` of two `unordered_map`s: as many entries, and each of the one is in the other.
abbrev contained : GtidSet → GtidSet → Bool
unfolding lookup eqb_ℤ
contained [] t = true
contained ((sid, l) ∷ s) t =
    elim (lookup sid t) [ none ↦ false | some m ↦ intervals_eq l m ] && contained s t

unfoldable pub gtid_set_eq : GtidSet → GtidSet → Bool
unfolding lookup eqb_ℤ
gtid_set_eq s t = length s == length t && contained s t

unfoldable pub reached_other_pos : Position → Position → Bool
unfolding gtid_set_eq
reached_other_pos p other =
    if is_nil p.gtid_executed
    then bytes_lt other.log_name p.log_name
      || (bytes_eq p.log_name other.log_name && leb other.log_pos p.log_pos)
    else gtid_set_eq p.gtid_executed other.gtid_executed
