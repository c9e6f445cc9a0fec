-- ===== src/Position/Content.antt =====
-- What the bytes of `Position::encodeGtid` say to a master, which reads a number of servers, and for
-- each its id, a number of intervals, and the intervals, half open.
use libslave.Common.{
  ℕ, zero, suc, ◌+◌, ◌^◌, ◌%◌, ◌<◌, ◌≡◌, refl, ap, sym, ◌∙◌, arith, Bytes, All, List, [], ◌∷◌, ◌++◌,
  length, take, drop, take-append, Outcome, ok,
}
use libslave.Common.Int.{pos, inc, dec}
use libslave.Wire.{Wire, IsLittleEndian, le}
use libslave.Wire.Laws.{length-le_bytes, le-le_bytes}
use libslave.Gtid.Defs.{Interval, GtidSet}
use libslave.Event.Headers.{bin2hex}
use libslave.Event.Pieces.{drop-front, drop-drop}
use libslave.Position.Encode.{hex2bin, encode_intervals, encode_entries, encode_gtid}
use libslave.Position.Hex.{hex2bin-bin2hex, IsSid, sid}
use mathlib.Core.List.{append_assoc}

-- The master's reading of the command.
pub read_intervals : ℕ → Bytes → List Interval × Bytes
read_intervals zero p = ([], p)
read_intervals (suc n) p =
    let (l, q) = read_intervals n (drop 16 p) in
    (record { first = pos (le 8 p); second = dec (pos (le 8 (drop 8 p))) } ∷ l, q)

pub read_entries : ℕ → Bytes → GtidSet × Bytes
read_entries zero p = ([], p)
read_entries (suc n) p =
    let (l, q) = read_intervals (le 8 (drop 16 p)) (drop 24 p) in
    let (s, r) = read_entries n q in ((bin2hex (take 16 p), l) ∷ s, r)

pub read_gtids : Bytes → GtidSet × Bytes
read_gtids p = read_entries (le 8 p) (drop 8 p)

-- An interval of numbers that 64 bits hold with their sign.
pub data IsSent : Interval → Type 0 where
  sent : (a b : ℕ) → a < 2 ^ 63 → b + 1 < 2 ^ 63 → IsSent (record { first = pos a; second = pos b })

abbrev pub AreSent : GtidSet → Type 0
AreSent [] = Unit {0}
AreSent ((s, l) ∷ rest) = IsSid s × (length l < 2 ^ 64) × All IsSent l × AreSent rest

inc_pos : (b : ℕ) → inc (pos b) ≡ pos (b + 1)
unfolding inc
inc_pos b = ground arith

dec_pos : (b : ℕ) → dec (pos (b + 1)) ≡ pos b
unfolding dec
dec_pos b = ground arith

read_step :
    (n : ℕ) (p q : Bytes) (a b : ℕ) (l : List Interval) (rest : Bytes)
    → le 8 p ≡ a
    → le 8 (drop 8 p) ≡ b + 1
    → drop 16 p ≡ q
    → read_intervals n q ≡ (l, rest)
    → read_intervals (suc n) p ≡ (record { first = pos a; second = pos b } ∷ l, rest)
unfolding read_intervals
read_step n p q a b l rest first second behind more =
    rw (first, second, behind, more, dec_pos b) refl

module _ (w : Wire) (law : IsLittleEndian w) where
  stored : (v : ℕ) (rest : Bytes) → v < 2 ^ 64 → le 8 (w.int8store v ++ rest) ≡ v
  stored v rest h = rw (law.int8store_le v) (le-le_bytes 8 v rest h)

  behind : (v : ℕ) (rest : Bytes) → drop 8 (w.int8store v ++ rest) ≡ rest
  behind v rest = drop-front 8 (w.int8store v) rest (rw (law.int8store_le v) (length-le_bytes 8 v))

  -- Two numbers in front.
  two :
      (u v : ℕ) (rest : Bytes)
      → u < 2 ^ 64
      → v < 2 ^ 64
      → let p = w.int8store u ++ (w.int8store v ++ rest) in
        (le 8 p ≡ u) × (le 8 (drop 8 p) ≡ v) × (drop 16 p ≡ rest)
  two u v rest hu hv =
      let skip = behind u (w.int8store v ++ rest) in
      (
        stored u (w.int8store v ++ rest) hu,
        ap (le 8) skip ∙ stored v rest hv,
        drop-drop 8 8 (w.int8store u ++ (w.int8store v ++ rest)) ∙ ap (drop 8) skip ∙ behind v rest,
      )

  read_intervals-encode_intervals :
      (l : List Interval) (rest : Bytes)
      → All IsSent l
      → read_intervals (length l) (encode_intervals w l ++ rest) ≡ (l, rest)
  unfolding read_intervals encode_intervals
  read_intervals-encode_intervals [] rest h = refl
  read_intervals-encode_intervals (_ ∷ l) rest (sent a b ha hb, h) =
      let tail = encode_intervals w l in
      let (low, high, behind) =
        two (a % 2 ^ 64) ((b + 1) % 2 ^ 64) (tail ++ rest) (omega arith) (omega arith) in
      rw
        (
          inc_pos b,
          append_assoc (w.int8store (a % 2 ^ 64)) (w.int8store ((b + 1) % 2 ^ 64) ++ tail) rest,
          append_assoc (w.int8store ((b + 1) % 2 ^ 64)) tail rest,
        )
        (read_step (length l) _ (tail ++ rest) a b l rest (low ∙ omega arith) (high ∙ omega arith)
          behind (read_intervals-encode_intervals l rest h))

  entry_step :
      (n : ℕ) (s q : Bytes) (l : List Interval) (rest : GtidSet)
      → length s ≡ 16
      → length l < 2 ^ 64
      → All IsSent l
      → read_entries n q ≡ (rest, [])
      → read_entries (suc n) (s ++ (w.int8store (length l) ++ (encode_intervals w l ++ q)))
        ≡ ((bin2hex s, l) ∷ rest, [])
  unfolding read_entries
  entry_step n s q l rest size few sents more =
      let p = s ++ (w.int8store (length l) ++ (encode_intervals w l ++ q)) in
      let count = w.int8store (length l) ++ (encode_intervals w l ++ q) in
      let front : take 16 p ≡ s = ap (λ k. take k p) (sym size) ∙ take-append s count in
      let skip : drop 16 p ≡ count = drop-front 16 s count size in
      let number : le 8 (drop 16 p) ≡ length l =
        ap (le 8) skip ∙ stored (length l) (encode_intervals w l ++ q) few in
      let past : drop 24 p ≡ encode_intervals w l ++ q =
        drop-drop 16 8 p ∙ ap (drop 8) skip ∙ behind (length l) (encode_intervals w l ++ q) in
      rw (front, number, past, read_intervals-encode_intervals l q sents, more) refl

  abbrev IsRead : Outcome Bytes → GtidSet → Type 0
  IsRead r s = (b : Bytes) × (r ≡ ok b) × (read_entries (length s) b ≡ (s, []))

  encode_entry-IsRead :
      (s : Bytes) (l : List Interval) (rest : GtidSet)
      → IsSid s
      → length l < 2 ^ 64
      → All IsSent l
      → IsRead (encode_entries w rest) rest
      → IsRead (encode_entries w ((s, l) ∷ rest)) ((s, l) ∷ rest)
  unfolding encode_entries
  encode_entry-IsRead _ l rest (sid s h e) few sents (b, done, more) =
      let bin : hex2bin 16 (bin2hex s) ≡ ok s = rw e at (hex2bin-bin2hex s h) in
      (
        s ++ (w.int8store (length l) ++ (encode_intervals w l ++ b)),
        rw (bin, done) refl,
        entry_step (length rest) s b l rest e few sents more,
      )

  encode_entries-IsRead : (s : GtidSet) → AreSent s → IsRead (encode_entries w s) s
  encode_entries-IsRead [] h = unfold encode_entries read_entries in ([], refl, refl)
  encode_entries-IsRead ((s, l) ∷ rest) h =
      encode_entry-IsRead s l rest h.0 h.1 h.2 (encode_entries-IsRead rest h.3)

  -- With the documented byte order, where every server's id is 32 hex digits of 16 bytes in lower
  -- case and the numbers of each interval fit 64 bits with their sign, also one above the last,
  -- `encodeGtid` writes bytes that a master reads as the very same set, with nothing left over.
  pub read_gtids-encode_gtid :
      (s : GtidSet)
      → AreSent s
      → length s < 2 ^ 64
      → (b : Bytes) × (encode_gtid w s ≡ ok b) × (read_gtids b ≡ (s, []))
  unfolding encode_gtid read_gtids
  read_gtids-encode_gtid [] h few = unfold read_entries le in ([], refl, refl)
  read_gtids-encode_gtid (entry ∷ s) h few =
      let (b, done, more) = encode_entries-IsRead (entry ∷ s) h in
      (
        w.int8store (length (entry ∷ s)) ++ b,
        rw done refl,
        rw (stored (length (entry ∷ s)) b few, behind (length (entry ∷ s)) b) more,
      )
