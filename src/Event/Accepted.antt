-- ===== src/Event/Accepted.antt =====
-- What `read_log_event` has checked of an event that it delivers.
use libslave.Common.{
  ℕ, ◌-◌, ◌≡◌, refl, sym, ◌∙◌, ap, Bool, true, false, ◌==◌, ==_iff, Bytes, Error, Outcome, ok,
  throws, fault, if◌then◌else◌, take, drop, length, ltb, Bool-cases, inl, inr, [],
}
use libslave.Common.Effects.{
  ◌>>=◌, lift, pure, Keeps, Keeps-at, Keeps-bind, Keeps-lift, Keeps-when, Keeps-if, Keeps-pure,
  bind_ok,
}
use libslave.Event.Headers.{sub32}
use libslave.Wire.{Wire, le}
use libslave.Event.Defs.{BasicEventInfo}
use libslave.Event.Read.{
  ReadState, Tick, checksum_crc32, note, matching, learn_checksum, verify_checksum, on_description,
  dispatch, open_event, note_time, read_log_event, check_format_description, tick,
  tick_format_description, tick_query, tick_rotate, tick_xid, tick_other,
}

module _ (w : Wire) (crc32 : ℕ → Bytes → ℕ) where
  -- The last four bytes are the checksum of what stands before them, and are cut off.
  abbrev pub Matches : Bytes → ℕ → BasicEventInfo → Type 0
  Matches buf event_len bei =
      (le 4 (drop (event_len - 4) buf) ≡ crc32 (crc32 0 []) (take (event_len - 4) buf))
      × (bei.event_len ≡ event_len - 4)

  matching-Matches :
      (buf : Bytes) (event_len : ℕ) (bei bei' : BasicEventInfo)
      → matching w crc32 buf event_len bei ≡ ok bei'
      → Matches buf event_len bei'
  unfolding matching
  matching-Matches buf event_len bei bei' h =
      elim (Bool-cases (ltb (length (drop (event_len - 4) buf)) 4)) [
        | inl e ↦ absurd (fails (rw e at h))
        | inr e ↦
            elim (Bool-cases
              (le 4 (drop (event_len - 4) buf) == crc32 (crc32 0 []) (take (event_len - 4) buf))) [
                | inl q ↦ ((==_iff _ _).0 q, length_of (rw (e, q) at h))
                | inr q ↦ absurd (throws_no (rw (e, q) at h))
              ]
      ]
    where
      fails : {b : BasicEventInfo} → fault ≡ ok b → ⊥
      fails e = cc

      throws_no : {x : Error} {b : BasicEventInfo} → throws x ≡ ok b → ⊥
      throws_no e = cc

      length_of : {a b : BasicEventInfo} → ok a ≡ ok b → b.event_len ≡ a.event_len
      length_of e = cc

  -- `verify_checksum` leaves the algorithm as it is, and checks where it is CRC32.
  verify_checksum-Matches :
      (buf : Bytes) (event_len : ℕ) (bei bei' : BasicEventInfo) (s t : ReadState)
      → verify_checksum w crc32 buf event_len bei s ≡ (ok bei', t)
      → (s.checksum_alg ≡ t.checksum_alg)
        × ((s.checksum_alg == checksum_crc32) ≡ true → Matches buf event_len bei')
  unfolding verify_checksum
  verify_checksum-Matches buf event_len bei bei' s t h = (
    ap (λ x. x.1.checksum_alg) h,
    λ on. matching-Matches buf event_len bei bei' (ap (λ x. x.0) (rw on at h)),
  )

  abbrev Alg : ℕ → ReadState → Type 0
  Alg k s = s.checksum_alg ≡ k

  note-Keeps : (k : ℕ) (event_stat : Bool) (x : Tick) → Keeps (Alg k) (note event_stat x)
  unfolding note Keeps
  note-Keeps k true x s h = h
  note-Keeps k false x s h = h

  note_time-Keeps :
      (k : ℕ) (event_stat : Bool) (bei : BasicEventInfo)
      → Keeps (Alg k) (note_time w crc32 event_stat bei)
  unfolding note_time
  note_time-Keeps k event_stat bei =
      Keeps-when (Alg k) _ (note event_stat (tick bei.when)) (note-Keeps k event_stat _)

  note_and-Keeps :
      (k : ℕ) (event_stat : Bool) (x : Tick) (b : Bool)
      → Keeps (Alg k) (note event_stat x >>= (λ _. pure b))
  note_and-Keeps k event_stat x b =
      Keeps-bind (Alg k) (note event_stat x) (λ _. pure b) (note-Keeps k event_stat x)
        (λ _. Keeps-pure (Alg k) b)

  on_description-Keeps :
      (k : ℕ) (buf : Bytes) (event_len : ℕ) (event_stat ge56 : Bool)
      → Keeps (Alg k) (on_description w crc32 buf event_len event_stat ge56)
  unfolding on_description
  on_description-Keeps k buf event_len event_stat ge56 =
      Keeps-bind (Alg k)
        (lift (check_format_description buf (if ge56 then sub32 event_len 5 else event_len) ge56))
        (λ _. note event_stat tick_format_description >>= (λ _. pure true)) (Keeps-lift (Alg k) _)
        (λ _. note_and-Keeps k event_stat tick_format_description true)

  dispatch-Keeps :
      (k : ℕ) (buf : Bytes) (event_len : ℕ) (event_stat ge56 : Bool) (bei : BasicEventInfo)
      → Keeps (Alg k) (dispatch w crc32 buf event_len event_stat ge56 bei)
  unfolding dispatch
  dispatch-Keeps k buf event_len event_stat ge56 bei =
      Keeps-if (Alg k) _ _ _ (on_description-Keeps k buf event_len event_stat ge56) (
        Keeps-if (Alg k) _ _ _ (note_and-Keeps k event_stat tick_query true) (
          Keeps-if (Alg k) _ _ _ (note_and-Keeps k event_stat tick_rotate true) (
            Keeps-if (Alg k) _ _ _ (note_and-Keeps k event_stat tick_xid true) (
              Keeps-if (Alg k) _ _ _ (Keeps-pure (Alg k) true)
                (note_and-Keeps k event_stat tick_other false)))))

  -- Where `read_log_event` delivers an event, and the checksum algorithm is CRC32 behind it, then the
  -- last four bytes are the checksum of the others, and the length that is delivered is without them.
  pub read_log_event-checksum :
      (buf : Bytes) (event_len : ℕ) (event_stat ge56 accepted : Bool) (bei : BasicEventInfo)
      (s t : ReadState)
      → read_log_event w crc32 buf event_len event_stat ge56 s ≡ (ok (bei, accepted), t)
      → t.checksum_alg ≡ checksum_crc32
      → (le 4 (drop (event_len - 4) buf) ≡ crc32 (crc32 0 []) (take (event_len - 4) buf))
        × (bei.event_len ≡ event_len - 4)
  unfolding read_log_event
  read_log_event-checksum buf event_len event_stat ge56 accepted bei s t h on =
      let (opened, s1, _, rest) =
        bind_ok (lift (open_event w crc32 buf event_len)) _ s t (bei, accepted) h in
      let (checked, s2, verified, told) =
        bind_ok
          (learn_checksum w crc32 buf event_len ge56 opened
            >>= (λ _. verify_checksum w crc32 buf event_len opened))
          _ s1 t (bei, accepted) rest in
      let (_, s3, learnt, verified') =
        bind_ok (learn_checksum w crc32 buf event_len ge56 opened)
          (λ _. verify_checksum w crc32 buf event_len opened) s1 s2 checked verified in
      let (same, matches) = verify_checksum-Matches buf event_len opened checked s3 s2 verified' in
      let (b, s4, ticked, done) =
        bind_ok
          (note_time w crc32 event_stat opened
            >>= (λ _. dispatch w crc32 buf event_len event_stat ge56 opened))
          (λ b. pure (checked, b)) s2 t (bei, accepted) told in
      let kept : Alg s2.checksum_alg s4 = rw (← ap (λ x. x.1) ticked) (
        Keeps-at (Alg s2.checksum_alg)
          (note_time w crc32 event_stat opened
            >>= (λ _. dispatch w crc32 buf event_len event_stat ge56 opened))
          (Keeps-bind (Alg s2.checksum_alg) (note_time w crc32 event_stat opened)
            (λ _. dispatch w crc32 buf event_len event_stat ge56 opened)
            (note_time-Keeps s2.checksum_alg event_stat opened)
            (λ _. dispatch-Keeps s2.checksum_alg buf event_len event_stat ge56 opened))
          s2 refl) in
      let alg : s3.checksum_alg ≡ checksum_crc32 =
        same ∙ (sym kept ∙ (ap (λ x. x.1.checksum_alg) done ∙ on)) in
      let delivered : checked.event_len ≡ bei.event_len = of_ok (ap (λ x. x.0) done) in
      let (sum, size) = matches ((==_iff _ _).1 alg) in (sum, sym delivered ∙ size)
    where
      of_ok :
          {a c : BasicEventInfo}
          → {x y : Bool} → ◌≡◌ {A = Outcome (BasicEventInfo × Bool)} (ok (a, x)) (ok (c, y))
          → a.event_len ≡ c.event_len
      of_ok e = cc
