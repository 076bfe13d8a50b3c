-- ===== src/Via/Safety.antt =====
-- src/hal/via.rs: no call of the transport can reset the EEPROM, jump to the bootloader or write
-- behind the macro buffer.
use clackd.Base.{
  ℕ, suc, ◌+◌, ◌≤◌, ◌≢◌, ◌≡◌, refl, List, [], ◌∷◌, Option, none, some, arith, length, get_or,
  replicate, inl, inr, ◌⊎◌, ◌∙◌,
}
use clackd.Error.{ok}
use clackd.Via.{
  via_frame_len, store, request, validate_macro_range, via_hidraw_report_id, id_macro_set_buffer,
  from_be, hi_byte, lo_byte,
}
use clackd.Via.Transport.{Wire, ViaTransport, ensure_macro_buffer_size}
use clackd.Via.Sends
use clackd.Via.Sends.{Command, issue, write_macro}
use clackd.Via.Sizes.{issue_size, ensure_size, set_macro_buffer-size}

-- The commands of QMK that reset the EEPROM and that jump to the bootloader.
abbrev id_eeprom_reset : ℕ
id_eeprom_reset = 0x0a

abbrev id_bootloader_jump : ℕ
id_bootloader_jump = 0x0b

-- What is written to the node: the report ID and a whole frame, whose command is neither of the two.
abbrev IsHarmless : List ℕ → Type 0
IsHarmless buf =
    (length buf ≡ suc via_frame_len)
    × (get_or buf 0 0 ≡ via_hidraw_report_id)
    × (get_or buf 1 0 ≢ id_eeprom_reset)
    × (get_or buf 1 0 ≢ id_bootloader_jump)

-- A macro write stays below the size; no other frame is concerned.
abbrev IsInside : ℕ → List ℕ → Type 0
IsInside size buf =
    get_or buf 1 0 ≡ id_macro_set_buffer
    → from_be (get_or buf 2 0) (get_or buf 3 0) + get_or buf 4 0 ≤ size

-- While the size is unknown, there is no macro write.
abbrev pub IsBounded : Option ℕ → List ℕ → Type 0
IsBounded none buf = get_or buf 1 0 ≢ id_macro_set_buffer
IsBounded (some size) buf = IsInside size buf

length-store : (bs xs : List ℕ) → length (store bs xs) ≡ length xs
length-store [] xs = refl
length-store (b ∷ bs) [] = refl
length-store (b ∷ bs) (x ∷ xs) = omega (arith, length-store bs xs)

request-IsHarmless :
    (c : ℕ) (bs : List ℕ)
    → c ≢ id_eeprom_reset
    → c ≢ id_bootloader_jump
    → IsHarmless (0 ∷ request (c ∷ bs))
request-IsHarmless c bs h k = (omega (arith, length-store bs (replicate 31 0)), refl, h, k)

abbrev pub All : (List ℕ → Type 0) → List (List ℕ) → Type 0
All P [] = Unit {0}
All P (x ∷ xs) = P x × All P xs

-- A wire that keeps what was written to it, the latest first.
abbrev pub recorded : Wire → Wire
recorded wire = record {
  World = wire.World × List (List ℕ);
  try_write = λ w buf. let (a, w') = wire.try_write w.0 buf in (a, (w', buf ∷ w.1));
  try_read = λ w. let (a, w') = wire.try_read w.0 in (a, (w', w.1));
}

module _ (wire : Wire) where
  -- A session of calls.
  unfoldable pub session : List Command → ViaTransport wire → ViaTransport wire
  session [] t = t
  session (c ∷ cs) t = session cs (issue wire c t)

module _ (wire : Wire) where
  abbrev Clean : (recorded wire).World → Type 0
  Clean w = All IsHarmless w.1

  abbrev Harmless : List ℕ → Type 0
  Harmless frame = IsHarmless (0 ∷ frame)

  issue-Clean :
      (c : Command) (t : ViaTransport (recorded wire))
      → Clean t.world
      → Clean (issue (recorded wire) c t).world
  issue-Clean c t h =
      Sends.issue-keeps (recorded wire) Harmless Clean (λ w f s k. (s, k)) (λ w k. k) c t
        (λ i bs a b m n. request-IsHarmless i bs a b)
        (λ o bs size e v k.
          request-IsHarmless 0x0f (hi_byte o ∷ lo_byte o ∷ length bs ∷ bs) (omega arith)
            (omega arith))
        h

  -- Whatever calls are made and whatever the node answers, everything that is written to it is the
  -- report ID and a whole frame, and no frame is a command that resets the EEPROM or jumps to the
  -- bootloader.
  session-IsHarmless :
      (cs : List Command) (t : ViaTransport (recorded wire))
      → All IsHarmless t.world.1
      → All IsHarmless (session (recorded wire) cs t).world.1
  unfolding session
  session-IsHarmless [] t h = h
  session-IsHarmless (c ∷ cs) t h =
      session-IsHarmless cs (issue (recorded wire) c t) (issue-Clean c t h)

  abbrev Fits : Option ℕ → (recorded wire).World → Type 0
  Fits o w = All (IsBounded o) w.1

  abbrev Bounded : Option ℕ → List ℕ → Type 0
  Bounded o frame = IsBounded o (0 ∷ frame)

  -- A frame that is no macro write fits every size.
  other-Bounded : (o : Option ℕ) (c : ℕ) (bs : List ℕ) → c ≢ 0x0f → Bounded o (request (c ∷ bs))
  other-Bounded none c bs h = h
  other-Bounded (some size) c bs h = λ e. absurd (h e)

  Fits-learn : (o : Option ℕ) (xs : List (List ℕ)) → All (IsBounded none) xs → All (IsBounded o) xs
  Fits-learn none xs h = h
  Fits-learn (some size) [] h = tt
  Fits-learn (some size) (x ∷ xs) h = ((λ e. absurd (h.0 e)), Fits-learn (some size) xs h.1)

  Fits-later :
      (o o' : Option ℕ) (xs : List (List ℕ))
      → (o' ≡ o) ⊎ (o ≡ none)
      → All (IsBounded o) xs
      → All (IsBounded o') xs
  Fits-later o o' xs (inl e) h = rw e h
  Fits-later o o' xs (inr e) h = Fits-learn o' xs (rw e at h)

  macro-Bounded :
      (o : ℕ) (bs : List ℕ) (size : ℕ)
      → validate_macro_range o (length bs) size ≡ ok tt
      → Bounded (some size) (request (0x0f ∷ hi_byte o ∷ lo_byte o ∷ length bs ∷ bs))
  unfolding validate_macro_range
  macro-Bounded o bs size v e = ground arith

  -- The size that a macro write was found valid for is the one that is known after the call.
  write_macro-size :
      (c : Command) (t : ViaTransport (recorded wire)) (o : ℕ) (bs : List ℕ) (size : ℕ)
      → (ensure_macro_buffer_size (recorded wire) t).0 ≡ ok size
      → c ≡ write_macro o bs
      → (issue (recorded wire) c t).macro_buffer_size ≡ some size
  write_macro-size c t o bs size e k =
      rw k (set_macro_buffer-size (recorded wire) o bs t ∙ (ensure_size (recorded wire) t).1 size e)

  learned :
      (c : Command) (t : ViaTransport (recorded wire))
      → ((issue (recorded wire) c t).macro_buffer_size ≡ t.macro_buffer_size)
        ⊎ (t.macro_buffer_size ≡ none)
  learned c t = ground (arith, issue_size (recorded wire) c t, (ensure_size (recorded wire) t).0)

  issue-Fits :
      (c : Command) (t : ViaTransport (recorded wire))
      → Fits t.macro_buffer_size t.world
      → let t' = issue (recorded wire) c t in Fits t'.macro_buffer_size t'.world
  issue-Fits c t h =
      let o = (issue (recorded wire) c t).macro_buffer_size in
      Sends.issue-keeps (recorded wire) (Bounded o) (Fits o) (λ w f s k. (s, k)) (λ w k. k) c t
        (λ i bs a b m n. other-Bounded o i bs m)
        (λ n bs size e v k. rw (write_macro-size c t n bs size e k) (macro-Bounded n bs size v))
        (Fits-later t.macro_buffer_size o t.world.1 (learned c t) h)

  -- Every macro write that reaches the node lies below the size that the node reported: for any
  -- calls and any answers, if no macro write went out before the size was known, each frame
  -- written is below the known size, and while the size is not known none is a macro write.
  pub session-IsBounded :
      (cs : List Command) (t : ViaTransport (recorded wire))
      → All (IsBounded t.macro_buffer_size) t.world.1
      → let t' = session (recorded wire) cs t in All (IsBounded t'.macro_buffer_size) t'.world.1
  unfolding session
  session-IsBounded [] t h = h
  session-IsBounded (c ∷ cs) t h =
      session-IsBounded cs (issue (recorded wire) c t) (issue-Fits c t h)
