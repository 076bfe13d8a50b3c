-- ===== src/Via/Firmware.antt =====
-- src/hal/via.rs: over a node whose firmware follows the VIA protocol, the transport is a device
-- with a keymap. The firmware may fail to answer at any time; what it answers is true.
use clackd.Base.{
  ℕ, ◌+◌, ◌≤◌, ◌≢◌, ◌≡◌, refl, ap, ◌∙◌, List, [], ◌∷◌, true, none, some, String, arith, length,
  get_or, inl, inr, ◌⊎◌,
}
use clackd.Error.{ok, Result-cases}
use clackd.Keymap.{Pos}
use clackd.Via.{
  request, starts_with, validate_echo, validate_macro_range, from_be, hi_byte, lo_byte,
}
use clackd.Via.Transport.{
  Wire, ViaTransport, exchange, roundtrip, ensure_macro_buffer_size, get_keycode, set_keycode,
  via_transport,
}
use clackd.Via.Sends
use clackd.Via.Sends.{
  Command, issue, write_macro, write_keycode, read_keycode, protocol_version, layer_count, save,
  read_macro, read_lighting, write_lighting,
}
use clackd.Via.Sizes.{issue_size, size-roundtrip}
use clackd.Via.Device.{IsDevice}

-- A frame that cannot change the keymap: no keycode write, no reset, no bootloader jump, and a macro
-- write only within the macro buffer.
abbrev IsQuiet : ℕ → List ℕ → Type 0
IsQuiet size frame =
    (get_or frame 0 0 ≢ 0x05)
    × (get_or frame 0 0 ≢ 0x0a)
    × (get_or frame 0 0 ≢ 0x0b)
    × (get_or frame 0 0 ≡ 0x0f
        → from_be (get_or frame 1 0) (get_or frame 2 0) + get_or frame 3 0 ≤ size)

-- The request that writes a keycode.
abbrev pub set_request : Pos → ℕ → List ℕ
set_request p kc = 0x05 ∷ p.layer ∷ p.row ∷ p.col ∷ hi_byte kc ∷ lo_byte kc ∷ []

-- The protocol as QMK documents it.
pub record Firmware (wire : Wire) : Type 1 where
  pub keymap : wire.World → Pos → ℕ
  -- The size of the macro buffer.
  pub size : ℕ
  pub read_keeps : (w : wire.World) → keymap (wire.try_read w).1 ≡ keymap w
  pub quiet_keeps :
      (w : wire.World) (frame : List ℕ)
      → IsQuiet size frame
      → keymap (wire.try_write w (0 ∷ frame)).1 ≡ keymap w
  -- A keycode write concerns its position.
  pub set_other :
      (w : wire.World) (p q : Pos) (kc : ℕ)
      → q ≢ p
      → keymap (wire.try_write w (0 ∷ request (set_request p kc))).1 q ≡ keymap w q
  -- A write that was echoed has happened.
  pub set_echoed :
      (w : wire.World) (n : ℕ) (p : Pos) (kc : ℕ) (resp : List ℕ)
      → let (r, w') = exchange wire n (request (set_request p kc)) w in
        r ≡ some (ok resp) → starts_with (set_request p kc) resp ≡ true → keymap w' p ≡ kc
  -- A read that was echoed carries the keycode.
  pub get_echoed :
      (w : wire.World) (n : ℕ) (p : Pos) (resp : List ℕ)
      → let echo = 0x04 ∷ p.layer ∷ p.row ∷ p.col ∷ [] in
        (exchange wire n (request echo) w).0 ≡ some (ok resp)
        → starts_with echo resp ≡ true
        → from_be (get_or resp 4 0) (get_or resp 5 0) ≡ keymap w p
  pub size_echoed :
      (w : wire.World) (n : ℕ) (resp : List ℕ)
      → (exchange wire n (request (0x0d ∷ [])) w).0 ≡ some (ok resp)
      → starts_with (0x0d ∷ []) resp ≡ true
      → from_be (get_or resp 1 0) (get_or resp 2 0) ≡ size

module _ (wire : Wire) (f : Firmware wire) where
  open f use {keymap, size, read_keeps, quiet_keeps, set_other, set_echoed, get_echoed, size_echoed}

  -- The macro buffer's size is unknown or right.
  abbrev pub Ready : ViaTransport wire → Type 0
  Ready t = (t.macro_buffer_size ≡ none) ⊎ (t.macro_buffer_size ≡ some size)

  roundtrip-exchange :
      (frame : List ℕ) (op : String) (t : ViaTransport wire) (resp : List ℕ)
      → (roundtrip wire frame op t).0 ≡ ok resp
      → (exchange wire t.deadline frame t.world).0 ≡ some (ok resp)
  unfolding roundtrip
  roundtrip-exchange frame op t resp e = ground arith

  roundtrip-world :
      (frame : List ℕ) (op : String) (t : ViaTransport wire)
      → (roundtrip wire frame op t).1.world ≡ (exchange wire t.deadline frame t.world).1
  unfolding roundtrip
  roundtrip-world frame op t = refl

  -- The query for the size gives the right one, if it gives one.
  ensure_right :
      (t : ViaTransport wire)
      → Ready t
      → let (r, t') = ensure_macro_buffer_size wire t in Ready t' × ((n : ℕ) → r ≡ ok n → n ≡ size)
  unfolding ensure_macro_buffer_size validate_echo
  ensure_right t r =
      elim (Result-cases (roundtrip wire (request (0x0d ∷ [])) "get_macro_buffer_size" t).0) [
        | inl (resp, q) ↦
            let truth = size_echoed t.world t.deadline resp (roundtrip-exchange _ _ t resp q) in
            (
              ground (
                arith,
                truth,
                size-roundtrip wire (request (0x0d ∷ [])) "get_macro_buffer_size" t,
              ),
              λ n e. ground (arith, truth),
            )
        | inr (x, q) ↦ (
          ground (arith, size-roundtrip wire (request (0x0d ∷ [])) "get_macro_buffer_size" t),
          λ n e. ground arith,
        )
      ]

  Ready-issue : (c : Command) (t : ViaTransport wire) → Ready t → Ready (issue wire c t)
  Ready-issue c t r = ground (arith, issue_size wire c t, (ensure_right t r).0)

  macro-IsQuiet :
      (o : ℕ) (bs : List ℕ)
      → validate_macro_range o (length bs) size ≡ ok tt
      → IsQuiet size (request (0x0f ∷ hi_byte o ∷ lo_byte o ∷ length bs ∷ bs))
  unfolding validate_macro_range
  macro-IsQuiet o bs v = (omega arith, omega arith, omega arith, λ e. ground arith)

  -- No call but a keycode write changes the keymap.
  quiet-issue :
      (c : Command) (t : ViaTransport wire)
      → ((p : Pos) (kc : ℕ) → c ≢ write_keycode p kc)
      → Ready t
      → keymap (issue wire c t).world ≡ keymap t.world
  quiet-issue c t n r =
      Sends.issue-keeps wire (IsQuiet size) (λ w. keymap w ≡ keymap t.world)
        (λ w frame q h. quiet_keeps w frame q ∙ h) (λ w h. read_keeps w ∙ h) c t
        (λ i bs a b m write. ((λ e. let (p, kc, k) = write e in n p kc k), a, b, λ e. absurd (m e)))
        (λ o bs k e v _. macro-IsQuiet o bs (rw ((ensure_right t r).1 k e) at v)) refl

  set_keycode_other :
      (t : ViaTransport wire) (p q : Pos) (kc : ℕ)
      → q ≢ p
      → keymap (set_keycode wire p kc t).1.world q ≡ keymap t.world q
  set_keycode_other t p q kc h =
      Sends.set_keycode-Keeps wire (λ frame. frame ≡ request (set_request p kc))
        (λ w. keymap w q ≡ keymap t.world q) (λ w frame e k. rw e (set_other w p q kc h ∙ k))
        (λ w k. ap (λ g. g q) (read_keeps w) ∙ k) p kc refl t refl

  set_keycode_self :
      (t : ViaTransport wire) (p : Pos) (kc : ℕ)
      → (set_keycode wire p kc t).0 ≡ ok tt
      → keymap (set_keycode wire p kc t).1.world p ≡ kc
  unfolding set_keycode validate_echo
  set_keycode_self t p kc e =
      let frame = request (set_request p kc) in
      elim (Result-cases (roundtrip wire frame "set_keycode" t).0) [
        | inl (resp, q) ↦ ground (
          arith,
          roundtrip-world frame "set_keycode" t,
          set_echoed t.world t.deadline p kc resp (roundtrip-exchange frame "set_keycode" t resp q),
        )
        | inr (x, q) ↦ ground arith
      ]

  get_keycode-reads :
      (t : ViaTransport wire) (p : Pos) (kc : ℕ)
      → (get_keycode wire p t).0 ≡ ok kc
      → kc ≡ keymap t.world p
  unfolding get_keycode validate_echo
  get_keycode-reads t p kc e =
      let frame = request (0x04 ∷ p.layer ∷ p.row ∷ p.col ∷ []) in
      elim (Result-cases (roundtrip wire frame "get_keycode" t).0) [
        | inl (resp, q) ↦ ground (
          arith,
          get_echoed t.world t.deadline p resp (roundtrip-exchange frame "get_keycode" t resp q),
        )
        | inr (x, q) ↦ ground arith
      ]

  -- Over a firmware that follows the protocol, the transport is a device with a keymap: a keycode
  -- write changes no other position and its own when it succeeds, a read that succeeds returns the
  -- keycode, and no other call changes the keymap, whether it succeeds or fails.
  pub via-IsDevice : IsDevice (via_transport wire) (λ t. keymap t.world) Ready
  via-IsDevice = record {
    set_ready = λ t p kc. Ready-issue (write_keycode p kc) t;
    set_other = λ t p q kc r. set_keycode_other t p q kc;
    set_self = λ t p kc r. set_keycode_self t p kc;
    get_ready = λ t p. Ready-issue (read_keycode p) t;
    get_keeps = λ t p. quiet-issue (read_keycode p) t (λ q kc. cc);
    get_reads = λ t p kc r. get_keycode-reads t p kc;
    version_ready = λ t. Ready-issue protocol_version t;
    version_keeps = λ t. quiet-issue protocol_version t (λ q kc. cc);
    layers_ready = λ t. Ready-issue layer_count t;
    layers_keeps = λ t. quiet-issue layer_count t (λ q kc. cc);
    save_ready = λ t c. Ready-issue (save c) t;
    save_keeps = λ t c. quiet-issue (save c) t (λ q kc. cc);
    get_macro_ready = λ t o n. Ready-issue (read_macro o n) t;
    get_macro_keeps = λ t o n. quiet-issue (read_macro o n) t (λ q kc. cc);
    set_macro_ready = λ t o bs. Ready-issue (write_macro o bs) t;
    set_macro_keeps = λ t o bs. quiet-issue (write_macro o bs) t (λ q kc. cc);
    get_lighting_ready = λ t c v. Ready-issue (read_lighting c v) t;
    get_lighting_keeps = λ t c v. quiet-issue (read_lighting c v) t (λ q kc. cc);
    set_lighting_ready = λ t c v bs. Ready-issue (write_lighting c v bs) t;
    set_lighting_keeps = λ t c v bs. quiet-issue (write_lighting c v bs) t (λ q kc. cc);
  }
