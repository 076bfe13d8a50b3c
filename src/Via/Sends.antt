-- ===== src/Via/Sends.antt =====
-- src/hal/via.rs: what each call of the transport puts on the wire, as a rule for properties of the
-- wire that are kept by what is sent.
use clackd.Base.{ℕ, zero, suc, ◌≢◌, ◌≡◌, refl, List, [], ◌∷◌, String, arith, length, inl, inr}
use clackd.Error.{Result-cases, ok, Call}
use clackd.Keymap.{Pos}
use clackd.Via.{request, validate_macro_range, hi_byte, lo_byte}
use clackd.Via.Transport.{
  Wire, ViaTransport, write_frame, read_frame, exchange, roundtrip, ensure_macro_buffer_size,
  get_macro_count, get_protocol_version, custom_save, get_keycode, set_keycode, get_layer_count,
  get_macro_buffer, set_macro_buffer, get_lighting, set_lighting,
}

-- The calls of the transport.
pub data Command : Type 0 where
  macro_buffer_size macro_count protocol_version layer_count : Command
  save : ℕ → Command
  read_keycode : Pos → Command
  write_keycode : Pos → ℕ → Command
  read_macro : ℕ → ℕ → Command
  write_macro : ℕ → List ℕ → Command
  read_lighting : ℕ → ℕ → Command
  write_lighting : ℕ → ℕ → List ℕ → Command

module _ (wire : Wire) where
  -- The transport after a call, whatever it returned.
  abbrev pub issue : Command → ViaTransport wire → ViaTransport wire
  issue macro_buffer_size t = (ensure_macro_buffer_size wire t).1
  issue macro_count t = (get_macro_count wire t).1
  issue protocol_version t = (get_protocol_version wire t).1
  issue layer_count t = (get_layer_count wire t).1
  issue (save c) t = (custom_save wire c t).1
  issue (read_keycode p) t = (get_keycode wire p t).1
  issue (write_keycode p kc) t = (set_keycode wire p kc t).1
  issue (read_macro o n) t = (get_macro_buffer wire o n t).1
  issue (write_macro o bs) t = (set_macro_buffer wire o bs t).1
  issue (read_lighting c v) t = (get_lighting wire c v t).1
  issue (write_lighting c v bs) t = (set_lighting wire c v bs t).1

module _ (wire : Wire) where
  open wire use {World, try_write, try_read}

  module _ (Sends : List ℕ → Type 0) (P : World → Type 0)
      (writes : (w : World) (frame : List ℕ) → Sends frame → P w → P (try_write w (0 ∷ frame)).1)
      (reads : (w : World) → P w → P (try_read w).1) where
    write_frame-keeps :
        (n : ℕ) (frame : List ℕ) (w : World) → Sends frame → P w → P (write_frame wire n frame w).1
    unfolding write_frame
    write_frame-keeps zero frame w s h = h
    write_frame-keeps (suc n) frame w s h =
        ground (arith, writes w frame s h, write_frame-keeps n frame (try_write w (0 ∷ frame)).1 s)

    read_frame-keeps : (n : ℕ) (w : World) → P w → P (read_frame wire n w).1
    unfolding read_frame
    read_frame-keeps zero w h = h
    read_frame-keeps (suc n) w h = ground (arith, reads w h, read_frame-keeps n (try_read w).1)

    exchange-keeps :
        (n : ℕ) (frame : List ℕ) (w : World) → Sends frame → P w → P (exchange wire n frame w).1
    unfolding exchange
    exchange-keeps n frame w s h = grind (arith, write_frame-keeps n frame w s h, read_frame-keeps)

    roundtrip-keeps :
        (frame : List ℕ) (op : String) (t : ViaTransport wire)
        → Sends frame
        → P t.world
        → P (roundtrip wire frame op t).1.world
    unfolding roundtrip
    roundtrip-keeps frame op t s h = ground (arith, exchange-keeps t.deadline frame t.world s h)

    abbrev Keeps : {A : Type 0} → Call (ViaTransport wire) A → Type 0
    Keeps m = (t : ViaTransport wire) → P t.world → P (m t).1.world

    ensure-Keeps : Sends (request (0x0d ∷ [])) → Keeps (ensure_macro_buffer_size wire)
    unfolding ensure_macro_buffer_size
    ensure-Keeps s t h =
        ground (arith, roundtrip-keeps (request (0x0d ∷ [])) "get_macro_buffer_size" t s h)

    get_macro_count-Keeps : Sends (request (0x0c ∷ [])) → Keeps (get_macro_count wire)
    unfolding get_macro_count
    get_macro_count-Keeps s t h =
        ground (arith, roundtrip-keeps (request (0x0c ∷ [])) "get_macro_count" t s)

    get_protocol_version-Keeps : Sends (request (0x01 ∷ [])) → Keeps (get_protocol_version wire)
    unfolding get_protocol_version
    get_protocol_version-Keeps s t h =
        ground (arith, roundtrip-keeps (request (0x01 ∷ [])) "get_protocol_version" t s)

    custom_save-Keeps : (c : ℕ) → Sends (request (0x09 ∷ c ∷ [])) → Keeps (custom_save wire c)
    unfolding custom_save
    custom_save-Keeps c s t h =
        ground (arith, roundtrip-keeps (request (0x09 ∷ c ∷ [])) "custom_save" t s)

    get_keycode-Keeps :
        (p : Pos)
        → Sends (request (0x04 ∷ p.layer ∷ p.row ∷ p.col ∷ []))
        → Keeps (get_keycode wire p)
    unfolding get_keycode
    get_keycode-Keeps p s t h =
        ground
          (arith, roundtrip-keeps (request (0x04 ∷ p.layer ∷ p.row ∷ p.col ∷ [])) "get_keycode" t s)

    pub set_keycode-Keeps :
        (p : Pos) (kc : ℕ)
        → Sends (request (0x05 ∷ p.layer ∷ p.row ∷ p.col ∷ hi_byte kc ∷ lo_byte kc ∷ []))
        → Keeps (set_keycode wire p kc)
    unfolding set_keycode
    set_keycode-Keeps p kc s t h = ground (
      arith,
      roundtrip-keeps (request (0x05 ∷ p.layer ∷ p.row ∷ p.col ∷ hi_byte kc ∷ lo_byte kc ∷ []))
          "set_keycode" t s,
    )

    get_layer_count-Keeps : Sends (request (0x11 ∷ [])) → Keeps (get_layer_count wire)
    unfolding get_layer_count
    get_layer_count-Keeps s t h =
        ground (arith, roundtrip-keeps (request (0x11 ∷ [])) "get_layer_count" t s)

    get_macro_buffer-Keeps :
        (o n : ℕ)
        → Sends (request (0x0d ∷ []))
        → Sends (request (0x0e ∷ hi_byte o ∷ lo_byte o ∷ n ∷ []))
        → Keeps (get_macro_buffer wire o n)
    unfolding get_macro_buffer
    get_macro_buffer-Keeps o n s₀ s t h = ground (
      arith,
      ensure-Keeps s₀ t h,
      roundtrip-keeps (request (0x0e ∷ hi_byte o ∷ lo_byte o ∷ n ∷ [])) "get_macro_buffer"
          (ensure_macro_buffer_size wire t).1 s,
    )

    -- The frame of a macro write is sent for a range that was found valid.
    set_macro_buffer-Keeps :
        (o : ℕ) (bs : List ℕ) (t : ViaTransport wire)
        → Sends (request (0x0d ∷ []))
        → ((size : ℕ)
            → (ensure_macro_buffer_size wire t).0 ≡ ok size
            → validate_macro_range o (length bs) size ≡ ok tt
            → Sends (request (0x0f ∷ hi_byte o ∷ lo_byte o ∷ length bs ∷ bs)))
        → P t.world
        → P (set_macro_buffer wire o bs t).1.world
    unfolding set_macro_buffer
    set_macro_buffer-Keeps o bs t s₀ s h = elim (Result-cases (ensure_macro_buffer_size wire t).0) [
      | inl (size, e) ↦ ground (
        arith,
        ensure-Keeps s₀ t h,
        s size e,
        roundtrip-keeps (request (0x0f ∷ hi_byte o ∷ lo_byte o ∷ length bs ∷ bs)) "set_macro_buffer"
            (ensure_macro_buffer_size wire t).1,
      )
      | inr (x, e) ↦ ground (arith, ensure-Keeps s₀ t h)
    ]

    get_lighting-Keeps :
        (c v : ℕ) → Sends (request (0x08 ∷ c ∷ v ∷ [])) → Keeps (get_lighting wire c v)
    unfolding get_lighting
    get_lighting-Keeps c v s t h =
        ground (arith, roundtrip-keeps (request (0x08 ∷ c ∷ v ∷ [])) "get_lighting" t s)

    set_lighting-Keeps :
        (c v : ℕ) (bs : List ℕ)
        → Sends (request (0x07 ∷ c ∷ v ∷ bs))
        → Keeps (set_lighting wire c v bs)
    unfolding set_lighting
    set_lighting-Keeps c v bs s t h =
        ground (arith, roundtrip-keeps (request (0x07 ∷ c ∷ v ∷ bs)) "set_lighting" t s)

    -- What a call sends: no reset and no bootloader jump, a keycode write only as the call for one,
    -- and a macro write only as the call for one with a range that was found valid.
    pub issue-keeps :
        (c : Command) (t : ViaTransport wire)
        → ((i : ℕ) (bs : List ℕ)
            → i ≢ 0x0a
            → i ≢ 0x0b
            → i ≢ 0x0f
            → (i ≡ 0x05 → (p : Pos) × (kc : ℕ) × (c ≡ write_keycode p kc))
            → Sends (request (i ∷ bs)))
        → ((o : ℕ) (bs : List ℕ) (size : ℕ)
            → (ensure_macro_buffer_size wire t).0 ≡ ok size
            → validate_macro_range o (length bs) size ≡ ok tt
            → c ≡ write_macro o bs
            → Sends (request (0x0f ∷ hi_byte o ∷ lo_byte o ∷ length bs ∷ bs)))
        → P t.world
        → P (issue wire c t).world
    issue-keeps macro_buffer_size t all m h =
        ensure-Keeps
          (all 0x0d [] (omega arith) (omega arith) (omega arith) (λ e. absurd (omega arith))) t h
    issue-keeps macro_count t all m h =
        get_macro_count-Keeps
          (all 0x0c [] (omega arith) (omega arith) (omega arith) (λ e. absurd (omega arith))) t h
    issue-keeps protocol_version t all m h =
        get_protocol_version-Keeps
          (all 0x01 [] (omega arith) (omega arith) (omega arith) (λ e. absurd (omega arith))) t h
    issue-keeps layer_count t all m h =
        get_layer_count-Keeps
          (all 0x11 [] (omega arith) (omega arith) (omega arith) (λ e. absurd (omega arith))) t h
    issue-keeps (save c) t all m h =
        custom_save-Keeps c
          (all 0x09 (c ∷ []) (omega arith) (omega arith) (omega arith) (λ e. absurd (omega arith)))
          t h
    issue-keeps (read_keycode p) t all m h =
        get_keycode-Keeps p
          (all 0x04 (p.layer ∷ p.row ∷ p.col ∷ []) (omega arith) (omega arith) (omega arith)
            (λ e. absurd (omega arith)))
          t h
    issue-keeps (write_keycode p kc) t all m h =
        set_keycode-Keeps p kc
          (all 0x05 (p.layer ∷ p.row ∷ p.col ∷ hi_byte kc ∷ lo_byte kc ∷ []) (omega arith)
            (omega arith) (omega arith) (λ e. (p, kc, refl)))
          t h
    issue-keeps (read_macro o n) t all m h =
        get_macro_buffer-Keeps o n
          (all 0x0d [] (omega arith) (omega arith) (omega arith) (λ e. absurd (omega arith)))
          (all 0x0e (hi_byte o ∷ lo_byte o ∷ n ∷ []) (omega arith) (omega arith) (omega arith)
            (λ e. absurd (omega arith)))
          t h
    issue-keeps (write_macro o bs) t all m h =
        set_macro_buffer-Keeps o bs t
          (all 0x0d [] (omega arith) (omega arith) (omega arith) (λ e. absurd (omega arith)))
          (λ size e v. m o bs size e v refl) h
    issue-keeps (read_lighting c v) t all m h =
        get_lighting-Keeps c v
          (all 0x08 (c ∷ v ∷ []) (omega arith) (omega arith) (omega arith)
            (λ e. absurd (omega arith)))
          t h
    issue-keeps (write_lighting c v bs) t all m h =
        set_lighting-Keeps c v bs
          (all 0x07 (c ∷ v ∷ bs) (omega arith) (omega arith) (omega arith)
            (λ e. absurd (omega arith)))
          t h
