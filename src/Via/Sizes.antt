-- ===== src/Via/Sizes.antt =====
-- src/hal/via.rs: the size of the macro buffer that the transport keeps, over its calls.
use clackd.Base.{ℕ, ◌≡◌, refl, List, [], ◌∷◌, none, some, String, arith, length, inr, ◌⊎◌}
use clackd.Error.{ok}
use clackd.Via.{request, hi_byte, lo_byte}
use clackd.Via.Transport.{
  Wire, ViaTransport, roundtrip, ensure_macro_buffer_size, get_macro_count, get_protocol_version,
  custom_save, get_keycode, set_keycode, get_layer_count, get_macro_buffer, set_macro_buffer,
  get_lighting, set_lighting,
}
use clackd.Via.Sends.{Command, macro_buffer_size, read_macro, write_macro, issue}

module _ (wire : Wire) where
  pub size-roundtrip :
      (frame : List ℕ) (op : String) (t : ViaTransport wire)
      → (roundtrip wire frame op t).1.macro_buffer_size ≡ t.macro_buffer_size
  unfolding roundtrip
  size-roundtrip frame op t = refl

  -- A known size is kept, and a size that is returned is known from then on.
  pub ensure_size :
      (t : ViaTransport wire)
      → let (r, t') = ensure_macro_buffer_size wire t in
        ((t'.macro_buffer_size ≡ t.macro_buffer_size) ⊎ (t.macro_buffer_size ≡ none))
        × ((size : ℕ) → r ≡ ok size → t'.macro_buffer_size ≡ some size)
  unfolding ensure_macro_buffer_size
  ensure_size t = (
    ground arith,
    λ size e. ground (arith, size-roundtrip (request (0x0d ∷ [])) "get_macro_buffer_size" t),
  )

  pub set_macro_buffer-size :
      (o : ℕ) (bs : List ℕ) (t : ViaTransport wire)
      → (set_macro_buffer wire o bs t).1.macro_buffer_size
        ≡ (ensure_macro_buffer_size wire t).1.macro_buffer_size
  unfolding set_macro_buffer
  set_macro_buffer-size o bs t = ground (
    arith,
    size-roundtrip (request (0x0f ∷ hi_byte o ∷ lo_byte o ∷ length bs ∷ bs)) "set_macro_buffer"
        (ensure_macro_buffer_size wire t).1,
  )

  get_macro_buffer-size :
      (o n : ℕ) (t : ViaTransport wire)
      → (get_macro_buffer wire o n t).1.macro_buffer_size
        ≡ (ensure_macro_buffer_size wire t).1.macro_buffer_size
  unfolding get_macro_buffer
  get_macro_buffer-size o n t = ground (
    arith,
    size-roundtrip (request (0x0e ∷ hi_byte o ∷ lo_byte o ∷ n ∷ [])) "get_macro_buffer"
        (ensure_macro_buffer_size wire t).1,
  )

  -- A call leaves the size as it is, or as the query for it does.
  pub issue_size :
      (c : Command) (t : ViaTransport wire)
      → let o = (issue wire c t).macro_buffer_size in
        (o ≡ t.macro_buffer_size) ⊎ (o ≡ (ensure_macro_buffer_size wire t).1.macro_buffer_size)
  unfolding roundtrip get_macro_count get_protocol_version custom_save get_keycode set_keycode
      get_layer_count get_lighting set_lighting
  issue_size macro_buffer_size t = inr refl
  issue_size (write_macro o bs) t = inr (set_macro_buffer-size o bs t)
  issue_size (read_macro o n) t = inr (get_macro_buffer-size o n t)
  issue_size c t = ground arith
