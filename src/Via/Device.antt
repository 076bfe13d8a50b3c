-- ===== src/Via/Device.antt =====
-- What the coalescer relies on: a transport to a device that holds a keymap. src/hal/mod.rs
-- documents these as the semantics of the driver's methods.
use clackd.Base.{ℕ, ◌≡◌, ◌≢◌, List}
use clackd.Error.{ok}
use clackd.Keymap.{Pos}
use clackd.Via.{CoalescerTransport}

-- `view` is the keymap in the device, and `Ready` holds where host and device are in step.
pub record IsDevice (T : CoalescerTransport) (view : T.State → Pos → ℕ) (Ready : T.State → Type 0)
    : Type 0 where
  -- A write touches its own position, and that surely when it succeeds.
  pub set_ready : (s : T.State) (p : Pos) (kc : ℕ) → Ready s → Ready (T.set_keycode p kc s).1
  pub set_other :
      (s : T.State) (p q : Pos) (kc : ℕ)
      → Ready s
      → q ≢ p
      → view (T.set_keycode p kc s).1 q ≡ view s q
  pub set_self :
      (s : T.State) (p : Pos) (kc : ℕ)
      → Ready s
      → (T.set_keycode p kc s).0 ≡ ok tt
      → view (T.set_keycode p kc s).1 p ≡ kc
  -- A read that succeeds reads the keymap.
  pub get_ready : (s : T.State) (p : Pos) → Ready s → Ready (T.get_keycode p s).1
  pub get_keeps : (s : T.State) (p : Pos) → Ready s → view (T.get_keycode p s).1 ≡ view s
  pub get_reads :
      (s : T.State) (p : Pos) (kc : ℕ) → Ready s → (T.get_keycode p s).0 ≡ ok kc → kc ≡ view s p
  -- The other calls leave the keymap alone.
  pub version_ready : (s : T.State) → Ready s → Ready (T.get_protocol_version s).1
  pub version_keeps : (s : T.State) → Ready s → view (T.get_protocol_version s).1 ≡ view s
  pub layers_ready : (s : T.State) → Ready s → Ready (T.get_layer_count s).1
  pub layers_keeps : (s : T.State) → Ready s → view (T.get_layer_count s).1 ≡ view s
  pub save_ready : (s : T.State) (c : ℕ) → Ready s → Ready (T.custom_save c s).1
  pub save_keeps : (s : T.State) (c : ℕ) → Ready s → view (T.custom_save c s).1 ≡ view s
  pub get_macro_ready : (s : T.State) (o n : ℕ) → Ready s → Ready (T.get_macro_buffer o n s).1
  pub get_macro_keeps :
      (s : T.State) (o n : ℕ) → Ready s → view (T.get_macro_buffer o n s).1 ≡ view s
  pub set_macro_ready :
      (s : T.State) (o : ℕ) (bs : List ℕ) → Ready s → Ready (T.set_macro_buffer o bs s).1
  pub set_macro_keeps :
      (s : T.State) (o : ℕ) (bs : List ℕ) → Ready s → view (T.set_macro_buffer o bs s).1 ≡ view s
  pub get_lighting_ready : (s : T.State) (c v : ℕ) → Ready s → Ready (T.get_lighting c v s).1
  pub get_lighting_keeps :
      (s : T.State) (c v : ℕ) → Ready s → view (T.get_lighting c v s).1 ≡ view s
  pub set_lighting_ready :
      (s : T.State) (c v : ℕ) (bs : List ℕ) → Ready s → Ready (T.set_lighting c v bs s).1
  pub set_lighting_keeps :
      (s : T.State) (c v : ℕ) (bs : List ℕ) → Ready s → view (T.set_lighting c v bs s).1 ≡ view s
