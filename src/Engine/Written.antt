-- ===== src/Engine/Written.antt =====
-- The worker of src/engine/mod.rs over the driver of src/hal/legacy/gmk67.rs: a written keycode is read.
use clackd.Base.{
  ℕ, ◌≡◌, refl, ap, ◌∙◌, [], ◌∷◌, ◌++◌, append_assoc, true, some, Bool-cases, inl, inr,
}
use clackd.Error.{ok}
use clackd.Keymap.{at}
use clackd.Shadow.Store.{Disk}
use clackd.Hal.{KeyboardDriver}
use clackd.Gmk67.Matrix.{key_index_for, keydef_command}
use clackd.Gmk67.Driver.{Gmk67Io, Gmk67Driver}
use clackd.Gmk67.Methods
use clackd.Gmk67.Session.{set_keycode_lem}
use clackd.Engine.{get_keycode, set_keycode, value}
use clackd.Engine.Worker.{
  received, Worker, turn, live_turn, on_op, on_call, on_set_keycode, answer, after_set,
  layout_updated, retire, is_value, is_fatal_driver_error, keycode, done,
}
use clackd.Engine.Worker.Replies.{turn-live}
use clackd.Engine.Drivers.{gmk67_keyboard}

module _ (D : KeyboardDriver) where
  -- A write that the driver accepts is answered, and the worker goes on.
  set_keycode-answers :
      (now l r c kc reply : ℕ) (w : Worker D)
      → w.running ≡ true
      → (D.set_keycode now l r c kc w.device).0 ≡ ok tt
      → let w' = turn D now (received (set_keycode l r c kc reply)) w in
        (w'.running ≡ true)
        × (w'.device ≡ (D.set_keycode now l r c kc w.device).1)
        × (w'.replies ≡ w.replies ++ ((reply, done (value tt)) ∷ []))
  unfolding live_turn on_op on_set_keycode answer after_set layout_updated retire
      is_fatal_driver_error
  set_keycode-answers now l r c kc reply w live e =
      rw (turn-live D now (received (set_keycode l r c kc reply)) w live)
        (elim (Bool-cases (D.emits_layout_event_per_set (D.set_keycode now l r c kc w.device).1)) [
          | inl b ↦ rw (e, is_value, is_fatal_driver_error, b) (live, refl, refl)
          | inr b ↦ rw (e, is_value, is_fatal_driver_error, b) (live, refl, refl)
        ])

  get_keycode-answers :
      (now l r c kc reply : ℕ) (w : Worker D)
      → w.running ≡ true
      → (D.get_keycode now l r c w.device).0 ≡ ok kc
      → let w' = turn D now (received (get_keycode l r c reply)) w in
        (w'.running ≡ true) × (w'.replies ≡ w.replies ++ ((reply, keycode (value kc)) ∷ []))
  unfolding live_turn on_op on_call answer retire is_fatal_driver_error
  get_keycode-answers now l r c kc reply w live e =
      rw (turn-live D now (received (get_keycode l r c reply)) w live)
        (rw (e, is_fatal_driver_error) (live, refl))

accepted :
    (bus : Gmk67Io) (disk : Disk) (l r c kc command ki : ℕ) (s : Gmk67Driver bus disk)
    → keydef_command l ≡ some command
    → key_index_for r c ≡ some ki
    → ((Methods.set_keycode bus disk (at l r c) kc s).0 ≡ ok tt)
      × ((Methods.get_keycode bus disk
            (at l r c)
            (Methods.set_keycode bus disk (at l r c) kc s).1).0
          ≡ ok kc)
accepted bus disk l r c kc command ki s area key = elim (set_keycode_lem bus disk s (at l r c) kc) [
  | inl (sets, reads, a, k) ↦ (sets, reads)
  | inr (kept, inl (e, none_is)) ↦ cc
  | inr (kept, inr (e, none_is)) ↦ cc
]

-- Over a GMK67, a keycode for a position with a key on a layer with a key-definition area is accepted,
-- and the next request of the position is answered with it, each on its own sender.
pub written-ReadBack :
    (bus : Gmk67Io) (disk : Disk) (now later l r c kc first second command ki : ℕ)
    (w : Worker (gmk67_keyboard bus disk))
    → w.running ≡ true
    → keydef_command l ≡ some command
    → key_index_for r c ≡ some ki
    → let K = gmk67_keyboard bus disk in
      let w' = turn K now (received (set_keycode l r c kc first)) w in
      (turn K later (received (get_keycode l r c second)) w').replies
      ≡ w.replies ++ ((first, done (value tt)) ∷ (second, keycode (value kc)) ∷ [])
written-ReadBack bus disk now later l r c kc first second command ki w live area key =
    let K = gmk67_keyboard bus disk in
    let w' = turn K now (received (set_keycode l r c kc first)) w in
    let (sets, reads) = accepted bus disk l r c kc command ki w.device area key in
    let (live', device, replies) = set_keycode-answers K now l r c kc first w live sets in
    let reads' = ap (λ s. (K.get_keycode later l r c s).0) device ∙ reads in
    let (live_again, answers) = get_keycode-answers K later l r c kc second w' live' reads' in
    answers
    ∙ (ap (λ t. t ++ ((second, keycode (value kc)) ∷ [])) replies
        ∙ append_assoc w.replies ((first, done (value tt)) ∷ [])
            ((second, keycode (value kc)) ∷ []))
