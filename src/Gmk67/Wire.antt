-- ===== src/Gmk67/Wire.antt =====
-- src/hal/legacy/gmk67.rs: the frames of a transaction, in order, whatever fails.
use clackd.Base.{
  ℕ, zero, suc, ◌*◌, ◌<◌, ◌≡◌, refl, sym, ap, ◌∙◌, fun_ext, List, [], ◌∷◌, ◌++◌, append_assoc,
  append-nil, arith, inl, inr, take, drop, length,
}
use clackd.Error.{Result, ok, err, Result-cases, bind_assoc, ◌>>=◌, ◌>>◌}
use clackd.Shadow.Store.{Disk}
use clackd.Gmk67.{
  frame_len, cmd_communication_end, cmd_turn_on_customization, cmd_led_effect_start, key_def_pages,
  Lighting, encode, encode_cmd, encode_start_effect_page, encode_start_keydef_page,
  encode_keydef_buffer,
}
use clackd.Gmk67.Driver.{
  Gmk67Io, Gmk67Driver, send, read_ack, abort_transaction, or_abort, render_effect_frames,
  render_effect, send_pages, commit_keymap_frames, commit_keymap,
}

-- The pages of a buffer, `n` of them from `p` on.
abbrev pub pages : ℕ → ℕ → List ℕ → List (List ℕ)
pages zero p buf = []
pages (suc n) p buf = take frame_len (drop (p * frame_len) buf) ∷ pages n (suc p) buf

abbrev closing : List (List ℕ)
closing = encode_cmd cmd_communication_end ∷ encode_cmd cmd_led_effect_start ∷ []

-- The transactions as the protocol has them.
abbrev effect_frames : Lighting → List (List ℕ)
effect_frames lighting =
    encode_cmd cmd_turn_on_customization ∷ encode_start_effect_page ∷ encode lighting ∷ closing

abbrev pub keymap_frames : ℕ → List (ℕ × ℕ) → List (List ℕ)
keymap_frames command entries =
    encode_cmd cmd_turn_on_customization
    ∷ encode_start_keydef_page command
    ∷ (pages key_def_pages 0 (encode_keydef_buffer entries) ++ closing)

-- A board that keeps the frames that were sent to it, the latest last.
abbrev pub recorded : Gmk67Io → Gmk67Io
recorded bus = record {
  World = bus.World × List (List ℕ);
  set_feature = λ frame w. let (r, w') = bus.set_feature frame w.0 in (r, (w', w.1 ++ frame ∷ []));
  get_feature = λ id w. let (r, w') = bus.get_feature id w.0 in (r, (w', w.1));
}

module _ (bus : Gmk67Io) (disk : Disk) where
  -- The frames one by one, a read between any two.
  unfoldable transact :
      List (List ℕ) → Gmk67Driver bus disk → Result (Unit {0}) × Gmk67Driver bus disk
  transact [] s = (ok tt, s)
  transact (f ∷ []) s = send bus disk f s
  transact (f ∷ g ∷ fs) s = (send bus disk f >> (read_ack bus disk >> transact (g ∷ fs))) s

  render_effect_frames-transact :
      (l : Lighting) (s : Gmk67Driver bus disk)
      → render_effect_frames bus disk l s ≡ transact (effect_frames l) s
  unfolding render_effect_frames transact
  render_effect_frames-transact l s = refl

  transact-cons :
      (f : List ℕ) (xs : List (List ℕ)) (g : List ℕ) (gs : List (List ℕ)) (s : Gmk67Driver bus disk)
      → transact (f ∷ (xs ++ g ∷ gs)) s
        ≡ (send bus disk f >> (read_ack bus disk >> transact (xs ++ g ∷ gs))) s
  unfolding transact
  transact-cons f [] g gs s = refl
  transact-cons f (x ∷ xs) g gs s = refl

  send_pages-transact :
      (n p : ℕ) (buf g : List ℕ) (gs : List (List ℕ))
      → (send_pages bus disk n p buf >> transact (g ∷ gs)) ≡ transact (pages n p buf ++ g ∷ gs)
  unfolding send_pages
  send_pages-transact zero p buf g gs = refl
  send_pages-transact (suc n) p buf g gs =
      let page = send bus disk (take frame_len (drop (p * frame_len) buf)) in
      let rest = send_pages bus disk n (suc p) buf in
      let ack = read_ack bus disk in
      bind_assoc page (ack >> rest) (transact (g ∷ gs))
      ∙ ap (λ x. page >> x)
          (bind_assoc ack rest (transact (g ∷ gs))
            ∙ ap (λ x. ack >> x) (send_pages-transact n (suc p) buf g gs))
      ∙ sym (
          fun_ext
            (transact-cons (take frame_len (drop (p * frame_len) buf)) (pages n (suc p) buf) g gs))

  commit_keymap_frames-transact :
      (command : ℕ) (entries : List (ℕ × ℕ)) (s : Gmk67Driver bus disk)
      → commit_keymap_frames bus disk command entries s ≡ transact (keymap_frames command entries) s
  unfolding commit_keymap_frames transact
  commit_keymap_frames-transact command entries s =
      let on = send bus disk (encode_cmd cmd_turn_on_customization) in
      let start = send bus disk (encode_start_keydef_page command) in
      let ack = read_ack bus disk in
      let e =
        send_pages-transact key_def_pages 0 (encode_keydef_buffer entries)
          (encode_cmd cmd_communication_end) (encode_cmd cmd_led_effect_start ∷ []) in
      ap (λ x. (on >> (ack >> (start >> (ack >> x)))) s) e

  -- A transaction leaves everything but the board as it was.
  transact-rest :
      (fs : List (List ℕ)) (s : Gmk67Driver bus disk)
      → (transact fs s).1 ≡ record s { world = (transact fs s).1.world }
  unfolding transact read_ack
  transact-rest [] s = refl
  transact-rest (f ∷ []) s = refl
  transact-rest (f ∷ g ∷ fs) s =
      let next : Gmk67Driver bus disk = record s {
        world = (bus.get_feature 0 (bus.set_feature f s.world).1).1;
      } in
      elim (Result-cases (bus.set_feature f s.world).0) [
        | inl (u, e) ↦ rw (e, transact, ◌>>◌, ◌>>=◌) (transact-rest (g ∷ fs) next)
        | inr (x, e) ↦ rw (e, transact, ◌>>◌, ◌>>=◌) refl
      ]

  or_abort-rest :
      (x : Result (Unit {0}) × Gmk67Driver bus disk) (s : Gmk67Driver bus disk)
      → x.1 ≡ record s { world = x.1.world }
      → (or_abort bus disk x).1 ≡ record s { world = (or_abort bus disk x).1.world }
  unfolding abort_transaction
  or_abort-rest (ok u, t) s h = h
  or_abort-rest (err e, t) s h =
      let w = (bus.set_feature (encode_cmd cmd_communication_end) t.world).1 in
      let keep : Gmk67Driver bus disk → Gmk67Driver bus disk = λ x. record x { world = w } in
      ap keep h

  pub commit_keymap-rest :
      (command : ℕ) (entries : List (ℕ × ℕ)) (s : Gmk67Driver bus disk)
      → let s' = (commit_keymap bus disk command entries s).1 in s' ≡ record s { world = s'.world }
  unfolding commit_keymap
  commit_keymap-rest command entries s =
      rw (commit_keymap_frames-transact command entries s)
        (or_abort-rest _ s (transact-rest (keymap_frames command entries) s))

  pub render_effect-rest :
      (l : Lighting) (s : Gmk67Driver bus disk)
      → let s' = (render_effect bus disk l s).1 in s' ≡ record s { world = s'.world }
  unfolding render_effect
  render_effect-rest l s =
      rw (render_effect_frames-transact l s) (or_abort-rest _ s (transact-rest (effect_frames l) s))

module _ (bus : Gmk67Io) (disk : Disk) where
  abbrev Board : Type 0
  Board = Gmk67Driver (recorded bus) disk

  -- How a transaction ends: complete, or cut short behind the frame that failed, and then the abort
  -- frame.
  abbrev pub Transacts : List (List ℕ) → List (List ℕ) → Result (Unit {0}) × Board → Type 0
  Transacts fs before (ok u, s) = s.world.1 ≡ before ++ fs
  Transacts fs before (err e, s) =
      (n : ℕ) × (n < length fs)
      × (s.world.1 ≡ before ++ (take (suc n) fs ++ encode_cmd cmd_communication_end ∷ []))

  abbrev Cut : List (List ℕ) → List (List ℕ) → Result (Unit {0}) × Board → Type 0
  Cut fs before (ok u, s) = s.world.1 ≡ before ++ fs
  Cut fs before (err e, s) = (n : ℕ) × (n < length fs) × (s.world.1 ≡ before ++ take (suc n) fs)

  Cut-cons :
      (f : List ℕ) (fs before : List (List ℕ)) (x : Result (Unit {0}) × Board)
      → Cut fs (before ++ f ∷ []) x
      → Cut (f ∷ fs) before x
  Cut-cons f fs before (ok u, s) h = h ∙ append_assoc before (f ∷ []) fs
  Cut-cons f fs before (err e, s) (n, l, h) =
      (suc n, omega arith, h ∙ append_assoc before (f ∷ []) (take (suc n) fs))

  transact-Cut :
      (fs : List (List ℕ)) (s : Board) → Cut fs s.world.1 (transact (recorded bus) disk fs s)
  unfolding transact read_ack
  transact-Cut [] s = sym (append-nil s.world.1)
  transact-Cut (f ∷ []) s = elim (Result-cases (bus.set_feature f s.world.0).0) [
    | inl (u, e) ↦ rw (e, transact) refl
    | inr (x, e) ↦ rw (e, transact) (0, omega arith, refl)
  ]
  transact-Cut (f ∷ g ∷ fs) s =
      let w = (bus.set_feature f s.world.0).1 in
      let next : Board = record s { world = ((bus.get_feature 0 w).1, s.world.1 ++ f ∷ []) } in
      elim (Result-cases (bus.set_feature f s.world.0).0) [
        | inl (u, e) ↦
            rw (e, Cut, transact, ◌>>◌, ◌>>=◌)
              (Cut-cons f (g ∷ fs) s.world.1 _ (transact-Cut (g ∷ fs) next))
        | inr (x, e) ↦ rw (e, Cut, transact, ◌>>◌, ◌>>=◌) (0, omega arith, refl)
      ]

  or_abort-Transacts :
      (fs before : List (List ℕ)) (x : Result (Unit {0}) × Board)
      → Cut fs before x
      → Transacts fs before (or_abort (recorded bus) disk x)
  unfolding abort_transaction
  or_abort-Transacts fs before (ok u, s) h = h
  or_abort-Transacts fs before (err e, s) (n, l, h) = (
    n,
    l,
    ap (λ t. t ++ encode_cmd cmd_communication_end ∷ []) h
        ∙ append_assoc before (take (suc n) fs) (encode_cmd cmd_communication_end ∷ []),
  )

  -- A remap is sent as the whole transaction when it succeeds, and when it fails as a part from its
  -- start, followed by the frame that ends the communication.
  pub commit_keymap-Transacts :
      (command : ℕ) (entries : List (ℕ × ℕ)) (s : Board)
      → Transacts
          (keymap_frames command entries)
          s.world.1
          (commit_keymap (recorded bus) disk command entries s)
  unfolding commit_keymap
  commit_keymap-Transacts command entries s =
      rw (commit_keymap_frames-transact (recorded bus) disk command entries s) (
        or_abort-Transacts (keymap_frames command entries) s.world.1 _
          (transact-Cut (keymap_frames command entries) s))

  -- A lighting effect is sent as the whole transaction when it succeeds, and when it fails as a part
  -- from its start, followed by the frame that ends the communication.
  render_effect-Transacts :
      (l : Lighting) (s : Board)
      → Transacts (effect_frames l) s.world.1 (render_effect (recorded bus) disk l s)
  unfolding render_effect
  render_effect-Transacts l s =
      rw (render_effect_frames-transact (recorded bus) disk l s)
        (or_abort-Transacts (effect_frames l) s.world.1 _ (transact-Cut (effect_frames l) s))
