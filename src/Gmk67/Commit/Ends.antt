-- ===== src/Gmk67/Commit/Ends.antt =====
-- src/hal/legacy/gmk67.rs: `commit_to_nvram`, how it ends, by what the board took.
use clackd.Base.{
  ℕ, zero, suc, ◌*◌, ◌≡◌, refl, sym, ap, ◌∙◌, List, [], ◌∷◌, ◌++◌, true, false, Option-cases,
  List-cases, inl, inr, take, drop,
}
use clackd.Error.{DriverError, Result, ok, err, Result-cases, ◌>>=◌, ◌>>◌}
use clackd.Shadow.{is_dirty, dirty_layers, layer_entries, prepare_commit, rollback}
use clackd.Shadow.Store.{Disk, save, confirm_commit}
use clackd.Gmk67.{
  frame_len, cmd_communication_end, cmd_turn_on_customization, cmd_led_effect_start, key_def_pages,
  encode_cmd, encode_start_keydef_page, encode_keydef_buffer,
}
use clackd.Gmk67.Matrix.{keydef_command}
use clackd.Gmk67.Driver.{
  Gmk67Io, Gmk67Driver, send, read_ack, or_abort, send_pages, commit_keymap_frames, commit_keymap,
  indexed, push_layer, push_dirty_layers,
}
use clackd.Gmk67.Methods.{commit_to_nvram}
use clackd.Gmk67.Wire.{recorded}
use clackd.Gmk67.Commit.{Commits, commit-Commits}
use clackd.Gmk67.Commit.Sent.{layers_frames, commit_to_nvram-frames}

module _ (bus : Gmk67Io) (disk : Disk) where
  -- The board refused a frame with this error.
  abbrev pub Refuses : DriverError → Type 0
  Refuses e = (frame : List ℕ) × (w : bus.World) × ((bus.set_feature frame w).0 ≡ err e)

  abbrev Step : Type 0
  Step = Gmk67Driver bus disk → Result (Unit {0}) × Gmk67Driver bus disk

  -- A call fails only with the error of a frame that the board refused.
  abbrev Blames : Step → Type 0
  Blames m = (s : Gmk67Driver bus disk) (e : DriverError) → (m s).0 ≡ err e → Refuses e

  fine : (e : DriverError) → ◌≡◌ {A = Result (Unit {0})} (ok tt) (err e) → Refuses e
  fine e h = cc

  bind-Blames : (m k : Step) → Blames m → Blames k → Blames (m >> k)
  bind-Blames m k h g s e q = elim (Result-cases (m s).0) [
    | inl (u, r) ↦ g (m s).1 e (rw (r, ◌>>◌, ◌>>=◌) at q)
    | inr (x, r) ↦ h s e (r ∙ (rw (r, ◌>>◌, ◌>>=◌) at q))
  ]

  send-Blames : (frame : List ℕ) → Blames (send bus disk frame)
  send-Blames frame s e q = (frame, s.world, q)

  paced-Blames :
      (frame : List ℕ) (k : Step)
      → Blames k
      → Blames (send bus disk frame >> (read_ack bus disk >> k))
  unfolding read_ack
  paced-Blames frame k h =
      bind-Blames (send bus disk frame) (read_ack bus disk >> k) (send-Blames frame)
        (bind-Blames (read_ack bus disk) k (λ s e q. fine e q) h)

  send_pages-Blames : (n p : ℕ) (buf : List ℕ) → Blames (send_pages bus disk n p buf)
  unfolding send_pages
  send_pages-Blames zero p buf = λ s e q. fine e q
  send_pages-Blames (suc n) p buf =
      paced-Blames (take frame_len (drop (p * frame_len) buf)) (send_pages bus disk n (suc p) buf)
        (send_pages-Blames n (suc p) buf)

  commit_keymap_frames-Blames :
      (command : ℕ) (entries : List (ℕ × ℕ))
      → Blames (commit_keymap_frames bus disk command entries)
  unfolding commit_keymap_frames
  commit_keymap_frames-Blames command entries =
      let last : Step = send bus disk (encode_cmd cmd_led_effect_start) in
      let end : Step =
        send bus disk (encode_cmd cmd_communication_end) >> (read_ack bus disk >> last) in
      let buf = encode_keydef_buffer entries in
      let body : Step = send_pages bus disk key_def_pages 0 buf >> end in
      let start : Step =
        send bus disk (encode_start_keydef_page command) >> (read_ack bus disk >> body) in
      paced-Blames (encode_cmd cmd_turn_on_customization) start (
        paced-Blames (encode_start_keydef_page command) body (
          bind-Blames (send_pages bus disk key_def_pages 0 buf) end
            (send_pages-Blames key_def_pages 0 buf)
            (paced-Blames (encode_cmd cmd_communication_end) last
              (send-Blames (encode_cmd cmd_led_effect_start)))))

  or_abort-error : (x : Result (Unit {0}) × Gmk67Driver bus disk) → (or_abort bus disk x).0 ≡ x.0
  or_abort-error (ok u, s) = refl
  or_abort-error (err e, s) = refl

  push_layer-Blames : (l : ℕ) → Blames (push_layer bus disk l)
  unfolding push_layer commit_keymap
  push_layer-Blames l s e q = elim (Option-cases (keydef_command l)) [
    | inl h ↦ fine e (rw (h, push_layer) at q)
    | inr (command, h) ↦ elim (List-cases (indexed (layer_entries s.shadow l))) [
      | inl k ↦ fine e (rw (h, k, push_layer) at q)
      | inr (x, xs, k) ↦ commit_keymap_frames-Blames command (x ∷ xs) s e (
          sym (or_abort-error (commit_keymap_frames bus disk command (x ∷ xs) s))
          ∙ (rw (h, k, push_layer) at q))
    ]
  ]

  push_dirty_layers-Blames : (ls : List ℕ) → Blames (push_dirty_layers bus disk ls)
  unfolding push_dirty_layers
  push_dirty_layers-Blames [] = λ s e q. fine e q
  push_dirty_layers-Blames (l ∷ ls) =
      bind-Blames (push_layer bus disk l) (push_dirty_layers bus disk ls) (push_layer-Blames l)
        (push_dirty_layers-Blames ls)

  commit-Blames :
      (s : Gmk67Driver bus disk) (e : DriverError)
      → is_dirty s.shadow ≡ true
      → (commit_to_nvram bus disk s).0 ≡ err e
      → Refuses e
  unfolding commit_to_nvram
  commit-Blames s e d q =
      let prepared : Gmk67Driver bus disk = record s { shadow = prepare_commit s.shadow } in
      let ls = dirty_layers prepared.shadow in
      elim (Result-cases (push_dirty_layers bus disk ls prepared).0) [
        | inl (u, r) ↦ fine e (rw (d, r, commit_to_nvram) at q)
        | inr (x, r) ↦
            push_dirty_layers-Blames ls prepared e (r ∙ (rw (d, r, commit_to_nvram) at q))
      ]

module _ (bus : Gmk67Io) (disk : Disk) where
  abbrev Board : Type 0
  Board = Gmk67Driver (recorded bus) disk

  -- With success every layer with pending edits was sent and the keymap is confirmed and saved; with
  -- an error the board refused a frame, and the keymap is the one committed last.
  abbrev pub Ends : Board → Result (Unit {0}) × Board → Type 0
  Ends s (ok u, s') =
      (s'.world.1 ≡ s.world.1 ++ layers_frames s.shadow (dirty_layers s.shadow))
      × (s'.shadow.keymap ≡ s.shadow.keymap)
      × (s'.shadow.confirmed ≡ s.shadow.keymap)
      × (s'.shadow.dirty ≡ [])
      × (s'.files ≡ save disk s'.shadow s.files)
      × (s'.lighting ≡ s.lighting)
  Ends s (err e, s') =
      Refuses bus disk e
      × (s'.shadow.keymap ≡ s.shadow.confirmed)
      × (s'.shadow.confirmed ≡ s.shadow.confirmed)
      × (s'.shadow.dirty ≡ [])
      × (s'.files ≡ s.files)
      × (s'.lighting ≡ s.lighting)

  Commits-Ends :
      (s : Board) (x : Result (Unit {0}) × Board)
      → Commits (recorded bus) disk s x × (x.1.lighting ≡ s.lighting)
      → (x.0 ≡ ok tt → x.1.world.1 ≡ s.world.1 ++ layers_frames s.shadow (dirty_layers s.shadow))
      → ((e : DriverError) → x.0 ≡ err e → Refuses (recorded bus) disk e)
      → Ends s x
  unfolding confirm_commit rollback
  Commits-Ends s (ok u, s') (c, l) sent blames =
      let shadow = ap (λ t. t.0) c in
      (
        sent refl,
        ap (λ t. t.keymap) shadow,
        ap (λ t. t.confirmed) shadow,
        ap (λ t. t.dirty) shadow,
        ap (λ t. t.1) c ∙ ap (λ t. save disk t s.files) (sym shadow),
        l,
      )
  Commits-Ends s (err e, s') (c, l) sent blames =
      let (frame, w, q) = blames e refl in
      (
        (frame, w.0, q),
        ap (λ t. t.keymap) c.0,
        ap (λ t. t.confirmed) c.0,
        ap (λ t. t.dirty) c.0,
        c.1,
        l,
      )

  -- A commit without pending edits does nothing at all. With some, it succeeds and has sent the
  -- whole transaction of every layer with pending edits, and the keymap is confirmed and given to
  -- `save`; or it fails with the error of a frame that the board refused, the keymap is the one
  -- committed last, and the files are as before. Either way nothing is pending and the lighting is
  -- not touched.
  pub commit_to_nvram-Ends :
      (s : Board)
      → (is_dirty s.shadow ≡ false → commit_to_nvram (recorded bus) disk s ≡ (ok tt, s))
        × (is_dirty s.shadow ≡ true → Ends s (commit_to_nvram (recorded bus) disk s))
  unfolding commit_to_nvram
  commit_to_nvram-Ends s = (
    λ e. rw (e, commit_to_nvram) refl,
    λ d.
        Commits-Ends s (commit_to_nvram (recorded bus) disk s)
          (commit-Commits (recorded bus) disk s d) (commit_to_nvram-frames bus disk s d)
          (λ e. commit-Blames (recorded bus) disk s e d),
  )
