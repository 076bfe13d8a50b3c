-- ===== src/Gmk67/Commit.antt =====
-- src/hal/legacy/gmk67.rs: `commit_to_nvram`, what it leaves in the shadow.
pub mod Sent
pub mod Ends
use clackd.Base.{
  ℕ, ◌≡◌, ◌≢◌, refl, sym, ap, ◌∙◌, List, [], ◌∷◌, ◌++◌, append_assoc, append-nil, true, false, none,
  some, arith, Option-cases, List-cases, inl, inr,
}
use clackd.Error.{DriverError, Result, ok, err, Result-cases, ◌>>=◌, ◌>>◌}
use clackd.Shadow.{ShadowState, is_dirty, dirty_layers, layer_entries, prepare_commit, rollback}
use clackd.Shadow.Store.{Disk, confirm_commit}
use clackd.Gmk67.Matrix.{keydef_command}
use clackd.Gmk67.Driver.{Gmk67Io, Gmk67Driver, indexed, push_layer, push_dirty_layers}
use clackd.Gmk67.Methods.{commit_to_nvram}
use clackd.Gmk67.Wire.{
  keymap_frames, recorded, Transacts, commit_keymap-Transacts, commit_keymap-rest,
}

module _ (bus : Gmk67Io) (disk : Disk) where
  pub push_layer-rest :
      (l : ℕ) (s : Gmk67Driver bus disk)
      → let s' = (push_layer bus disk l s).1 in s' ≡ record s { world = s'.world }
  unfolding push_layer
  push_layer-rest l s = elim (Option-cases (keydef_command l)) [
    | inl e ↦ rw (e, push_layer) refl
    | inr (command, e) ↦ elim (List-cases (indexed (layer_entries s.shadow l))) [
      | inl k ↦ rw (e, k, push_layer) refl
      | inr (x, xs, k) ↦ rw (e, k, push_layer) (commit_keymap-rest bus disk command (x ∷ xs) s)
    ]
  ]

  bind-rest :
      (m k : Gmk67Driver bus disk → Result (Unit {0}) × Gmk67Driver bus disk)
      (s : Gmk67Driver bus disk)
      → (m s).1 ≡ record s { world = (m s).1.world }
      → ((t : Gmk67Driver bus disk) → (k t).1 ≡ record t { world = (k t).1.world })
      → ((m >> k) s).1 ≡ record s { world = ((m >> k) s).1.world }
  bind-rest m k s h g =
      let at_world : bus.World → Gmk67Driver bus disk → Gmk67Driver bus disk =
        λ w x. record x { world = w } in
      elim (Result-cases (m s).0) [
        | inl (u, e) ↦ rw (e, ◌>>◌, ◌>>=◌) (g (m s).1 ∙ ap (at_world (k (m s).1).1.world) h)
        | inr (x, e) ↦ rw (e, ◌>>◌, ◌>>=◌) h
      ]

  push_dirty_layers-rest :
      (ls : List ℕ) (s : Gmk67Driver bus disk)
      → let s' = (push_dirty_layers bus disk ls s).1 in s' ≡ record s { world = s'.world }
  unfolding push_dirty_layers
  push_dirty_layers-rest [] s = refl
  push_dirty_layers-rest (l ∷ ls) s =
      bind-rest (push_layer bus disk l) (push_dirty_layers bus disk ls) s (push_layer-rest l s)
        (push_dirty_layers-rest ls)

  -- What a commit of a dirty shadow leaves: on success the confirmed shadow and its file, on failure
  -- the rolled back shadow and the files as they were.
  abbrev pub Commits : Gmk67Driver bus disk → Result (Unit {0}) × Gmk67Driver bus disk → Type 0
  Commits s (ok u, s') = (s'.shadow, s'.files) ≡ confirm_commit disk s.shadow s.files
  Commits s (err e, s') = (s'.shadow ≡ rollback s.shadow) × (s'.files ≡ s.files)

  confirm-prepare :
      (s : ShadowState) (w : disk.World)
      → confirm_commit disk (prepare_commit s) w ≡ confirm_commit disk s w
  unfolding confirm_commit prepare_commit
  confirm-prepare s w = refl

  rollback-prepare : (s : ShadowState) → rollback (prepare_commit s) ≡ rollback s
  unfolding rollback prepare_commit
  rollback-prepare s = refl

  pub commit-Commits :
      (s : Gmk67Driver bus disk)
      → is_dirty s.shadow ≡ true
      → Commits s (commit_to_nvram bus disk s)
        × ((commit_to_nvram bus disk s).1.lighting ≡ s.lighting)
  unfolding commit_to_nvram
  commit-Commits s d =
      let prepared : Gmk67Driver bus disk = record s { shadow = prepare_commit s.shadow } in
      let ls = dirty_layers prepared.shadow in
      let x = push_dirty_layers bus disk ls prepared in
      let h = push_dirty_layers-rest ls prepared in
      let shadow : x.1.shadow ≡ prepare_commit s.shadow = ap (λ t. t.shadow) h in
      let files : x.1.files ≡ s.files = ap (λ t. t.files) h in
      let lighting : x.1.lighting ≡ s.lighting = ap (λ t. t.lighting) h in
      elim (Result-cases x.0) [
        | inl (u, e) ↦
            rw (d, e, Commits, commit_to_nvram)
              (rw (shadow, files) (confirm-prepare s.shadow s.files), lighting)
        | inr (y, e) ↦
            rw (d, e, Commits, commit_to_nvram)
              ((ap rollback shadow ∙ rollback-prepare s.shadow, files), lighting)
      ]

  -- A commit without pending edits does nothing at all; with some, it confirms the shadow and saves it
  -- when the board takes the layers, and rolls it back and saves nothing when a frame fails. The
  -- lighting is not touched.
  pub commit_to_nvram_lem :
      (s : Gmk67Driver bus disk)
      → (is_dirty s.shadow ≡ false → commit_to_nvram bus disk s ≡ (ok tt, s))
        × (is_dirty s.shadow ≡ true
            → Commits s (commit_to_nvram bus disk s)
              × ((commit_to_nvram bus disk s).1.lighting ≡ s.lighting))
  unfolding commit_to_nvram
  commit_to_nvram_lem s = ((λ e. rw (e, commit_to_nvram) refl), commit-Commits s)
