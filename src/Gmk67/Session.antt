-- ===== src/Gmk67/Session.antt =====
-- src/hal/legacy/gmk67.rs: sessions of calls of the driver.
use clackd.Base.{
  ℕ, ◌≡◌, refl, ap, ◌∙◌, List, [], ◌∷◌, Bool, true, not, ◌||◌, none, some, arith, Option-cases,
  Bool-cases, inl, inr, ◌⊎◌,
}
use clackd.Error.{Result, ok, err}
use clackd.Keymap.{Pos, Map}
use clackd.Keymap.Laws.{get-insert, cmp_refl}
use clackd.Shadow
use clackd.Shadow.{ShadowState, LightingState, is_dirty, rollback}
use clackd.Shadow.Store.{Disk, load, resolve_data_path, confirm_commit, adopt_confirmed}
use clackd.Shadow.Invariant.{
  IsCoherent, set_keycode-IsCoherent, rollback-IsCoherent, confirm_commit-IsCoherent,
  adopt_confirmed-IsCoherent,
}
use clackd.Shadow.Persist.{load_path-IsCoherent}
use clackd.Gmk67.{Lighting, to_lighting_state, from_lighting_state}
use clackd.Gmk67.Matrix.{key_index_for, keydef_command}
use clackd.Gmk67.Driver.{Gmk67Io, Gmk67Driver, new}
use clackd.Gmk67.Methods.{
  no_area, no_key, requested, get_keycode, set_keycode, set_lighting, commit_to_nvram,
  maybe_sync_on_attach, get_matrix_dimensions,
}
use clackd.Gmk67.Commit.{Commits, commit_to_nvram_lem}
use clackd.Gmk67.Lights.{Lit, set_lighting_lem}
use clackd.Gmk67.Sync.{Syncs, sync_eeprom-Syncs}

-- The calls that change the driver's state.
pub data Op : Type 0 where
  sets : Pos → ℕ → Op
  lights : ℕ → ℕ → List ℕ → Op
  commits queries : Op

read_back :
    (s : ShadowState) (p : Pos) (kc : ℕ) → Shadow.get_keycode (Shadow.set_keycode s p kc) p ≡ kc
unfolding Shadow.get_keycode Shadow.set_keycode
read_back s p kc = ground (arith, get-insert s.keymap p kc p, cmp_refl p)

set_keycode-lighting :
    (s : ShadowState) (p : Pos) (kc : ℕ) → (Shadow.set_keycode s p kc).lighting ≡ s.lighting
unfolding Shadow.set_keycode
set_keycode-lighting s p kc = refl

set_lighting-IsCoherent :
    (s : ShadowState) (l : LightingState) → IsCoherent s → IsCoherent (Shadow.set_lighting s l)
unfolding Shadow.set_lighting
set_lighting-IsCoherent s l c = record {
  reads = c.reads;
  settled = c.settled;
  keymap_sorted = c.keymap_sorted;
  confirmed_sorted = c.confirmed_sorted;
  dirty_sorted = c.dirty_sorted;
}

set_lighting-lighting :
    (s : ShadowState) (l : LightingState) → (Shadow.set_lighting s l).lighting ≡ l
unfolding Shadow.set_lighting
set_lighting-lighting s l = refl

rollback-lighting : (s : ShadowState) → (rollback s).lighting ≡ s.lighting
unfolding rollback
rollback-lighting s = refl

module _ (bus : Gmk67Io) (disk : Disk) where
  abbrev pub Driver : Type 0
  Driver = Gmk67Driver bus disk

  abbrev Accepted : Driver → Pos → ℕ → Result (Unit {0}) × Driver → Type 0
  Accepted s p kc (r, s') =
      ((r ≡ ok tt)
        × ((get_keycode bus disk p s').0 ≡ ok kc)
        × ((command : ℕ) × (keydef_command p.layer ≡ some command))
        × ((ki : ℕ) × (key_index_for p.row p.col ≡ some ki)))
      ⊎ ((s' ≡ s)
          × (((r ≡ err no_area) × (keydef_command p.layer ≡ none))
              ⊎ ((r ≡ err no_key) × (key_index_for p.row p.col ≡ none))))

  -- A keycode write is accepted exactly where the layer has a key-definition area and the position a
  -- key; it is then read back at once, and otherwise the state is as before.
  pub set_keycode_lem :
      (s : Driver) (p : Pos) (kc : ℕ) → Accepted s p kc (set_keycode bus disk p kc s)
  unfolding set_keycode get_keycode
  set_keycode_lem s p kc = elim (Option-cases (keydef_command p.layer)) [
    | inl e ↦ inr (rw (e, set_keycode) refl, inl (rw (e, set_keycode) refl, e))
    | inr (command, e) ↦ elim (Option-cases (key_index_for p.row p.col)) [
      | inl k ↦ inr (rw (e, k, set_keycode) refl, inr (rw (e, k, set_keycode) refl, k))
      | inr (ki, k) ↦ inl (
        rw (e, k, set_keycode) refl,
        rw (e, k, set_keycode) (ap answer (read_back s.shadow p kc)),
        (command, e),
        (ki, k),
      )
    ]
  ]
    where
      answer : ℕ → Result ℕ
      answer = ok

  unfoldable pub step : Driver → Op → Driver
  step s (sets p kc) = (set_keycode bus disk p kc s).1
  step s (lights channel value_id bytes) = (set_lighting bus disk channel value_id bytes s).1
  step s commits = (commit_to_nvram bus disk s).1
  step s queries = (get_matrix_dimensions bus disk s).1

  unfoldable pub run : Driver → List Op → Driver
  run s [] = s
  run s (o ∷ os) = run (step s o) os

  -- The shadow is coherent, and it holds the live lighting.
  abbrev pub IsConsistent : Driver → Type 0
  IsConsistent s = IsCoherent s.shadow × (s.shadow.lighting ≡ to_lighting_state s.lighting)

  set_keycode-IsConsistent :
      (s : Driver) (p : Pos) (kc : ℕ)
      → IsConsistent s
      → IsConsistent (set_keycode bus disk p kc s).1
  unfolding set_keycode
  set_keycode-IsConsistent s p kc h = elim (Option-cases (keydef_command p.layer)) [
    | inl e ↦ rw (e, set_keycode) h
    | inr (command, e) ↦ elim (Option-cases (key_index_for p.row p.col)) [
      | inl k ↦ rw (e, k, set_keycode) h
      | inr (ki, k) ↦
          rw (e, k, set_keycode)
            (set_keycode-IsCoherent s.shadow p kc h.0, set_keycode-lighting s.shadow p kc ∙ h.1)
    ]
  ]

  -- Only the board differs.
  world-IsConsistent :
      (s t : Driver) (w : bus.World) → t ≡ record s { world = w } → IsConsistent s → IsConsistent t
  world-IsConsistent s t w e h = rw e h

  lights-IsConsistent :
      (s : Driver) (asked : Result Lighting) (x : Result (Unit {0}) × Driver)
      → Lit bus disk s asked x
      → IsConsistent s
      → IsConsistent x.1
  lights-IsConsistent s asked (ok u, t) (l, a, m, e, k, f) h =
      rw (e, k)
        (
          set_lighting-IsCoherent s.shadow (to_lighting_state l) h.0,
          set_lighting-lighting s.shadow (to_lighting_state l),
        )
  lights-IsConsistent s asked (err y, t) e h = world-IsConsistent s t t.world e h

  confirm_commit-lighting :
      (s : ShadowState) (w : disk.World) → (confirm_commit disk s w).0.lighting ≡ s.lighting
  unfolding confirm_commit
  confirm_commit-lighting s w = refl

  adopt_confirmed-lighting :
      (s : ShadowState) (m : Map ℕ) (w : disk.World)
      → (adopt_confirmed disk s m w).0.lighting ≡ s.lighting
  unfolding adopt_confirmed
  adopt_confirmed-lighting s m w = refl

  Commits-IsConsistent :
      (s : Driver) (x : Result (Unit {0}) × Driver)
      → Commits bus disk s x
      → x.1.lighting ≡ s.lighting
      → IsConsistent s
      → IsConsistent x.1
  Commits-IsConsistent s (ok u, t) e l h =
      let shadow : t.shadow ≡ (confirm_commit disk s.shadow s.files).0 = ap (λ x. x.0) e in
      rw (shadow, l)
        (
          confirm_commit-IsCoherent disk s.shadow s.files h.0,
          confirm_commit-lighting s.shadow s.files ∙ h.1,
        )
  Commits-IsConsistent s (err y, t) e l h =
      rw (e.0, l) (rollback-IsCoherent s.shadow h.0, rollback-lighting s.shadow ∙ h.1)

  Syncs-IsConsistent :
      (s : Driver) (x : Result (Unit {0}) × Driver)
      → Syncs bus disk s x
      → IsConsistent s
      → IsConsistent x.1
  Syncs-IsConsistent s (ok u, t) (m, _, _, k, e, _, _, l) h =
      let shadow : t.shadow ≡ (adopt_confirmed disk s.shadow m s.files).0 = ap (λ x. x.0) e in
      rw (shadow, l)
        (
          adopt_confirmed-IsCoherent disk s.shadow m s.files k,
          adopt_confirmed-lighting s.shadow m s.files ∙ h.1,
        )
  Syncs-IsConsistent s (err y, t) e h = world-IsConsistent s t t.world e.0 h

  step-IsConsistent : (s : Driver) (o : Op) → IsConsistent s → IsConsistent (step s o)
  unfolding step get_matrix_dimensions maybe_sync_on_attach
  step-IsConsistent s (sets p kc) h = set_keycode-IsConsistent s p kc h
  step-IsConsistent s (lights channel value_id bytes) h =
      lights-IsConsistent s (requested bus disk s.lighting channel value_id bytes) _
        (set_lighting_lem bus disk s channel value_id bytes) h
  step-IsConsistent s commits h = elim (Bool-cases (is_dirty s.shadow)) [
    | inl e ↦ let (c, l) = (commit_to_nvram_lem bus disk s).1 e in Commits-IsConsistent s _ c l h
    | inr e ↦ rw ((commit_to_nvram_lem bus disk s).0 e, step) h
  ]
  step-IsConsistent s queries h = elim (Bool-cases (not s.sync_on_attach || s.synced)) [
    | inl e ↦ rw e h
    | inr e ↦
        let started : Driver = record s { synced = true } in
        rw e (Syncs-IsConsistent started _ (sync_eeprom-Syncs bus disk started) h)
  ]

  run-IsConsistent : (s : Driver) (os : List Op) → IsConsistent s → IsConsistent (run s os)
  unfolding run
  run-IsConsistent s [] h = h
  run-IsConsistent s (o ∷ os) h = run-IsConsistent (step s o) os (step-IsConsistent s o h)

  -- From the driver that `new` builds, whatever stands on the disk, whatever calls are made and
  -- whichever frames fail, the shadow stays coherent and holds the live lighting.
  pub run-new-IsConsistent :
      (w : bus.World) (files : disk.World) (matrix : ℕ × ℕ) (layers : ℕ) (sync : Bool)
      (os : List Op)
      → IsConsistent (run (new bus disk w files matrix layers sync) os)
  unfolding new load to_lighting_state from_lighting_state
  run-new-IsConsistent w files matrix layers sync os =
      run-IsConsistent (new bus disk w files matrix layers sync) os
        (load_path-IsCoherent disk files (resolve_data_path disk "05ac_024f"), refl)
