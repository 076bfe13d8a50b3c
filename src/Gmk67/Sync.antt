-- ===== src/Gmk67/Sync.antt =====
-- src/hal/legacy/gmk67.rs: the read-back of the keymap at attach.
mod Reads
use clackd.Base.{
  ℕ, zero, suc, ◌+◌, ◌*◌, ◌≡◌, refl, ap, ◌∙◌, List, [], Bool, true, false, Option, none, some,
  Option-cases, inl, inr, if◌then◌else◌, ◌==◌, ◌%◌, get_or, ◌⊎◌,
}
use clackd.Error.{DriverError, Result, ok, err, Result-cases, ◌>>=◌, ◌>>◌}
use clackd.Keymap.{at, Map, insert}
use clackd.Keymap.Sorted.{IsSorted, insert-IsSorted}
use clackd.Shadow.Store.{Disk, adopt_confirmed}
use clackd.Gmk67.{
  key_def_pages, key_def_entry_marker, cmd_communication_end, cmd_turn_on_customization, encode_cmd,
  encode_start_keydef_page,
}
use clackd.Gmk67.Matrix.{keydef_read_command, find_matrix_pos_for_key_index}
use clackd.Gmk67.Driver.{Gmk67Io, Gmk67Driver, send, receive, read_ack, abort_transaction}
use clackd.Gmk67.Methods.{read_entries, read_pages, read_keydef_layer, read_layers, sync_eeprom}
use clackd.Gmk67.Sync.Reads.{Gives, read_layers-Gives}

module _ (bus : Gmk67Io) (disk : Disk) where
  abbrev Driver : Type 0
  Driver = Gmk67Driver bus disk

  -- The layers that have a read command, `n` of them from `layer` on, are read one behind the other
  -- without an error, each from the board that the one before left, and give `m'`.
  abbrev ReadsAll : ℕ → ℕ → Map ℕ → Driver → Map ℕ → Driver → Type 0
  ReadsAll zero layer m s m' s' = (m' ≡ m) × (s' ≡ s)
  ReadsAll (suc n) layer m s m' s' = elim (keydef_read_command layer) [
    | none ↦ ReadsAll n (suc layer) m s m' s'
    | some command ↦
        (m1 : Map ℕ) × (s1 : Driver) × (read_keydef_layer bus disk command layer m s ≡ (ok m1, s1))
        × ReadsAll n (suc layer) m1 s1 m' s'
  ]

  -- The first of these reads that fails does so with the error `e`.
  abbrev ReadFails : ℕ → ℕ → Map ℕ → Driver → DriverError → Type 0
  ReadFails zero layer m s e = ⊥
  ReadFails (suc n) layer m s e = elim (keydef_read_command layer) [
    | none ↦ ReadFails n (suc layer) m s e
    | some command ↦
        ((s1 : Driver) × (read_keydef_layer bus disk command layer m s ≡ (err e, s1)))
        ⊎ ((m1 : Map ℕ) × (s1 : Driver) × (read_keydef_layer bus disk command layer m s
              ≡ (ok m1, s1))
            × ReadFails n (suc layer) m1 s1 e)
  ]

  -- A read of layers succeeds when every layer was read, and else has the first error.
  Covers : ℕ → ℕ → Map ℕ → Driver → Result (Map ℕ) × Driver → Type 0
  Covers n layer m s (ok m', s') = ReadsAll n layer m s m' s'
  Covers n layer m s (err e, s') = ReadFails n layer m s e

  skipped-Covers :
      (n layer : ℕ) (m : Map ℕ) (s : Driver) (x : Result (Map ℕ) × Driver)
      → keydef_read_command layer ≡ none
      → Covers n (suc layer) m s x
      → Covers (suc n) layer m s x
  unfolding Covers
  skipped-Covers n layer m s (ok m', s') e h = rw (e, ReadsAll) h
  skipped-Covers n layer m s (err y, s') e h = rw (e, ReadFails) h

  read-Covers :
      (n layer command : ℕ) (m m1 : Map ℕ) (s s1 : Driver) (x : Result (Map ℕ) × Driver)
      → keydef_read_command layer ≡ some command
      → read_keydef_layer bus disk command layer m s ≡ (ok m1, s1)
      → Covers n (suc layer) m1 s1 x
      → Covers (suc n) layer m s x
  unfolding Covers
  read-Covers n layer command m m1 s s1 (ok m', s') e k h = rw (e, ReadsAll) (m1, s1, k, h)
  read-Covers n layer command m m1 s s1 (err y, s') e k h = rw (e, ReadFails) (inr (m1, s1, k, h))

  read_layers-Covers :
      (n layer : ℕ) (m : Map ℕ) (s : Driver) → Covers n layer m s (read_layers bus disk n layer m s)
  unfolding read_layers Covers
  read_layers-Covers zero layer m s = (refl, refl)
  read_layers-Covers (suc n) layer m s = elim (Option-cases (keydef_read_command layer)) [
    | inl e ↦
        rw (e, read_layers) (skipped-Covers n layer m s _ e (read_layers-Covers n (suc layer) m s))
    | inr (command, e) ↦
        rw (e, read_layers)
          (after (read_layers-Covers n (suc layer)) command e
            (read_keydef_layer bus disk command layer m s) refl)
  ]
    where
      after :
          ((m' : Map ℕ) (t : Driver)
            → Covers n (suc layer) m' t (read_layers bus disk n (suc layer) m' t))
          → (command : ℕ) → keydef_read_command layer ≡ some command
          → (x : Result (Map ℕ) × Driver) → read_keydef_layer bus disk command layer m s ≡ x
          → Covers (suc n) layer m s (elim x.0 [
            | ok m' ↦ read_layers bus disk n (suc layer) m' x.1
            | err e ↦ (err e, abort_transaction bus disk x.1)
          ])
      after rest command e (ok m', t) k = read-Covers n layer command m m' s t _ e k (rest m' t)
      after rest command e (err y, t) k = rw (e, ReadFails) (inl (t, k))

  -- What the read-back leaves: with success the keymap that every layer's read gave, in order, as the
  -- confirmed one and in the file, and with an error, that of the first read that failed, everything
  -- but the board as it was.
  abbrev pub Syncs : Driver → Result (Unit {0}) × Driver → Type 0
  Syncs s (ok u, s') =
      (m : Map ℕ) × (t : Driver) × ReadsAll s.layers 0 [] s m t
      × IsSorted m
      × ((s'.shadow, s'.files) ≡ adopt_confirmed disk s.shadow m s.files)
      × (s'.shadow.confirmed ≡ m)
      × (s'.shadow.keymap ≡ m)
      × (s'.lighting ≡ s.lighting)
  Syncs s (err e, s') = (s' ≡ record s { world = s'.world }) × ReadFails s.layers 0 [] s e

  pub sync_eeprom-Syncs : (s : Driver) → Syncs s (sync_eeprom bus disk s)
  unfolding sync_eeprom Covers adopt_confirmed
  sync_eeprom-Syncs s =
      after (read_layers bus disk s.layers 0 [] s) (read_layers-Gives bus disk s.layers 0 [] s tt)
        (read_layers-Covers s.layers 0 [] s)
    where
      after :
          (x : Result (Map ℕ) × Driver)
          → Gives bus disk (IsSorted {V = ℕ}) s x
          → Covers s.layers 0 [] s x
          → Syncs s (elim x.0 [
            | ok entries ↦
                let (shadow, files) = adopt_confirmed disk x.1.shadow entries x.1.files in
                (ok tt, record x.1 { shadow = shadow; files = files })
            | err e ↦ (err e, x.1)
          ])
      after (ok m, t) (k, r) all = (
        m,
        t,
        all,
        k,
        ap (λ u. adopt_confirmed disk u.shadow m u.files) r,
        refl,
        refl,
        ap (λ u. u.lighting) r,
      )
      after (err e, t) r fails = (r, fails)
