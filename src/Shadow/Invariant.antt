-- ===== src/Shadow/Invariant.antt =====
-- The shadow's invariant: the keymap is the confirmed one with the dirty entries over it.
use clackd.Base.{ℕ, ◌≡◌, refl, Option, none, some, [], arith}
use clackd.Keymap.{Pos, Map, get}
use clackd.Keymap.Laws.{get-insert}
use clackd.Keymap.Sorted.{IsSorted, insert-IsSorted}
use clackd.Shadow.{ShadowState, CacheStatus, ephemeral, set_keycode, prepare_commit, rollback}
use clackd.Shadow.Store.{Disk, confirm_commit, adopt_confirmed}

-- What is read through a layer of changes.
abbrev pub over : Option ℕ → Option ℕ → Option ℕ
over (some v) o = some v
over none o = o

pub record IsCoherent (s : ShadowState) : Type 0 where
  -- Reading the keymap is reading the dirty entries, and below them the confirmed ones.
  pub reads : (p : Pos) → get s.keymap p ≡ over (get s.dirty p) (get s.confirmed p)
  -- A confirmed shadow has no pending edit.
  pub settled : s.status ≡ CacheStatus.confirmed → s.dirty ≡ []
  pub keymap_sorted : IsSorted s.keymap
  pub confirmed_sorted : IsSorted s.confirmed
  pub dirty_sorted : IsSorted s.dirty

ephemeral-IsCoherent : IsCoherent ephemeral
unfolding ephemeral get
ephemeral-IsCoherent = record {
  reads = λ p. refl;
  settled = λ e. refl;
  keymap_sorted = tt;
  confirmed_sorted = tt;
  dirty_sorted = tt;
}

pub set_keycode-IsCoherent :
    (s : ShadowState) (p : Pos) (kc : ℕ) → IsCoherent s → IsCoherent (set_keycode s p kc)
unfolding set_keycode
set_keycode-IsCoherent s p kc c = record {
  reads = λ q. ground (arith, get-insert s.keymap p kc q, get-insert s.dirty p kc q, c.reads q);
  settled = λ e. cc;
  keymap_sorted = insert-IsSorted s.keymap p kc c.keymap_sorted;
  confirmed_sorted = c.confirmed_sorted;
  dirty_sorted = insert-IsSorted s.dirty p kc c.dirty_sorted;
}

-- A clean state over one sorted map.
abbrev settled_at : ShadowState → Map ℕ → CacheStatus → ShadowState
settled_at s m st = record s { keymap = m; confirmed = m; dirty = []; status = st }

settled-IsCoherent :
    (s : ShadowState) (m : Map ℕ) (st : CacheStatus) → IsSorted m → IsCoherent (settled_at s m st)
unfolding get
settled-IsCoherent s m st h = record {
  reads = λ p. refl;
  settled = λ e. refl;
  keymap_sorted = h;
  confirmed_sorted = h;
  dirty_sorted = tt;
}

pub rollback-IsCoherent : (s : ShadowState) → IsCoherent s → IsCoherent (rollback s)
unfolding rollback
rollback-IsCoherent s c = settled-IsCoherent s s.confirmed CacheStatus.failed c.confirmed_sorted

pub prepare_commit-IsCoherent : (s : ShadowState) → IsCoherent s → IsCoherent (prepare_commit s)
unfolding prepare_commit
prepare_commit-IsCoherent s c = record {
  reads = c.reads;
  settled = λ e. cc;
  keymap_sorted = c.keymap_sorted;
  confirmed_sorted = c.confirmed_sorted;
  dirty_sorted = c.dirty_sorted;
}

module _ (disk : Disk) where
  pub confirm_commit-IsCoherent :
      (s : ShadowState) (w : disk.World) → IsCoherent s → IsCoherent (confirm_commit disk s w).0
  unfolding confirm_commit
  confirm_commit-IsCoherent s w c =
      settled-IsCoherent s s.keymap CacheStatus.confirmed c.keymap_sorted

  pub adopt_confirmed-IsCoherent :
      (s : ShadowState) (m : Map ℕ) (w : disk.World)
      → IsSorted m
      → IsCoherent (adopt_confirmed disk s m w).0
  unfolding adopt_confirmed
  adopt_confirmed-IsCoherent s m w h = settled-IsCoherent s m CacheStatus.confirmed h
