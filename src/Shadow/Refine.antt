-- ===== src/Shadow/Refine.antt =====
-- src/hal/legacy/mod.rs against what it promises: a keymap being edited over the last committed
-- one.
--
-- `Op` is a call of the driver on the shadow, and `run` a session of them; each operation that
-- saves does it on the disk that the calls before it left.
use clackd.Base.{ℕ, ◌≡◌, refl, ◌∙◌, ap, some, List, [], ◌∷◌, String, arith, fun_ext, Ordering}
use clackd.Keymap.{Pos, Map, get, cmp}
use clackd.Keymap.Laws.{get-insert, cmp_refl}
use clackd.Keymap.Sorted.{IsSorted}
use clackd.Shadow.{
  ShadowState, set_keycode, get_keycode, prepare_commit, set_lighting, rollback, or_zero,
  CacheStatus, LightingState,
}
use clackd.Shadow.Store.{
  Disk, IsFaithful, Works, fresh, load, resolve_data_path, save, persist_lighting, confirm_commit,
  adopt_confirmed,
}
use clackd.Shadow.Invariant.{
  IsCoherent, set_keycode-IsCoherent, rollback-IsCoherent, prepare_commit-IsCoherent,
  confirm_commit-IsCoherent, adopt_confirmed-IsCoherent,
}
use clackd.Shadow.Persist.{load_path-IsCoherent, load_path-save}

pub data Op : Type 0 where
  sets : Pos → ℕ → Op
  relights : LightingState → Op
  persists prepares confirms rolls_back : Op
  adopts : (m : Map ℕ) → IsSorted m → Op

abbrev pub Session : Disk → Type 0
Session disk = ShadowState × disk.World

unfoldable pub step : (disk : Disk) → Session disk → Op → Session disk
unfolding persist_lighting confirm_commit adopt_confirmed
step disk (s, w) (sets p kc) = (set_keycode s p kc, w)
step disk (s, w) (relights l) = (set_lighting s l, w)
step disk (s, w) persists = (s, persist_lighting disk s w)
step disk (s, w) prepares = (prepare_commit s, w)
step disk (s, w) confirms = confirm_commit disk s w
step disk (s, w) rolls_back = (rollback s, w)
step disk (s, w) (adopts m h) = adopt_confirmed disk s m w

unfoldable pub run : (disk : Disk) → Session disk → List Op → Session disk
run disk x [] = x
run disk x (o ∷ os) = run disk (step disk x o) os

-- The abstract view: two functions.
pub record View : Type 0 where
  pub current : Pos → ℕ
  pub committed : Pos → ℕ

abbrev pub view : ShadowState → View
view s = record { current = get_keycode s; committed = λ p. or_zero (get s.confirmed p) }

abbrev pub write_at : (Pos → ℕ) → Pos → ℕ → Pos → ℕ
write_at f p kc q = elim (cmp q p) [ Ordering.eq ↦ kc | _ ↦ f q ]

abbrev view_step : View → Op → View
view_step v (sets p kc) = record v { current = write_at v.current p kc }
view_step v confirms = record v { committed = v.current }
view_step v rolls_back = record v { current = v.committed }
view_step v (adopts m h) = record {
  current = λ p. or_zero (get m p);
  committed = λ p. or_zero (get m p);
}
view_step v (relights l) = v
view_step v persists = v
view_step v prepares = v

abbrev pub view_run : View → List Op → View
view_run v [] = v
view_run v (o ∷ os) = view_run (view_step v o) os

view-set_keycode :
    (s : ShadowState) (p : Pos) (kc : ℕ) (q : Pos)
    → get_keycode (set_keycode s p kc) q ≡ write_at (get_keycode s) p kc q
unfolding get_keycode set_keycode
view-set_keycode s p kc q = ground (arith, get-insert s.keymap p kc q)

view-step :
    (disk : Disk) (x : Session disk) (o : Op) → view (step disk x o).0 ≡ view_step (view x.0) o
unfolding step get_keycode set_keycode confirm_commit adopt_confirmed rollback prepare_commit
    set_lighting
view-step disk (s, w) (sets p kc) = λ i. record {
  current = fun_ext (view-set_keycode s p kc) i;
  committed = λ q. or_zero (get s.confirmed q);
}
view-step disk (s, w) (relights l) = refl
view-step disk (s, w) persists = refl
view-step disk (s, w) prepares = refl
view-step disk (s, w) confirms = refl
view-step disk (s, w) rolls_back = refl
view-step disk (s, w) (adopts m h) = refl

-- Every session of calls acts on the two functions as the abstract one does.
pub view-run :
    (disk : Disk) (x : Session disk) (os : List Op)
    → view (run disk x os).0 ≡ view_run (view x.0) os
unfolding run
view-run disk x [] = refl
view-run disk x (o ∷ os) =
    view-run disk (step disk x o) os ∙ ap (λ v. view_run v os) (view-step disk x o)

step-IsCoherent :
    (disk : Disk) (x : Session disk) (o : Op) → IsCoherent x.0 → IsCoherent (step disk x o).0
unfolding step set_lighting
step-IsCoherent disk (s, w) (sets p kc) c = set_keycode-IsCoherent s p kc c
step-IsCoherent disk (s, w) (relights l) c = record {
  reads = c.reads;
  settled = c.settled;
  keymap_sorted = c.keymap_sorted;
  confirmed_sorted = c.confirmed_sorted;
  dirty_sorted = c.dirty_sorted;
}
step-IsCoherent disk (s, w) persists c = c
step-IsCoherent disk (s, w) prepares c = prepare_commit-IsCoherent s c
step-IsCoherent disk (s, w) confirms c = confirm_commit-IsCoherent disk s w c
step-IsCoherent disk (s, w) rolls_back c = rollback-IsCoherent s c
step-IsCoherent disk (s, w) (adopts m h) c = adopt_confirmed-IsCoherent disk s m w h

run-IsCoherent :
    (disk : Disk) (x : Session disk) (os : List Op) → IsCoherent x.0 → IsCoherent (run disk x os).0
unfolding run
run-IsCoherent disk x [] c = c
run-IsCoherent disk x (o ∷ os) c =
    run-IsCoherent disk (step disk x o) os (step-IsCoherent disk x o c)

-- Whatever stands on the disk, a session that begins with `load` keeps the shadow coherent: its
-- keymap reads as the confirmed one under the dirty entries, it is clean when it is confirmed, and
-- its three maps are in order.
pub run-load-IsCoherent :
    (disk : Disk) (w : disk.World) (device_id : String) (os : List Op)
    → IsCoherent (run disk (load disk w device_id, w) os).0
unfolding load
run-load-IsCoherent disk w device_id os =
    run-IsCoherent disk _ os (load_path-IsCoherent disk w (resolve_data_path disk device_id))

-- What `save` writes, `load` reads back as the settled shadow with the same keymap and lighting, on
-- a disk where no call fails.
pub load-save :
    (disk : Disk) (s : ShadowState) (w : disk.World) (device_id path : String)
    → IsFaithful disk
    → Works disk
    → IsCoherent s
    → resolve_data_path disk device_id ≡ some path
    → s.data_path ≡ some path
    → load disk (save disk s w) device_id ≡ fresh s.keymap s.lighting (some path)
unfolding load
load-save disk s w device_id path f k c r e =
    rw (r, load) (load_path-save disk f k s w path c.keymap_sorted e)

-- An edit that was never committed outlives its rollback on the disk: over a faithful disk where no
-- call fails, for a coherent shadow with a data path, after `set_keycode`, `persist_lighting` and
-- `rollback` the shadow reads the committed keycode, and the next `load` reads the edit, as confirmed
-- and with nothing to commit.
pub load_after_rollback :
    (disk : Disk) (s : ShadowState) (w : disk.World) (p : Pos) (kc : ℕ) (device_id path : String)
    → IsFaithful disk
    → Works disk
    → IsCoherent s
    → resolve_data_path disk device_id ≡ some path
    → s.data_path ≡ some path
    → let (s', w') = run disk (s, w) (sets p kc ∷ persists ∷ rolls_back ∷ []) in
      let next = load disk w' device_id in
      (get_keycode s' p ≡ or_zero (get s.confirmed p))
      × (get_keycode next p ≡ kc)
      × (next.status ≡ CacheStatus.confirmed)
      × (next.dirty ≡ [])
unfolding run step set_keycode rollback get_keycode persist_lighting fresh
load_after_rollback disk s w p kc device_id path f k c r e =
    let next =
      load-save disk (set_keycode s p kc) w device_id path f k (set_keycode-IsCoherent s p kc c) r
        e in
    (
      refl,
      rw next (ground (arith, get-insert s.keymap p kc p, cmp_refl p)),
      rw next refl,
      rw next refl,
    )
