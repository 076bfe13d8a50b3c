-- ===== src/Shadow/Examples.antt =====
-- A disk in memory on which every call succeeds, and the shadow's theorems on it.
use Prim.Native.String.{◌++◌, count}
use text.Mathlib.Text.{◌==◌ as str_eq}
use text.Mathlib.TextEquality.{eq_iff}
use text.Mathlib.TextPositions.{eq_refl}
use text.Mathlib.TextLemmas.{length-append}
use clackd.Base.{◌≡◌, refl, ap, sym, Option, some, [], ◌∷◌, true, String, arith, if◌then◌else◌, ◌⊎◌}
use clackd.Keymap.{at, get, cmp}
use clackd.Shadow.{ShadowState, ShadowFile, get_keycode, CacheStatus, default_lighting}
use clackd.Shadow.Store.{
  Disk, Read, contents, not_found, IsFaithful, Works, load, fresh, save, resolve_data_path, file_of,
}
use clackd.Shadow.Invariant.{IsCoherent}
use clackd.Shadow.Persist.{save_atomic}
use clackd.Shadow.Refine.{
  sets, persists, confirms, rolls_back, run, view, view_run, run-load-IsCoherent, view-run,
  load-save, load_after_rollback,
}

abbrev Files : Type 0
Files = String → Read ShadowFile

abbrev put_file : Files → String → Read ShadowFile → Files
put_file w file r path = if str_eq path file then r else w path

abbrev memory : Disk
memory = record {
  World = Files;
  Text = ShadowFile;
  data_dir = some "/home";
  join = λ dir name. dir ++ "/" ++ name;
  parent = λ path. some "/home";
  with_extension = λ path ext. path ++ ext;
  read_to_string = λ w path. w path;
  create_dir_all = λ w dir. (true, w);
  write = λ w file text. (true, put_file w file (contents text));
  rename = λ w from to. (true, put_file w to (w from));
  to_string_pretty = λ sf. some sf;
  from_str = λ sf. some sf;
}

memory-IsFaithful : IsFaithful memory
memory-IsFaithful = record {
  tmp_ne = λ path e. absurd (omega (arith, ap count e, length-append path "json.tmp"));
  mkdir_keeps = λ w d p. refl;
  write_keeps = λ w f p t h. ground (arith, eq_iff p f);
  write_sets = λ w f t h. ground (arith, eq_refl f);
  rename_sets = λ w a b h. ground (arith, eq_refl b);
  rename_keeps = λ w a b h. cc;
  parse_print = λ sf t h. sym h;
}

memory-Works : Works memory
memory-Works = record {
  mkdir_works = λ w d. refl;
  write_works = λ w f t. refl;
  rename_works = λ w f t. refl;
  prints = λ sf. (sf, refl);
}

abbrev home : Option String
home = some "/home/05ac_024f.json"

-- One committed key, one edit that waits.
abbrev edited : ShadowState
edited = record {
  keymap = (at 0 0 0, 4) ∷ (at 0 1 1, 5) ∷ [];
  confirmed = (at 0 0 0, 4) ∷ [];
  dirty = (at 0 1 1, 5) ∷ [];
  lighting = default_lighting;
  status = CacheStatus.pending;
  data_path = home;
}

edited-IsCoherent : IsCoherent edited
unfolding get cmp
edited-IsCoherent = record {
  reads = λ p. ground arith;
  settled = λ e. cc;
  keymap_sorted = ((refl, tt), (tt, tt));
  confirmed_sorted = (tt, tt);
  dirty_sorted = (tt, tt);
}

no_files : Files
no_files path = not_found

run-load-IsCoherent_example :
    IsCoherent
      (run memory
        (load memory no_files "05ac_024f", no_files)
        (sets (at 0 0 0) 4 ∷ confirms ∷ [])).0
run-load-IsCoherent_example =
    run-load-IsCoherent memory no_files "05ac_024f" (sets (at 0 0 0) 4 ∷ confirms ∷ [])

view-run_example :
    view (run memory (edited, no_files) (sets (at 1 2 3) 9 ∷ rolls_back ∷ [])).0
    ≡ view_run (view edited) (sets (at 1 2 3) 9 ∷ rolls_back ∷ [])
view-run_example = view-run memory (edited, no_files) (sets (at 1 2 3) 9 ∷ rolls_back ∷ [])

save_atomic_example :
    (save memory edited no_files "/home/05ac_024f.json" ≡ no_files "/home/05ac_024f.json")
    ⊎ ((json : ShadowFile) × (some (file_of edited) ≡ some json)
        × (save memory edited no_files "/home/05ac_024f.json" ≡ contents json))
save_atomic_example =
    save_atomic memory memory-IsFaithful edited no_files "/home/05ac_024f.json" refl

load-save_example :
    load memory (save memory edited no_files) "05ac_024f"
    ≡ fresh edited.keymap default_lighting home
unfolding resolve_data_path
load-save_example =
    load-save memory edited no_files "05ac_024f" "/home/05ac_024f.json" memory-IsFaithful
      memory-Works edited-IsCoherent refl refl

load_after_rollback_example :
    let (s', w') = run memory (edited, no_files) (sets (at 0 0 0) 7 ∷ persists ∷ rolls_back ∷ []) in
    let next = load memory w' "05ac_024f" in
    (get_keycode s' (at 0 0 0) ≡ 4)
    × (get_keycode next (at 0 0 0) ≡ 7)
    × (next.status ≡ CacheStatus.confirmed)
    × (next.dirty ≡ [])
unfolding resolve_data_path get cmp
load_after_rollback_example =
    load_after_rollback memory edited no_files (at 0 0 0) 7 "05ac_024f" "/home/05ac_024f.json"
      memory-IsFaithful memory-Works edited-IsCoherent refl refl
