-- ===== src/Engine/Worker/Examples.antt =====
-- A buffered keyboard that holds one keycode, and the worker's theorems over it.
use clackd.Base.{ℕ, ◌≡◌, true, refl, [], ◌∷◌, false, none, arith}
use clackd.Error.{ok, err, disconnected}
use clackd.Hal.{KeyboardDriver}
use clackd.Gmk67.{default}
use clackd.Gmk67.Wire.{recorded}
use clackd.Gmk67.Examples.{board, no_disk, plain, edited}
use clackd.Gmk67.Methods
use clackd.Gmk67.Matrix.{keydef_command, key_index_for}
use clackd.Engine.{get_keycode, set_keycode, commit, value}
use clackd.Engine.Worker.{
  done, keycode, received, closed, expired, Worker, spawn, turn, run_device_worker,
}
use clackd.Engine.Worker.Replies.{Answers, AnswersFirst, turn-Answers, run-AnswersFirst}
use clackd.Engine.Worker.Debounce.{observed, IsDebounced, spawn-IsDebounced, run-IsDebounced}
use clackd.Engine.Written.{written-ReadBack}
use clackd.Engine.Drivers.{gmk67_keyboard, Settles, edit-Settles}

-- Unplugged, it answers nothing.
abbrev pub one_key : KeyboardDriver
one_key = record {
  State = ℕ;
  get_matrix_dimensions = λ now s. (ok (1, 1), s);
  get_layer_count = λ now s. (ok 1, s);
  get_keycode = λ now l r c s. (ok s, s);
  set_keycode = λ now l r c kc s. (ok tt, kc);
  get_macro_buffer = λ now o n s. (ok [], s);
  set_macro_buffer = λ now o bs s. (ok tt, s);
  get_lighting = λ now c v s. (err disconnected, s);
  set_lighting = λ now c v bs s. (ok tt, s);
  commit_to_nvram = λ now s. (ok tt, s);
  emits_layout_event_per_set = λ s. false;
  model_name = λ s. "one key";
}

turn-Answers_example :
    Answers one_key
      (spawn one_key 4)
      (get_keycode 0 0 0 9)
      (turn one_key 100 (received (get_keycode 0 0 0 9)) (spawn one_key 4))
unfolding spawn
turn-Answers_example = turn-Answers one_key 100 (get_keycode 0 0 0 9) (spawn one_key 4) refl

run-AnswersFirst_example : AnswersFirst one_key (7 ∷ 8 ∷ []) (spawn one_key 4) (
    run_device_worker one_key
      ((100, received (set_keycode 0 0 0 5 7)) ∷ (200, received (commit 8)) ∷ (300, closed) ∷ [])
      (spawn one_key 4))
run-AnswersFirst_example =
    run-AnswersFirst one_key
      ((100, received (set_keycode 0 0 0 5 7)) ∷ (200, received (commit 8)) ∷ (300, closed) ∷ [])
      (spawn one_key 4)

run-IsDebounced_example : IsDebounced one_key (
    run_device_worker
      (observed one_key)
      ((100, received (set_keycode 0 0 0 5 7)) ∷ (200, closed) ∷ [])
      (spawn (observed one_key) (4, [])))
run-IsDebounced_example =
    run-IsDebounced one_key ((100, received (set_keycode 0 0 0 5 7)) ∷ (200, closed) ∷ [])
      (spawn (observed one_key) (4, [])) (spawn-IsDebounced one_key 4)

abbrev gmk67_worker : Worker (gmk67_keyboard board no_disk)
gmk67_worker = record {
  device = plain;
  commit_deadline = none;
  replies = [];
  updates = 0;
  notices = 0;
  running = true;
}

-- The same keyboard, with the frames that it was sent.
abbrev recorded_worker : Worker (gmk67_keyboard (recorded board) no_disk)
recorded_worker = record {
  device = record {
    world = (100, []);
    files = tt;
    matrix = (5, 15);
    layers = 2;
    shadow = edited;
    lighting = default;
    sync_on_attach = true;
    synced = false;
  };
  commit_deadline = none;
  replies = [];
  updates = 0;
  notices = 0;
  running = true;
}

edit-Settles_example :
    let K = gmk67_keyboard (recorded board) no_disk in
    Settles board no_disk 0 1 0 9 recorded_worker
      (turn K 700 expired (turn K 100 (received (set_keycode 0 1 0 9 7)) recorded_worker))
unfolding Methods.set_keycode keydef_command key_index_for
edit-Settles_example =
    edit-Settles board no_disk 100 700 0 1 0 9 7 recorded_worker refl refl (omega arith)

written-ReadBack_example :
    let K = gmk67_keyboard board no_disk in
    let w' = turn K 100 (received (set_keycode 0 1 0 9 7)) gmk67_worker in
    (turn K 101 (received (get_keycode 0 1 0 8)) w').replies
    ≡ (7, done (value tt)) ∷ (8, keycode (value 9)) ∷ []
unfolding keydef_command key_index_for
written-ReadBack_example =
    written-ReadBack board no_disk 100 101 0 1 0 9 7 8 0x11 37 gmk67_worker refl refl refl
