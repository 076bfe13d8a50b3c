-- ===== src/Hal.antt =====
-- src/hal/mod.rs: the trait `KeyboardDriver`, as an interface that the engine takes and both drivers
-- fill. A method that takes `&mut self` returns its result and the new state; `now` is the clock, in
-- milliseconds, which a driver with a timer of its own reads.
use clackd.Base.{ℕ, List, Bool, String}
use clackd.Error.{Result}

pub record KeyboardDriver : Type 1 where
  pub State : Type 0
  pub get_matrix_dimensions : ℕ → State → Result (ℕ × ℕ) × State
  pub get_layer_count : ℕ → State → Result ℕ × State
  pub get_keycode : ℕ → ℕ → ℕ → ℕ → State → Result ℕ × State
  pub set_keycode : ℕ → ℕ → ℕ → ℕ → ℕ → State → Result (Unit {0}) × State
  pub get_macro_buffer : ℕ → ℕ → ℕ → State → Result (List ℕ) × State
  pub set_macro_buffer : ℕ → ℕ → List ℕ → State → Result (Unit {0}) × State
  pub get_lighting : ℕ → ℕ → ℕ → State → Result (List ℕ) × State
  pub set_lighting : ℕ → ℕ → ℕ → List ℕ → State → Result (Unit {0}) × State
  pub commit_to_nvram : ℕ → State → Result (Unit {0}) × State
  pub emits_layout_event_per_set : State → Bool
  pub model_name : State → String
