-- ===== src/Error.antt =====
-- `DriverError` of src/hal/mod.rs, and the results and stateful calls that every driver returns.
use clackd.Base.{ℕ, Bool, true, false, String, ◌≡◌, refl, fun_ext, arith, ◌⊎◌, inl, inr}

-- Texts that only reach a log or a message are strings; an `std::io::Error` is its number.
pub data DriverError : Type 0 where
  io : ℕ → DriverError
  timeout : String → DriverError
  permission_denied : String → DriverError
  protocol_violation : String → DriverError
  disconnected : DriverError
  unsupported : String → DriverError
  vendor_compile : String → DriverError

pub data Result {ℓ} (A : Type ℓ) : Type ℓ where
  ok : A → Result A
  err : DriverError → Result A

abbrev pub is_ok {ℓ} : {A : Type ℓ} → Result A → Bool
is_ok (ok a) = true
is_ok (err e) = false

-- A method that takes `&mut self` returns its result and the new state; `?` is the bind.
abbrev pub Call {ℓ} : Type 0 → Type ℓ → Type ℓ
Call S A = S → Result A × S

infixl 5 ◌>>=◌ ◌>>◌
abbrev pub ◌>>=◌ {ℓ κ} :
    {S : Type 0} {A : Type ℓ} {B : Type κ} → Call S A → (A → Call S B) → Call S B
◌>>=◌ m f s = let (r, s') = m s in elim r [ ok a ↦ f a s' | err e ↦ (err e, s') ]

abbrev pub ◌>>◌ {ℓ κ} : {S : Type 0} {A : Type ℓ} {B : Type κ} → Call S A → Call S B → Call S B
m >> k = m >>= λ _. k

abbrev pub pure {ℓ} : {S : Type 0} {A : Type ℓ} → A → Call S A
pure a s = (ok a, s)

abbrev pub fail {ℓ} : {S : Type 0} {A : Type ℓ} → DriverError → Call S A
fail e s = (err e, s)

-- `self.f = v` and reads of a field.
abbrev pub modify : {S : Type 0} → (S → S) → Call S (Unit {0})
modify f s = (ok tt, f s)

abbrev pub reads {ℓ} : {S : Type 0} {A : Type ℓ} → (S → A) → Call S A
reads f s = (ok (f s), s)

pub Result-cases {ℓ} :
    {A : Type ℓ} (r : Result A) → ((a : A) × (r ≡ ok a)) ⊎ ((e : DriverError) × (r ≡ err e))
Result-cases (ok a) = inl (a, refl)
Result-cases (err e) = inr (e, refl)

pub bind_assoc :
    {S A B C : Type 0} (m : Call S A) (n : Call S B) (k : Call S C)
    → ((m >> n) >> k) ≡ (m >> (n >> k))
bind_assoc m n k = fun_ext λ s. ground arith
