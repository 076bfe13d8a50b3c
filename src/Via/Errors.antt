-- ===== src/Via/Errors.antt =====
-- src/hal/via.rs: which errors of the operating system count as an unplugged keyboard.
use clackd.Base.{ℕ, ◌≡◌, ◌⊎◌, String, arith}
use clackd.Error.{disconnected}
use clackd.Via.{classify_open_errno, classify_io_error, enoent, enodev, epipe}

-- While a node is opened, ENODEV and ENOENT count as unplugged; on an open node, ENOENT and EPIPE
-- do, and ENODEV does not.
classify-disconnected :
    (errno : ℕ) (path : String)
    → (classify_open_errno errno path ≡ disconnected → (errno ≡ enodev) ⊎ (errno ≡ enoent))
      × ((errno ≡ enodev) ⊎ (errno ≡ enoent) → classify_open_errno errno path ≡ disconnected)
      × (classify_io_error errno ≡ disconnected → (errno ≡ enoent) ⊎ (errno ≡ epipe))
      × ((errno ≡ enoent) ⊎ (errno ≡ epipe) → classify_io_error errno ≡ disconnected)
unfolding classify_open_errno classify_io_error
classify-disconnected errno path =
    (λ e. ground arith, λ e. ground arith, λ e. ground arith, λ e. ground arith)
