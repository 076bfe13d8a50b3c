-- ===== src/Clackctl/Dump.antt =====
-- src/bin/clackctl/main.rs: the dump of a macro shows every byte.
use clackd.Base.{
  ℕ, zero, suc, ◌+◌, ◌-◌, ◌*◌, ◌≤◌, ◌≡◌, arith, List, [], ◌∷◌, length, drop, length-drop,
}
use clackd.Clackctl.Listings.{dump}

-- There are lines for all of the bytes: with as many lines as bytes the fuel is enough.
dump-length :
    (fuel addr : ℕ) (bs : List ℕ) → length bs ≤ fuel → length bs ≤ length (dump fuel addr bs) * 16
unfolding dump
dump-length zero addr bs h = omega arith
dump-length (suc fuel) addr [] h = omega arith
dump-length (suc fuel) addr (b ∷ bs) h =
    let rest = drop 16 (b ∷ bs) in
    let left : length rest ≡ length (b ∷ bs) - 16 = length-drop 16 (b ∷ bs) in
    let more = dump-length fuel (addr + 16) rest (omega (arith, left)) in omega (arith, left, more)
