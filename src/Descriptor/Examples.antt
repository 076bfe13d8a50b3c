-- ===== src/Descriptor/Examples.antt =====
-- A short report descriptor, and the walk over it.
use clackd.Base.{ℕ, ◌≡◌, refl, List, [], ◌∷◌, true}
use clackd.Descriptor.{page_of, scan, hid_descriptor_has_usage_page}

-- A usage page of two bytes, 0xFF60, and a usage.
abbrev short : List ℕ
short = 0x06 ∷ 0x60 ∷ 0xff ∷ 0x09 ∷ 0x61 ∷ []

found : hid_descriptor_has_usage_page short 0xff60 ≡ true
unfolding hid_descriptor_has_usage_page scan page_of
found = refl

-- A report count of 64 and a feature item.
abbrev vendor : List ℕ
vendor = 0x95 ∷ 0x40 ∷ 0xb1 ∷ 0x02 ∷ []
