-- ===== src/Descriptor/Walk.antt =====
-- src/hal/via.rs: the walk over a report descriptor against the items that it has.
use clackd.Base.{
  ℕ, suc, ◌+◌, ◌*◌, ◌/◌, ◌<◌, ◌≡◌, List, Bool, true, Option, none, some, arith, ◌==◌, if◌then◌else◌,
  length, get_or,
}
use clackd.Descriptor.{data_len, page_of, scan, hid_descriptor_has_usage_page}

-- Where the item behind the one at `i` starts.
unfoldable pub next : List ℕ → ℕ → ℕ
next d i =
    let prefix = get_or d i 0 in
    if prefix == 0xfe then i + (3 + get_or d (i + 1) 0) else i + (1 + data_len prefix)

-- The page that the item at `i` declares.
unfoldable pub page_at : List ℕ → ℕ → Option ℕ
page_at d i =
    let prefix = get_or d i 0 in
    if prefix == 0xfe
    then none
    else if prefix / 4 * 4 == 0x04
    then page_of d i (data_len prefix)
    else none

-- An item at `j` that the items from `i` on lead to.
pub data From (d : List ℕ) : ℕ → ℕ → Type 0 where
  here : {i : ℕ} → From d i i
  behind : {i j : ℕ} → i < length d → From d (next d i) j → From d i j

pub next-lt : (d : List ℕ) (i : ℕ) → i < next d i
unfolding next
next-lt d i = ground arith

abbrev pub Walks : List ℕ → ℕ → Type 0
Walks d target =
    ((b : Bool) × (scan (suc (length d)) d target 0 ≡ some b))
    × (hid_descriptor_has_usage_page d target ≡ true
        → (j : ℕ) × From d 0 j × (j < length d) × (page_at d j ≡ some target))
    × ((j : ℕ)
        → From d 0 j
        → j < length d
        → page_at d j ≡ some target
        → hid_descriptor_has_usage_page d target ≡ true)
