-- ===== src/Descriptor.antt =====
-- src/hal/via.rs and src/hal/legacy/gmk67.rs: the walks over a HID report descriptor that look for
-- a usage page and for a feature report.
--
-- `prefix & 0x03` and `prefix & 0xFC` are the remainder and the rest of a division by 4. The loop
-- runs on fuel; each item is at least one byte, so one more than the length is enough.
pub mod Walk
pub mod Feature
mod Examples
use clackd.Base.{
  ℕ, zero, suc, ◌+◌, ◌*◌, ◌/◌, ◌%◌, List, [], ◌∷◌, Bool, true, false, Option, none, some, ltb, ◌==◌,
  if◌then◌else◌, length, get_or, drop, leb, ◌&&◌,
}

abbrev pub data_len : ℕ → ℕ
data_len prefix =
    let size_code = prefix % 4 in
    if size_code == 0 then 0 else if size_code == 1 then 1 else if size_code == 2 then 2 else 4

abbrev from_le : ℕ → ℕ → ℕ
from_le lo hi = lo + hi * 256

-- The page of a usage page item at `i` with so many bytes of data; none where it is cut off.
unfoldable pub page_of : List ℕ → ℕ → ℕ → Option ℕ
page_of descriptor i len =
    if len == 1
    then (if ltb (i + 1) (length descriptor) then some (get_or descriptor (i + 1) 0) else none)
    else if len == 2
    then (if ltb (i + 2) (length descriptor)
        then some (from_le (get_or descriptor (i + 1) 0) (get_or descriptor (i + 2) 0))
        else none)
    else if len == 4
    then (if ltb (i + 4) (length descriptor)
        then some (from_le (get_or descriptor (i + 1) 0) (get_or descriptor (i + 2) 0))
        else none)
    else none

-- The `while` loop from `i` on; `none` when the fuel is used up.
unfoldable pub scan : ℕ → List ℕ → ℕ → ℕ → Option Bool
scan zero descriptor target i = none
scan (suc n) descriptor target i = elim (ltb i (length descriptor)) [
  | false ↦ some false
  | true ↦
      let prefix = get_or descriptor i 0 in
      let len = data_len prefix in
      elim (prefix == 0xfe) [
        | true ↦ elim (ltb (i + 1) (length descriptor)) [
          | false ↦ some false
          | true ↦ scan n descriptor target (i + (3 + get_or descriptor (i + 1) 0))
        ]
        | false ↦ elim (prefix / 4 * 4 == 0x04) [
          | false ↦ scan n descriptor target (i + (1 + len))
          | true ↦ elim (page_of descriptor i len) [
            | none ↦ scan n descriptor target (i + (1 + len))
            | some page ↦ elim (page == target) [
              | true ↦ some true
              | false ↦ scan n descriptor target (i + (1 + len))
            ]
          ]
        ]
      ]
]

abbrev or_false : Option Bool → Bool
or_false none = false
or_false (some b) = b

unfoldable pub hid_descriptor_has_usage_page : List ℕ → ℕ → Bool
unfolding scan
hid_descriptor_has_usage_page descriptor target =
    or_false (scan (suc (length descriptor)) descriptor target 0)

-- The report count of an item at `i` with so many bytes of data.
unfoldable pub count_of : List ℕ → ℕ → ℕ → ℕ
count_of descriptor i len =
    let slice = drop (i + 1) descriptor in
    if len == 1 && ltb 0 (length slice)
    then get_or slice 0 0
    else if len == 2 && ltb 1 (length slice)
    then from_le (get_or slice 0 0) (get_or slice 1 0)
    else if len == 4 && ltb 3 (length slice)
    then from_le (get_or slice 0 0) (get_or slice 1 0)
      + from_le (get_or slice 2 0) (get_or slice 3 0) * 65536
    else 0

-- The `while` loop from `i` on, with the last report count; `none` when the fuel is used up.
unfoldable pub scan_feature : ℕ → List ℕ → ℕ → ℕ → ℕ → Option Bool
scan_feature zero descriptor min_count count i = none
scan_feature (suc n) descriptor min_count count i = elim (ltb i (length descriptor)) [
  | false ↦ some false
  | true ↦
      let prefix = get_or descriptor i 0 in
      let len = data_len prefix in
      let tag_type = prefix / 4 * 4 in
      elim (prefix == 0xfe) [
        | true ↦ elim (ltb (i + 1) (length descriptor)) [
          | false ↦ some false
          | true ↦ scan_feature n descriptor min_count count (i + (3 + get_or descriptor (i + 1) 0))
        ]
        | false ↦ elim (tag_type == 0x94) [
          | true ↦ scan_feature n descriptor min_count (count_of descriptor i len) (i + (1 + len))
          | false ↦ elim (tag_type == 0xb0 && leb min_count count) [
            | true ↦ some true
            | false ↦ scan_feature n descriptor min_count count (i + (1 + len))
          ]
        ]
      ]
]

unfoldable pub descriptor_has_feature_report : List ℕ → ℕ → Bool
unfolding scan_feature
descriptor_has_feature_report descriptor min_count =
    or_false (scan_feature (suc (length descriptor)) descriptor min_count 0 0)
