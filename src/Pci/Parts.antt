-- ===== src/Pci/Parts.antt =====
-- The 8-bit and 16-bit accesses of kernel/src/pci.rs to a 32-bit register.
use lemoncake.Base.{ℕ, ◌+◌, ◌-◌, ◌*◌, ◌/◌, ◌%◌, ◌^◌, ◌<◌, ◌≡◌, refl, ap, ◌∙◌, arith}
use lemoncake.Base.{
  bit_and, bit_or, and_fields, or_fields, mask_low, mask_high, join_fields, and_high, and_low,
  bit_or-zero,
}
use lemoncake.Pci.{PciDevice, merge, aligned_of, shift_of, read_config, read_part, write_part}
use lemoncake.Pci.Access.{Machine}
use lemoncake.Pci.Registers.{Register, stored}

replace_field :
    (k w m hi mid lo v : ℕ)
    → lo < 2 ^ k
    → mid < 2 ^ w
    → hi < 2 ^ m
    → v < 2 ^ w
    → bit_or
        (bit_and ((hi * 2 ^ w + mid) * 2 ^ k + lo) ((2 ^ m - 1) * 2 ^ w * 2 ^ k + (2 ^ k - 1)))
        (v * 2 ^ k)
      ≡ (hi * 2 ^ w + v) * 2 ^ k + lo
replace_field k w m hi mid lo v hlo hmid hhi hv = ground (
  arith,
  and_fields k (hi * 2 ^ w + mid) lo ((2 ^ m - 1) * 2 ^ w) (2 ^ k - 1),
  mask_high w m hi mid,
  mask_low k 0 lo,
  or_fields k (hi * 2 ^ w) lo v 0,
  join_fields w hi v,
  bit_or-zero lo,
)

-- The parts of a register that the two widths reach without crossing its end.
pub data Lane : Type 0 where
  byte_0 : Lane
  byte_1 : Lane
  byte_2 : Lane
  byte_3 : Lane
  low_half : Lane
  high_half : Lane

abbrev pub width : Lane → ℕ
width byte_0 = 8
width byte_1 = 8
width byte_2 = 8
width byte_3 = 8
width low_half = 16
width high_half = 16

abbrev pub first_byte : Lane → ℕ
first_byte byte_0 = 0
first_byte byte_1 = 1
first_byte byte_2 = 2
first_byte byte_3 = 3
first_byte low_half = 0
first_byte high_half = 2

-- The word with `v` in the lane, and every other bit as in `old`.
abbrev pub with_lane : Lane → ℕ → ℕ → ℕ
with_lane l old v =
    (old / 2 ^ (first_byte l * 8 + width l) * 2 ^ width l + v) * 2 ^ (first_byte l * 8)
    + old % 2 ^ (first_byte l * 8)

merge_lem :
    (l : Lane) (old v : ℕ)
    → old < 2 ^ 32
    → v < 2 ^ width l
    → merge (2 ^ width l - 1) (first_byte l * 8) old v ≡ with_lane l old v
unfolding merge
merge_lem byte_0 old v ho hv = ground (arith, replace_field 0 8 24 (old / 2 ^ 8) (old % 2 ^ 8) 0 v)
merge_lem byte_1 old v ho hv =
    ground (arith, replace_field 8 8 16 (old / 2 ^ 16) (old / 2 ^ 8 % 2 ^ 8) (old % 2 ^ 8) v)
merge_lem byte_2 old v ho hv =
    ground (arith, replace_field 16 8 8 (old / 2 ^ 24) (old / 2 ^ 16 % 2 ^ 8) (old % 2 ^ 16) v)
merge_lem byte_3 old v ho hv =
    ground (arith, replace_field 24 8 0 0 (old / 2 ^ 24) (old % 2 ^ 24) v)
merge_lem low_half old v ho hv =
    ground (arith, replace_field 0 16 16 (old / 2 ^ 16) (old % 2 ^ 16) 0 v)
merge_lem high_half old v ho hv =
    ground (arith, replace_field 16 16 0 0 (old / 2 ^ 16) (old % 2 ^ 16) v)

with_lane-lt : (l : Lane) (old v : ℕ) → old < 2 ^ 32 → v < 2 ^ width l → with_lane l old v < 2 ^ 32
with_lane-lt byte_0 old v ho hv = omega arith
with_lane-lt byte_1 old v ho hv = omega arith
with_lane-lt byte_2 old v ho hv = omega arith
with_lane-lt byte_3 old v ho hv = omega arith
with_lane-lt low_half old v ho hv = omega arith
with_lane-lt high_half old v ho hv = omega arith

-- The lane of a word, and what `read_part` takes from it.
abbrev pub lane_of : Lane → ℕ → ℕ
lane_of l x = x / 2 ^ (first_byte l * 8) % 2 ^ width l

lane_of-with_lane : (l : Lane) (old v : ℕ) → v < 2 ^ width l → lane_of l (with_lane l old v) ≡ v
lane_of-with_lane byte_0 old v hv = omega arith
lane_of-with_lane byte_1 old v hv = omega arith
lane_of-with_lane byte_2 old v hv = omega arith
lane_of-with_lane byte_3 old v hv = omega arith
lane_of-with_lane low_half old v hv = omega arith
lane_of-with_lane high_half old v hv = omega arith

-- `offset` names the lane `l` of the register `index`.
abbrev pub offset_of : ℕ → Lane → ℕ
offset_of index l = 4 * index + first_byte l

aligned_lem : (l : Lane) (index : ℕ) → index < 2 ^ 14 → aligned_of (offset_of index l) ≡ 4 * index
unfolding aligned_of
aligned_lem byte_0 index h = ground (arith, and_high 2 14 (4 * index))
aligned_lem byte_1 index h = ground (arith, and_high 2 14 (4 * index + 1))
aligned_lem byte_2 index h = ground (arith, and_high 2 14 (4 * index + 2))
aligned_lem byte_3 index h = ground (arith, and_high 2 14 (4 * index + 3))
aligned_lem low_half index h = ground (arith, and_high 2 14 (4 * index))
aligned_lem high_half index h = ground (arith, and_high 2 14 (4 * index + 2))

shift_lem : (l : Lane) (index : ℕ) → shift_of (offset_of index l) ≡ first_byte l * 8
unfolding shift_of
shift_lem byte_0 index = ground (arith, and_low 2 (4 * index))
shift_lem byte_1 index = ground (arith, and_low 2 (4 * index + 1))
shift_lem byte_2 index = ground (arith, and_low 2 (4 * index + 2))
shift_lem byte_3 index = ground (arith, and_low 2 (4 * index + 3))
shift_lem low_half index = ground (arith, and_low 2 (4 * index))
shift_lem high_half index = ground (arith, and_low 2 (4 * index + 2))

module _ (machine : Machine) (ecam : ℕ) (d : PciDevice) (index : ℕ) (in_range : index < 2 ^ 14)
    (settle : ℕ → ℕ → ℕ) (register : Register machine ecam d (4 * index) settle) where
  open register use {word, word-lt, answer, undisturbed, settles}

  -- A partial read answers its lane and leaves the register alone.
  pub read_part_lem :
      (l : Lane) (s : machine.State)
      → ((read_part machine (width l) ecam d (offset_of index l) s).0 ≡ lane_of l (word s))
        × (word (read_part machine (width l) ecam d (offset_of index l) s).1 ≡ word s)
  unfolding read_part
  read_part_lem l s = (
    rw (aligned_lem l index in_range, shift_lem l index, answer s) refl,
    rw (aligned_lem l index in_range) (undisturbed s),
  )

  pub write_part_lem :
      (l : Lane) (v : ℕ) (s : machine.State)
      → v < 2 ^ width l
      → word (write_part machine (width l) ecam d (offset_of index l) v s)
        ≡ settle (word s) (with_lane l (word s) v)
  unfolding write_part
  write_part_lem l v s hv =
      rw
        (
          aligned_lem l index in_range,
          shift_lem l index,
          answer s,
          merge_lem l (word s) v (word-lt s) hv,
        )
        (settles (with_lane l (word s) v) (read_config machine ecam d (4 * index) s).1
            (with_lane-lt l (word s) v (word-lt s) hv)
          ∙ rw (undisturbed s) refl)

-- On a register that keeps every bit, at any byte or half of it: the partial write leaves the value
-- in its part and every other bit of the register as it was, and the partial read behind it answers
-- the value and changes nothing.
pub read_part-write_part :
    (machine : Machine) (ecam : ℕ) (d : PciDevice) (index : ℕ)
    → index < 2 ^ 14
    → (r : Register machine ecam d (4 * index) stored) (l : Lane) (v : ℕ) (s : machine.State)
    → v < 2 ^ width l
    → ((read_part machine
          (width l)
          ecam
          d
          (offset_of index l)
          (write_part machine (width l) ecam d (offset_of index l) v s)).0
        ≡ v)
      × (r.word
            (read_part machine
              (width l)
              ecam
              d
              (offset_of index l)
              (write_part machine (width l) ecam d (offset_of index l) v s)).1
          ≡ with_lane l (r.word s) v)
read_part-write_part machine ecam d index in_range r l v s hv =
    let written = write_part_lem machine ecam d index in_range stored r l v s hv in
    let (value, kept) =
      read_part_lem machine ecam d index in_range stored r l
        (write_part machine (width l) ecam d (offset_of index l) v s) in
    (value ∙ ap (lane_of l) written ∙ lane_of-with_lane l (r.word s) v hv, kept ∙ written)
