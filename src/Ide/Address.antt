-- ===== src/Ide/Address.antt =====
-- The block number behind the address registers that kernel/src/drivers/ide.rs computes.
use lemoncake.Base.{
  ℕ, ◌+◌, ◌-◌, ◌*◌, ◌/◌, ◌%◌, ◌^◌, ◌≤◌, ◌<◌, bit_and, leb, ◌==◌, if◌then◌else◌, shr, Bool, true,
  false,
}
use lemoncake.Base.{◌≡◌, ap, ◌∙◌, arith, and_low, Bool-cases, inl, inr, ◌⊎◌, mask_mid}
use native.Mathlib.Nat.{one-le-pow, mul-div_left}
use lemoncake.Ide.{DiskAddress, disk_address, has}

-- What a drive makes of the registers: in the modes 1 and 2 the bytes are the block number's, with
-- its high bits in the head of mode 1; in mode 0 they are a sector, a cylinder of 16 heads and a head
-- of 63 sectors.
pub block_of : DiskAddress → ℕ
block_of a =
    if a.lba_mode == 2
    then a.io0 + a.io1 * 2 ^ 8 + a.io2 * 2 ^ 16 + a.io3 * 2 ^ 24
    else if a.lba_mode == 1
    then a.io0 + a.io1 * 2 ^ 8 + a.io2 * 2 ^ 16 + a.head * 2 ^ 24
    else ((a.io1 + a.io2 * 2 ^ 8) * 16 + a.head) * 63 + a.io0 - 1

-- A byte of a number under its mask.
byte : (k x : ℕ) → shr (bit_and x ((2 ^ 8 - 1) * 2 ^ k)) k ≡ x / 2 ^ k % 2 ^ 8
byte k x =
    ap (λ t. t / 2 ^ k) (mask_mid k 8 x)
    ∙ mul-div_left (x / 2 ^ k % 2 ^ 8) (one-le-pow k 2 (omega arith))

below : (lba : ℕ) → leb 0x10000000 lba ≡ false → lba < 2 ^ 28
below lba e = ground arith

below_chs :
    {b : Bool} {lba : ℕ}
    → b ≡ false
    → (b ≡ true) ⊎ ((lba < 65536 * 1008) ⊎ (2 ^ 28 ≤ lba))
    → lba < 2 ^ 28
    → lba < 65536 * 1008
below_chs f (inl t) h = cc
below_chs f (inr (inl s)) h = s
below_chs f (inr (inr s)) h = absurd (omega (arith, s, h))

-- The registers for a block number below 2^32 address this block, on a drive with block numbers,
-- from the block 2^28 on, or below 65536 cylinders of 1008 blocks.
pub block_of-disk_address :
    (lba capabilities : ℕ)
    → lba < 2 ^ 32
    → (has capabilities 0x200 ≡ true) ⊎ ((lba < 65536 * 1008) ⊎ (2 ^ 28 ≤ lba))
    → block_of (disk_address lba capabilities) ≡ lba
unfolding block_of disk_address
block_of-disk_address lba capabilities h small = elim (Bool-cases (leb 0x10000000 lba)) [
  | inl e ↦ rw (e, and_low 8 lba, byte 8 lba, byte 16 lba, byte 24 lba) (omega arith)
  | inr e ↦ elim (Bool-cases (has capabilities 0x200)) [
    | inl f ↦
        rw (e, f, and_low 8 lba, byte 8 lba, byte 16 lba, mask_mid 24 4 lba)
          (omega (arith, below lba e))
    | inr f ↦
        let c = (lba + 1 - (lba % 63 + 1) % 2 ^ 8) / (16 * 63) % 2 ^ 16 in
        rw (e, f, and_low 8 c, and_low 8 (shr c 8)) (omega (arith, below_chs f small (below lba e)))
  ]
]
