-- ===== src/Pci/Address.antt =====
-- The word of `config_address` in kernel/src/pci.rs, and the partial writes of a register.
use lemoncake.Base.{ℕ, ◌+◌, ◌-◌, ◌*◌, ◌/◌, ◌^◌, ◌<◌, ◌≤◌, ◌≡◌, sym, ◌∙◌, arith}
use lemoncake.Base.{join_fields, and_high}
use native.Mathlib.Nat.{pow-le-pow_right, one-le-pow}
use lemoncake.Pci.{config_address, size_of_mask}

-- Every field of the word stands at its own bits.
config_address_lem :
    (b s f o : ℕ)
    → b < 256
    → s < 32
    → f < 8
    → o < 256
    → config_address b s f o ≡ 2 ^ 31 + b * 2 ^ 16 + s * 2 ^ 11 + f * 2 ^ 8 + o / 4 * 4
unfolding config_address
config_address_lem b s f o hb hs hf ho = ground (
  arith,
  join_fields 31 1 (b * 2 ^ 16),
  join_fields 16 (2 ^ 15 + b) (s * 2 ^ 11),
  join_fields 11 ((2 ^ 15 + b) * 2 ^ 5 + s) (f * 2 ^ 8),
  join_fields 8 (((2 ^ 15 + b) * 2 ^ 5 + s) * 2 ^ 3 + f) (o / 4 * 4),
  and_high 2 6 o,
)

-- Two registers of functions in range, at offsets below 256, that have the same configuration
-- word are the same 32-bit register of the same function.
pub config_address-injective :
    (b s f o b' s' f' o' : ℕ)
    → b < 256
    → s < 32
    → f < 8
    → o < 256
    → b' < 256
    → s' < 32
    → f' < 8
    → o' < 256
    → config_address b s f o ≡ config_address b' s' f' o'
    → (b ≡ b') × (s ≡ s') × (f ≡ f') × (o / 4 ≡ o' / 4)
config_address-injective b s f o b' s' f' o' hb hs hf ho hb' hs' hf' ho' e =
    let d =
      sym (config_address_lem b s f o hb hs hf ho)
      ∙ e
      ∙ config_address_lem b' s' f' o' hb' hs' hf' ho' in
    (omega (arith, d), omega (arith, d), omega (arith, d), omega (arith, d))

pub two_pow_le : (k w : ℕ) → k ≤ w → 2 ^ k ≤ 2 ^ w
two_pow_le k w h = pow-le-pow_right (omega arith) h

-- `!mask + 1` is the size of the window for a mask of a register that decodes `2 ^ k` bytes.
pub size_of_mask_lem : (k w : ℕ) → k ≤ w → size_of_mask w (2 ^ w - 2 ^ k) ≡ 2 ^ k
unfolding size_of_mask
size_of_mask_lem k w h = omega (arith, two_pow_le k w h, one-le-pow k 2)
