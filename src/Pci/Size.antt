-- ===== src/Pci/Size.antt =====
-- `probe_bar_size` of kernel/src/pci.rs on a 32-bit base address register.
use lemoncake.Base.{
  ℕ, true, false, ◌+◌, ◌-◌, ◌*◌, ◌/◌, ◌%◌, ◌^◌, ◌<◌, ◌≤◌, ◌≡◌, ◌≢◌, sym, ap, ◌∙◌, arith, ◌==◌, ◌&&◌,
  refl, le→ltb_false, some,
}
use lemoncake.Base.{bit_and, and_low, and_high, pow-add, shr}
use lemoncake.Pci.{
  PciDevice, probe_bar_size, size_of_kind, read_bar, read_config, write_config, sized,
}
use native.Mathlib.Nat.{div-add-mod', one-le-pow}
use lemoncake.Pci.Access.{Machine}
use lemoncake.Pci.Registers.{Register}
use lemoncake.Pci.Address.{size_of_mask_lem, two_pow_le}

-- A register that decodes `2 ^ k` addresses: the bits below are the device's.
abbrev pub decodes : ℕ → ℕ → ℕ → ℕ → ℕ
decodes k flags old v = v / 2 ^ k * 2 ^ k + flags

-- What the low bits of a 32-bit register may be: memory that is not of the 64-bit kind, or ports.
pub data Kind (k flags : ℕ) : Type 0 where
  memory : flags % 2 ≡ 0 → flags / 2 % 4 ≢ 2 → flags < 16 → 4 ≤ k → Kind k flags
  ports : flags % 2 ≡ 1 → flags < 4 → 2 ≤ k → Kind k flags

-- The word that a register answers after all ones were written.
abbrev all_ones : ℕ → ℕ → ℕ
all_ones k flags = 0xFFFFFFFF / 2 ^ k * 2 ^ k + flags

-- All ones above the lowest `k` bits.
below_top : (q p : ℕ) → 0 < q → 0 < p → (q * p - 1) / p * p ≡ q * p - p
below_top q p hq hp = grind arith

high_ones : (k : ℕ) → k < 32 → 0xFFFFFFFF / 2 ^ k * 2 ^ k ≡ 2 ^ 32 - 2 ^ k
high_ones k hk =
    let whole : 2 ^ (32 - k) * 2 ^ k ≡ 2 ^ 32 =
      sym (pow-add (32 - k) k) ∙ ap (λ t. 2 ^ t) {y = 32} (omega arith) in
    ap (λ t. (t - 1) / 2 ^ k * 2 ^ k) (sym whole)
    ∙ below_top (2 ^ (32 - k)) (2 ^ k) (one-le-pow (32 - k) 2 (omega arith))
        (one-le-pow k 2 (omega arith))
    ∙ ap (λ t. t - 2 ^ k) whole

two_pow_split : (i k : ℕ) → i ≤ k → 2 ^ k ≡ 2 ^ i * 2 ^ (k - i)
two_pow_split i k h = ap (λ t. 2 ^ t) {y = i + (k - i)} (omega arith) ∙ pow-add i (k - i)

aligned_mask_4 :
    (k flags : ℕ) → 4 ≤ k → k < 32 → flags < 16 → all_ones k flags / 16 * 16 ≡ 2 ^ 32 - 2 ^ k
aligned_mask_4 k flags hi hk hf = omega (arith, high_ones k hk, two_pow_split 4 k hi)

aligned_mask_2 :
    (k flags : ℕ) → 2 ≤ k → k < 32 → flags < 4 → all_ones k flags / 4 * 4 ≡ 2 ^ 32 - 2 ^ k
aligned_mask_2 k flags hi hk hf = omega (arith, high_ones k hk, two_pow_split 2 k hi)

-- Flags below bit 4 or bit 2 of a register with its lowest `k` bits wired.
low_bits_4 : (k w flags : ℕ) → 4 ≤ k → w % 2 ^ k ≡ flags → flags < 16 → w % 16 ≡ flags
low_bits_4 k w flags hi e hf =
    omega (arith, ap (λ (t : ℕ). w / 2 ^ k * t) (two_pow_split 4 k hi), div-add-mod' w (2 ^ k), e)

low_bits_2 : (k w flags : ℕ) → 2 ≤ k → w % 2 ^ k ≡ flags → flags < 4 → w % 4 ≡ flags
low_bits_2 k w flags hi e hf =
    omega (arith, ap (λ (t : ℕ). w / 2 ^ k * t) (two_pow_split 2 k hi), div-add-mod' w (2 ^ k), e)

module _ (machine : Machine) (ecam : ℕ) (d : PciDevice) (bar : ℕ) (settle : ℕ → ℕ → ℕ)
    (r : Register machine ecam d (0x10 + bar * 4) settle) (in_range : bar ≤ 5) where
  read_bar_lem :
      (s : machine.State)
      → ((read_bar machine ecam d bar s).0
          ≡ some (
            r.word s,
            bit_and (r.word s) 1 == 0,
            (bit_and (r.word s) 1 == 0) && (bit_and (shr (r.word s) 1) 3 == 2),
          ))
        × (r.word (read_bar machine ecam d bar s).1 ≡ r.word s)
  unfolding read_bar
  read_bar_lem s = (
    rw (le→ltb_false 5 bar in_range, r.answer s) refl,
    rw (le→ltb_false 5 bar in_range) (r.undisturbed s),
  )

  module _ (k flags : ℕ) (decoded : (old v : ℕ) → settle old v ≡ decodes k flags old v)
      (s : machine.State) where
    abbrev probed : machine.State
    probed =
        (read_config machine ecam d (0x10 + bar * 4) (
          write_config machine ecam d (0x10 + bar * 4) 0xFFFFFFFF
            (read_config machine ecam d (0x10 + bar * 4) s).1)).1

    abbrev restored : machine.State
    restored =
        write_config machine ecam d (0x10 + bar * 4)
          (read_config machine ecam d (0x10 + bar * 4) s).0 probed

    probed_lem : r.word probed ≡ all_ones k flags
    probed_lem =
        r.undisturbed (
          write_config machine ecam d (0x10 + bar * 4) 0xFFFFFFFF
            (read_config machine ecam d (0x10 + bar * 4) s).1)
        ∙ r.settles 0xFFFFFFFF (read_config machine ecam d (0x10 + bar * 4) s).1 (omega arith)
        ∙ decoded (r.word (read_config machine ecam d (0x10 + bar * 4) s).1) 0xFFFFFFFF

    restored_lem : r.word s % 2 ^ k ≡ flags → r.word restored ≡ r.word s
    restored_lem wired = rw (r.answer s) (
        r.settles (r.word s) probed (r.word-lt s)
        ∙ decoded (r.word probed) (r.word s)
        ∙ rw (← wired) (div-add-mod' (r.word s) (2 ^ k)))

    answer_lem :
        (read_config machine ecam d (0x10 + bar * 4) (
          write_config machine ecam d
            (0x10 + bar * 4)
            0xFFFFFFFF
            (read_config machine ecam d (0x10 + bar * 4) s).1)).0
        ≡ all_ones k flags
    answer_lem =
        r.answer (
          write_config machine ecam d (0x10 + bar * 4) 0xFFFFFFFF
            (read_config machine ecam d (0x10 + bar * 4) s).1)
        ∙ r.settles 0xFFFFFFFF (read_config machine ecam d (0x10 + bar * 4) s).1 (omega arith)
        ∙ decoded (r.word (read_config machine ecam d (0x10 + bar * 4) s).1) 0xFFFFFFFF

    sized_lem : k < 32 → sized machine 32 (2 ^ 32 - 2 ^ k) ≡ some (2 ^ k)
    sized_lem hk = ground (arith, two_pow_le k 31, size_of_mask_lem k 32)

    probe_lem :
        probe_bar_size machine ecam d bar s
        ≡ size_of_kind machine ecam d
            (0x10 + bar * 4)
            (all_ones k flags)
            (some (
              r.word restored,
              bit_and (r.word restored) 1 == 0,
              (bit_and (r.word restored) 1 == 0) && (bit_and (shr (r.word restored) 1) 3 == 2),
            ))
            (read_bar machine ecam d bar restored).1
    unfolding probe_bar_size
    probe_lem =
        let (found, _) = read_bar_lem restored in
        let run : probe_bar_size machine ecam d bar s
            ≡ size_of_kind machine ecam d (0x10 + bar * 4)
                (read_config machine ecam d (0x10 + bar * 4) (
                  write_config machine ecam d (0x10 + bar * 4) 0xFFFFFFFF
                    (read_config machine ecam d (0x10 + bar * 4) s).1)).0
                (read_bar machine ecam d bar restored).0 (read_bar machine ecam d bar restored).1 =
          rw (le→ltb_false 5 bar in_range) refl in
        run ∙ rw (answer_lem, found) refl

    -- On a 32-bit base address register, 0 to 5, that decodes `2 ^ k` addresses and has its low bits
    -- wired to the flags of memory (at least 16 bytes) or of ports (at least 4): the probe answers
    -- `2 ^ k` and leaves the register with the address that it had.
    pub probe_bar_size-Decodes :
        Kind k flags
        → k < 32
        → r.word s % 2 ^ k ≡ flags
        → ((probe_bar_size machine ecam d bar s).0 ≡ some (2 ^ k))
          × (r.word (probe_bar_size machine ecam d bar s).1 ≡ r.word s)
    unfolding size_of_kind
    probe_bar_size-Decodes (memory even narrow small le) hk wired =
        let (_, kept) = read_bar_lem restored in
        let back = restored_lem wired in
        let low = low_bits_4 k (r.word s) flags le wired small in
        let is_memory : (bit_and (r.word restored) 1 == 0) ≡ true =
          ground (arith, and_low 1 (r.word restored)) in
        let is_32 : (bit_and (shr (r.word restored) 1) 3 == 2) ≡ false =
          ground (arith, and_low 2 (r.word restored / 2)) in
        let mask : bit_and (all_ones k flags) 0xFFFFFFF0 ≡ 2 ^ 32 - 2 ^ k = ground (
          arith,
          and_high 4 28 (all_ones k flags),
          aligned_mask_4 k flags le hk small,
          one-le-pow k 2,
        ) in
        rw (probe_lem, is_memory, is_32, mask, sized_lem hk) (refl, kept ∙ restored_lem wired)
    probe_bar_size-Decodes (ports odd small le) hk wired =
        let (_, kept) = read_bar_lem restored in
        let back = restored_lem wired in
        let low = low_bits_2 k (r.word s) flags le wired small in
        let is_port : (bit_and (r.word restored) 1 == 0) ≡ false =
          ground (arith, and_low 1 (r.word restored)) in
        let mask : bit_and (all_ones k flags) 0xFFFFFFFC ≡ 2 ^ 32 - 2 ^ k = ground (
          arith,
          and_high 2 30 (all_ones k flags),
          aligned_mask_2 k flags le hk small,
          one-le-pow k 2,
        ) in
        rw (probe_lem, is_port, mask, sized_lem hk) (refl, kept ∙ restored_lem wired)
