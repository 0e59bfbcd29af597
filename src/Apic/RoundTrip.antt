-- ===== src/Apic/RoundTrip.antt =====
-- The redirection entries of kernel/src/apic.rs as numbers and as records.
use lemoncake.Base.{
  ℕ, zero, suc, ◌+◌, ◌*◌, ◌/◌, ◌%◌, ◌^◌, bit_and, ◌<◌, if◌then◌else◌, Bool, true, false, shr,
}
use lemoncake.Base.{◌≡◌, refl, sym, ap, ◌∙◌, arith, and_low}
use lemoncake.Apic.{RedTbl, flag, new, bit, store}

-- A bit as a number.
abbrev as_nat : Bool → ℕ
as_nat b = if b then 1 else 0

flag_lem : (c : ℕ) → as_nat (flag c 0) ≡ c % 2
unfolding flag
flag_lem c = ground (arith, and_low 1 c)

-- A flag above `q`'s bits.
bit_parity : (q : ℕ) (b : Bool) → flag (as_nat b + 2 * q) 0 ≡ b
unfolding flag
bit_parity q true = ground (arith, and_low 1 (1 + 2 * q))
bit_parity q false = ground (arith, and_low 1 (2 * q))

abbrev pub IsEntry : RedTbl → Type 0
IsEntry r = (r.vector < 256) × (r.delivery_mode < 4) × (r.destination < 256)

scale : (r p : ℕ) → r < 2 → p < 2 ^ 63 → r * p % 2 ^ 64 ≡ r * p
scale zero p hr hp = ground arith
scale (suc zero) p hr hp = omega (arith, hp)
scale (suc (suc r)) p hr hp = absurd (omega arith)

-- A flag's share of the stored word.
bit-flag : (c k : ℕ) → 2 ^ k < 2 ^ 63 → bit (flag c 0) k ≡ c % 2 * 2 ^ k
bit-flag c k h = rw (flag_lem c) (scale (c % 2) (2 ^ k) (omega arith) h)

-- Of a word below 2^64, `new` followed by `store` keeps the destination and the low 16 bits and
-- clears the rest.
pub store-new : (n : ℕ) → n < 2 ^ 64 → store (new n) ≡ n / 2 ^ 56 * 2 ^ 56 + n % 2 ^ 16
unfolding store new
store-new n h =
    rw
      (
        bit-flag (shr (shr n 8) 2) 10 (omega arith),
        bit-flag (shr (shr (shr n 8) 2) 1) 11 (omega arith),
        bit-flag (shr (shr (shr (shr n 8) 2) 1) 1) 12 (omega arith),
        bit-flag (shr (shr (shr (shr (shr n 8) 2) 1) 1) 1) 13 (omega arith),
        bit-flag (shr (shr (shr (shr (shr (shr n 8) 2) 1) 1) 1) 1) 14 (omega arith),
        bit-flag (shr (shr (shr (shr (shr (shr (shr n 8) 2) 1) 1) 1) 1) 1) 15 (omega arith),
        and_low 8 n,
        and_low 2 (shr n 8),
      )
      (omega (arith, h))

bool_round : (b : Bool) (x q : ℕ) → x ≡ as_nat b + 2 * q → flag x 0 ≡ b
bool_round b x q e = ap (λ x. flag x 0) e ∙ bit_parity q b

nest : RedTbl → ℕ
nest r =
    r.vector
    + 2 ^ 8
      * (r.delivery_mode
          + 2 ^ 2
            * (as_nat r.destination_mode
                + 2
                  * (as_nat r.delivery_status
                      + 2
                        * (as_nat r.pin_polarity
                            + 2
                              * (as_nat r.remote_irr
                                  + 2
                                    * (as_nat r.trigger_mode
                                        + 2 * (as_nat r.mask + 2 * (2 ^ 40 * r.destination))))))))

as_nat-lt : (b : Bool) → as_nat b < 2
as_nat-lt true = omega arith
as_nat-lt false = omega arith

store-nest : (r : RedTbl) → IsEntry r → store r ≡ nest r
unfolding store nest
store-nest r (hv, hm, hd) = omega (
  arith,
  hv,
  hm,
  hd,
  as_nat-lt r.destination_mode,
  as_nat-lt r.delivery_status,
  as_nat-lt r.pin_polarity,
  as_nat-lt r.remote_irr,
  as_nat-lt r.trigger_mode,
  as_nat-lt r.mask,
)

-- An entry whose numbers fit their fields is read back from the word that `store` makes of it.
pub new-store : (r : RedTbl) → IsEntry r → new (store r) ≡ r
unfolding new nest
new-store r (hv, hm, hd) =
    let n = store r in
    let e : n ≡ nest r = store-nest r (hv, hm, hd) in
    let c = shr (shr n 8) 2 in
    let t5 = as_nat r.mask + 2 * (2 ^ 40 * r.destination) in
    let t4 = as_nat r.trigger_mode + 2 * t5 in
    let t3 = as_nat r.remote_irr + 2 * t4 in
    let t2 = as_nat r.pin_polarity + 2 * t3 in
    let t1 = as_nat r.delivery_status + 2 * t2 in
    let t0 = as_nat r.destination_mode + 2 * t1 in
    let hc : c ≡ t0 = omega (arith, e, hv, hm) in
    let h0 = as_nat-lt r.destination_mode in
    let h1 = as_nat-lt r.delivery_status in
    let h2 = as_nat-lt r.pin_polarity in
    let h3 = as_nat-lt r.remote_irr in
    let h4 = as_nat-lt r.trigger_mode in
    let h5 = as_nat-lt r.mask in
    let e1 : bit_and n 0xff ≡ r.vector = and_low 8 n ∙ omega (arith, e, hv) in
    let e2 : bit_and (shr n 8) 3 ≡ r.delivery_mode =
      and_low 2 (shr n 8) ∙ omega (arith, e, hv, hm) in
    let e3 = bool_round r.destination_mode c t1 hc in
    let e4 = bool_round r.delivery_status (shr c 1) t2 (omega (arith, hc, h0)) in
    let e5 = bool_round r.pin_polarity (shr (shr c 1) 1) t3 (omega (arith, hc, h0, h1)) in
    let e6 = bool_round r.remote_irr (shr (shr (shr c 1) 1) 1) t4 (omega (arith, hc, h0, h1, h2)) in
    let e7 =
      bool_round r.trigger_mode (shr (shr (shr (shr c 1) 1) 1) 1) t5
        (omega (arith, hc, h0, h1, h2, h3)) in
    let e8 =
      bool_round r.mask (shr (shr (shr (shr (shr c 1) 1) 1) 1) 1) (2 ^ 40 * r.destination)
        (omega (arith, hc, h0, h1, h2, h3, h4)) in
    let e9 : shr n 56 % 2 ^ 8 ≡ r.destination =
      omega (arith, e, hv, hm, hd, h0, h1, h2, h3, h4, h5) in
    λ i. record {
      vector = e1 i;
      delivery_mode = e2 i;
      destination_mode = e3 i;
      delivery_status = e4 i;
      pin_polarity = e5 i;
      remote_irr = e6 i;
      trigger_mode = e7 i;
      mask = e8 i;
      destination = e9 i;
    }

-- The bits 16 to 55 of a stored entry are zero.
pub store-shape : (r : RedTbl) → IsEntry r → (store r < 2 ^ 64) × (store r / 2 ^ 16 % 2 ^ 16 ≡ 0)
unfolding nest
store-shape r (hv, hm, hd) =
    let e : store r ≡ nest r = store-nest r (hv, hm, hd) in
    let h0 = as_nat-lt r.destination_mode in
    let h1 = as_nat-lt r.delivery_status in
    let h2 = as_nat-lt r.pin_polarity in
    let h3 = as_nat-lt r.remote_irr in
    let h4 = as_nat-lt r.trigger_mode in
    let h5 = as_nat-lt r.mask in
    (
      omega (arith, e, hv, hm, hd, h0, h1, h2, h3, h4, h5),
      omega (arith, e, hv, hm, hd, h0, h1, h2, h3, h4, h5),
    )

flag_same : (x y : ℕ) → x % 2 ≡ y % 2 → flag x 0 ≡ flag y 0
flag_same x y h = bool_round (flag y 0) x (x / 2) (omega (arith, flag_lem y, h))

flag_at : (n k x : ℕ) → x / 2 ^ 0 ≡ n / 2 ^ k → flag x 0 ≡ flag n k
unfolding flag
flag_at n k x h = rw h refl

-- Two words that agree on the destination and on the low 16 bits but 12 and 14.
pub record Agree (n v : ℕ) : Type 0 where
  pub low : n % 2 ^ 12 ≡ v % 2 ^ 12
  pub middle : n / 2 ^ 13 % 2 ≡ v / 2 ^ 13 % 2
  pub top : n / 2 ^ 15 % 2 ≡ v / 2 ^ 15 % 2
  pub destination : n / 2 ^ 56 % 2 ^ 8 ≡ v / 2 ^ 56 % 2 ^ 8

pub new-Agree :
    (n v : ℕ)
    → Agree n v
    → new n ≡ record (new v) { pin_polarity = flag n 12; trigger_mode = flag n 14 }
unfolding new
new-Agree n v a =
    let c = shr (shr n 8) 2 in
    let d = shr (shr v 8) 2 in
    let e1 : bit_and n 0xff ≡ bit_and v 0xff =
      and_low 8 n ∙ omega (arith, a.low) ∙ sym (and_low 8 v) in
    let e2 : bit_and (shr n 8) 3 ≡ bit_and (shr v 8) 3 =
      and_low 2 (shr n 8) ∙ omega (arith, a.low) ∙ sym (and_low 2 (shr v 8)) in
    let e3 = flag_same c d (omega (arith, a.low)) in
    let e4 = flag_same (shr c 1) (shr d 1) (omega (arith, a.low)) in
    let e5 = flag_at n 12 (shr (shr c 1) 1) (omega arith) in
    let e6 =
      flag_same (shr (shr (shr c 1) 1) 1) (shr (shr (shr d 1) 1) 1) (omega (arith, a.middle)) in
    let e7 = flag_at n 14 (shr (shr (shr (shr c 1) 1) 1) 1) (omega arith) in
    let e8 =
      flag_same (shr (shr (shr (shr (shr c 1) 1) 1) 1) 1) (shr (shr (shr (shr (shr d 1) 1) 1) 1) 1)
        (omega (arith, a.top)) in
    let e9 : shr n 56 % 2 ^ 8 ≡ shr v 56 % 2 ^ 8 = a.destination in
    λ i. record {
      vector = e1 i;
      delivery_mode = e2 i;
      destination_mode = e3 i;
      delivery_status = e4 i;
      pin_polarity = e5 i;
      remote_irr = e6 i;
      trigger_mode = e7 i;
      mask = e8 i;
      destination = e9 i;
    }
