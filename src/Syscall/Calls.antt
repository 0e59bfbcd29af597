-- ===== src/Syscall/Calls.antt =====
-- What the calls of kernel/src/syscall.rs promise their callers.
use lemoncake.Base.{ℕ, ◌<◌, ◌≤◌, min, ltb, ◌==◌, ◌||◌, if◌then◌else◌}
use lemoncake.Base.{
  List, [], ◌∷◌, done, length, take, is_utf8, word, true, false, Bool-cases, inl, inr, ◌≡◌, ◌≢◌,
  ◌⊎◌, refl, ap, arith,
}
use lemoncake.Base.{==→≢, ==→≡, ≢→==, ltb→lt, ltb_false→le}
use lemoncake.Syscall.{max_print, failure, print_to, write, inttostr, syscall_handler}
use lemoncake.Syscall.Services.{Kernel, Message}
use lemoncake.Syscall.Decimal.{decimal, value_from, value-decimal, length-decimal}

take-all {ℓ} : {A : Type ℓ} (xs : List A) → take (length xs) xs ≡ xs
take-all {A = A} [] = refl
take-all (x ∷ xs) = ap (λ t. x ∷ t) (take-all xs)

other_stream :
    (n : ℕ) → (n == 1 || n == 2 || n == 3 || n == 4 || n == 5) ≡ false → (n ≡ 0) ⊎ (5 < n)
other_stream n f = elim (Bool-cases (n == 0)) [
  | inl e ↦ inl (==→≡ n 0 e)
  | inr e ↦ inr (ground arith)
]

module _ (kernel : Kernel) where
  open kernel use {State, read_bytes, write_bytes, print, log}

  -- What `write` does, by what its caller passed.
  pub data Wrote (stream address len : ℕ) (s : State) : ℕ × State → Type 0 where
    refused :
        (len ≡ 0) ⊎ (max_print < len) ⊎ (address ≡ 0)
        → Wrote stream address len s (failure, log Message.bad_print s)
    printed :
        0 < len
        → len ≤ max_print
        → address ≢ 0
        → is_utf8 (read_bytes address len s) ≡ true
        → 1 ≤ stream
        → stream ≤ 5
        → Wrote stream address len s (len, print stream (read_bytes address len s) s)
    no_stream :
        0 < len
        → len ≤ max_print
        → address ≢ 0
        → is_utf8 (read_bytes address len s) ≡ true
        → (stream ≡ 0) ⊎ (5 < stream)
        → Wrote stream address len s (failure, s)
    not_text :
        0 < len
        → len ≤ max_print
        → address ≢ 0
        → is_utf8 (read_bytes address len s) ≡ false
        → Wrote stream address len s (len, log Message.garbage s)

  write-Wrote :
      (stream address len : ℕ) (s : State)
      → Wrote stream address len s (write kernel stream address len s)
  unfolding write print_to
  write-Wrote stream address len s = elim (Bool-cases (len == 0)) [
    | inl e ↦ rw e (refused (inl (==→≡ len 0 e)))
    | inr len_ne ↦ elim (Bool-cases (ltb max_print len)) [
      | inl e ↦ rw (len_ne, e) (refused (inr (inl (ltb→lt max_print len e))))
      | inr len_le ↦ elim (Bool-cases (address == 0)) [
        | inl e ↦ rw (len_ne, len_le, e) (refused (inr (inr (==→≡ address 0 e))))
        | inr address_ne ↦
            rw (len_ne, len_le, address_ne)
              (text (positive (==→≢ len 0 len_ne)) (ltb_false→le max_print len len_le)
                (==→≢ address 0 address_ne))
      ]
    ]
  ]
    where
      positive : len ≢ 0 → 0 < len
      positive ne = grind arith

      text :
          0 < len
          → len ≤ max_print
          → address ≢ 0
          → Wrote stream address len s (
              if is_utf8 (read_bytes address len s)
              then print_to kernel stream (read_bytes address len s) len s
              else (len, log Message.garbage s))
      text a b c = elim (Bool-cases (is_utf8 (read_bytes address len s))) [
        | inr e ↦ rw e (not_text a b c e)
        | inl e ↦
            elim (Bool-cases
              (stream == 1 || stream == 2 || stream == 3 || stream == 4 || stream == 5)) [
                | inl f ↦ rw (e, f) (printed a b c e (ground arith) (ground arith))
                | inr f ↦ rw (e, f) (no_stream a b c e (other_stream stream f))
              ]
      ]

  -- The call `write` refuses, with a message, the length 0, a length above 4096 and the
  -- address 0. Other bytes that are no UTF-8 it accepts with a message only; text it prints on
  -- the streams 1 to 5 and returns its length, and on any other stream it fails without an
  -- effect.
  pub write_call-Wrote :
      (stream address len : ℕ) (s : State)
      → (r : ℕ × State) × (syscall_handler kernel 1 stream address len s ≡ done r)
        × Wrote stream address len s r
  unfolding syscall_handler
  write_call-Wrote stream address len s =
      (write kernel stream address len s, refl, write-Wrote stream address len s)

  -- The call `inttostr` for a number below 2^64 and a buffer of at least twenty bytes returns
  -- the number of bytes that it wrote to the buffer, between 1 and 20, and these bytes are
  -- digits that denote the number.
  pub inttostr-value :
      (buffer size number : ℕ) (s : State)
      → number < word
      → 20 ≤ size
      → (text : List ℕ) × (syscall_handler kernel 5 buffer size number s
          ≡ done (length text, write_bytes buffer text s))
        × (value_from 0 text ≡ number)
        × (0 < length text)
        × (length text ≤ 20)
  unfolding syscall_handler inttostr
  inttostr-value buffer size number s h room =
      let (some_digit, few) = length-decimal number in
      let whole : min (length (decimal number)) size ≡ length (decimal number) =
        omega (arith, few, room) in
      let some' : (length (decimal number) == 0) ≡ false =
        ≢→== _ _ (λ e. omega (arith, e, some_digit)) in
      (
        decimal number,
        rw (whole, some', take-all (decimal number)) refl,
        value-decimal number h,
        some_digit,
        few,
      )
