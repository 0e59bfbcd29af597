-- ===== src/Ustar/Agree.antt =====
-- The two walks over an archive agree: `read_file` returns what `files` lists under the name.
use lemoncake.Base.{ℕ, zero, suc, ◌+◌, ◌*◌, ◌/◌, ◌^◌, ◌≤◌, ◌<◌, ◌≡◌, ◌≢◌, sym, ◌∙◌, arith}
use lemoncake.Base.{List, length, Option, some, done, done-injective, le→leb, bytes_eq}
use lemoncake.Base.{true, bytes_eq_refl, bytes_eq_ne, le→ltb_false}
use lemoncake.Ustar.{File, return, continue, turn, read_loop, read_file, next}
use lemoncake.Ustar.Iterator.{size_field, Lists, Answers, next-Answers}
use lemoncake.Ustar.Lookup.{turn_signed, loop_turn, entry, behind}
use mathlib.Core.Path.{subst, ap}

-- `f` is the first file with the name that the iterator lists from `ptr` on.
pub data Listed (bytes filename : List ℕ) (f : File) : ℕ → Type 0 where
  here :
      (ptr ptr' : ℕ)
      → next bytes ptr ≡ done (some f, ptr')
      → f.filename ≡ filename
      → Listed bytes filename f ptr
  later :
      (g : File) (ptr ptr' : ℕ)
      → next bytes ptr ≡ done (some g, ptr')
      → g.filename ≢ filename
      → Listed bytes filename f ptr'
      → Listed bytes filename f ptr

module _ (bytes filename : List ℕ) (f : File) (small : length bytes < 2 ^ 63) where
  next-Lists :
      (g : File) (ptr ptr' : ℕ) → next bytes ptr ≡ done (some g, ptr') → Lists bytes ptr g ptr'
  next-Lists g ptr ptr' e =
      let (o, p, run, a) = next-Answers bytes ptr small in
      let same : ◌≡◌ {A = Option File × ℕ} (o, p) (some g, ptr') = done-injective (sym run ∙ e) in
      subst {A = Option File × ℕ} (λ t. Answers bytes ptr t.0 t.1) same a

  entry_eq : (g : File) (ptr ptr' : ℕ) → Lists bytes ptr g ptr' → entry bytes ptr g.filename ≡ g
  entry_eq g ptr ptr' l = ground (arith, l.sized, l.content)

  Listed-room : (ptr : ℕ) → Listed bytes filename f ptr → ptr + 512 ≤ length bytes
  Listed-room ptr (here _ ptr' e n) = omega (arith, (next-Lists f ptr ptr' e).fits)
  Listed-room ptr (later g _ ptr' e n r) = omega (arith, (next-Lists g ptr ptr' e).fits)

  hit :
      (ptr ptr' : ℕ)
      → Lists bytes ptr f ptr'
      → f.filename ≡ filename
      → turn bytes filename ptr ≡ done (return (some f))
  hit ptr ptr' l n =
      turn_signed bytes filename ptr small (omega (arith, l.fits)) f.filename l.signed l.named
      ∙ rw (same, le→leb _ _ within, l.valid)
          (ap (λ t. done (return (some t))) (entry_eq f ptr ptr' l))
    where
      same : bytes_eq f.filename filename ≡ true
      same = rw n (bytes_eq_refl filename)

      within : ptr + 512 + size_field bytes ptr ≤ length bytes
      within = omega (arith, l.fits, l.sized)

  miss :
      (g : File) (ptr ptr' : ℕ)
      → Lists bytes ptr g ptr'
      → g.filename ≢ filename
      → ptr' ≤ length bytes
      → turn bytes filename ptr ≡ done (continue ptr')
  miss g ptr ptr' l n within =
      turn_signed bytes filename ptr small (omega (arith, l.fits)) g.filename l.signed l.named
      ∙ rw
          (
            bytes_eq_ne g.filename filename n,
            le→ltb_false (length bytes) (behind bytes ptr) (rw goes within),
          )
          (ap (λ t. done (continue t)) goes)
    where
      goes : behind bytes ptr ≡ ptr'
      goes = rw (sym l.sized) (sym l.behind)

  Listed-read_loop :
      (fuel ptr : ℕ)
      → length bytes < ptr + fuel * 512
      → Listed bytes filename f ptr
      → read_loop fuel bytes filename ptr ≡ some (done (some f))
  Listed-read_loop zero ptr enough r = absurd (omega (arith, Listed-room ptr r))
  Listed-read_loop (suc fuel) ptr enough (here _ ptr' e n) =
      loop_turn fuel bytes filename ptr (return (some f))
        (le→leb _ _ (omega (arith, (next-Lists f ptr ptr' e).fits)))
        (hit ptr ptr' (next-Lists f ptr ptr' e) n)
  Listed-read_loop (suc fuel) ptr enough (later g _ ptr' e n r) =
      loop_turn fuel bytes filename ptr (continue ptr')
        (le→leb _ _ (omega (arith, (next-Lists g ptr ptr' e).fits)))
        (miss g ptr ptr' (next-Lists g ptr ptr' e) n (omega (arith, Listed-room ptr' r)))
      ∙ Listed-read_loop fuel ptr' (omega (arith, (next-Lists g ptr ptr' e).behind)) r

-- In an archive of fewer than 2^63 bytes, the first file of the name among those that the
-- iterator lists is the one that `read_file` returns.
pub Listed-read_file :
    (bytes filename : List ℕ) (f : File)
    → length bytes < 2 ^ 63
    → Listed bytes filename f 0
    → read_file bytes filename ≡ some (done (some f))
unfolding read_file
Listed-read_file bytes filename f small r =
    Listed-read_loop bytes filename f small (length bytes / 512 + 1) 0 (omega arith) r
