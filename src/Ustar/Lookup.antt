-- ===== src/Ustar/Lookup.antt =====
-- `USTar::read_file`: it ends, it does not panic, and it finds what the iterator lists.
use lemoncake.Base.{ℕ, zero, suc, ◌+◌, ◌*◌, ◌/◌, ◌^◌, ◌≤◌, ◌<◌, ◌≡◌, inl, inr, refl}
use lemoncake.Base.{◌∙◌, arith, List, length, Option, none, some, Run, done, panic, ltb, leb}
use lemoncake.Base.{
  if◌then◌else◌, Bool-cases, ltb_false→le, true, false, ◌&&◌, leb→le, &&_left, &&_right,
}
use lemoncake.Base.{slice_done, get_slice-some, cut, bytes_eq, bytes_eq_sound, is_utf8}
use lemoncake.Ustar.{File, Turn, return, continue, turn, read_loop, read_file, name_of}
use lemoncake.Ustar.{blocks_needed, magic}
use lemoncake.Ustar.Iterator.{name_field, size_field, header_name, step_some}

abbrev pub entry : List ℕ → ℕ → List ℕ → File
entry bytes ptr name = record {
  filename = name;
  content = cut (ptr + 512) (ptr + 512 + size_field bytes ptr) bytes;
  size = size_field bytes ptr;
}

abbrev pub behind : List ℕ → ℕ → ℕ
behind bytes ptr = ptr + (blocks_needed (size_field bytes ptr) + 1) * 512

module _ (bytes filename : List ℕ) (ptr : ℕ) (small : length bytes < 2 ^ 63)
    (room : ptr + 512 ≤ length bytes) where
  turn_unsigned :
      bytes_eq (cut (ptr + 257) (ptr + 257 + 5) bytes) magic ≡ false
      → turn bytes filename ptr ≡ done (return none)
  unfolding turn
  turn_unsigned h = ground arith

  pub turn_signed :
      (name : List ℕ)
      → bytes_eq (cut (ptr + 257) (ptr + 257 + 5) bytes) magic ≡ true
      → name_of (name_field bytes ptr) ≡ done name
      → turn bytes filename ptr ≡ (
          if bytes_eq name filename && leb (ptr + 512 + size_field bytes ptr) (length bytes)
          then (if is_utf8 name then done (return (some (entry bytes ptr name))) else panic)
          else if ltb (length bytes) (behind bytes ptr)
          then done (return none)
          else done (continue (behind bytes ptr)))
  unfolding turn
  turn_signed name h e =
      rw
        (
          slice_done (ptr + 257) (ptr + 257 + 5) bytes (omega arith) (omega arith),
          h,
          get_slice-some (ptr + 0x7c) (ptr + 0x7c + 11) bytes (omega arith) (omega arith),
          slice_done ptr (ptr + 100) bytes (omega arith) (omega arith),
          e,
        )
        (elim (Bool-cases
          (bytes_eq name filename && leb (ptr + 512 + size_field bytes ptr) (length bytes))) [
            | inl hit ↦ rw (
              hit,
              slice_done (ptr + 512) (ptr + 512 + size_field bytes ptr) bytes (omega arith)
                  (leb→le _ _ (&&_right (bytes_eq name filename) _ hit)),
            )
            | inr miss ↦ rw (miss, step_some bytes ptr small room)
          ])

-- What is found has the name that was asked for.
abbrev pub Named : List ℕ → Option File → Type 0
Named filename none = Unit
Named filename (some f) = f.filename ≡ filename

-- What a round does, with no case left out.
abbrev pub Turns : List ℕ → List ℕ → ℕ → Turn → Type 0
Turns bytes filename ptr (return none) = Unit
Turns bytes filename ptr (return (some f)) = f.filename ≡ filename
Turns bytes filename ptr (continue ptr') = (ptr + 512 ≤ ptr') × (ptr' ≤ length bytes)

turn-Turns :
    (bytes filename : List ℕ) (ptr : ℕ)
    → length bytes < 2 ^ 63
    → ptr + 512 ≤ length bytes
    → is_utf8 filename ≡ true
    → (t : Turn) × (turn bytes filename ptr ≡ done t) × Turns bytes filename ptr t
turn-Turns bytes filename ptr small room utf =
    elim (Bool-cases (bytes_eq (cut (ptr + 257) (ptr + 257 + 5) bytes) magic)) [
      | inr h ↦ (return none, turn_unsigned bytes filename ptr small room h, tt)
      | inl h ↦
          let (name, e) = header_name bytes ptr room in
          let run = turn_signed bytes filename ptr small room name h e in
          elim (Bool-cases
            (bytes_eq name filename && leb (ptr + 512 + size_field bytes ptr) (length bytes))) [
              | inl hit ↦
                  let same : name ≡ filename = bytes_eq_sound name filename (&&_left _ _ hit) in
                  (return (some (entry bytes ptr name)), run ∙ rw (hit, same, utf), same)
              | inr miss ↦ elim (Bool-cases (ltb (length bytes) (behind bytes ptr))) [
                | inl last ↦ (return none, run ∙ rw (miss, last), tt)
                | inr more ↦ (
                  continue (behind bytes ptr),
                  run ∙ rw (miss, more),
                  (omega arith, ltb_false→le _ _ more),
                )
              ]
            ]
    ]

-- What the loop makes of a round.
abbrev pub after : List ℕ → List ℕ → ℕ → Turn → Option (Run (Option File))
after bytes filename fuel (return o) = some (done o)
after bytes filename fuel (continue ptr') = read_loop fuel bytes filename ptr'

pub loop_out :
    (fuel : ℕ) (bytes filename : List ℕ) (ptr : ℕ)
    → leb (ptr + 512) (length bytes) ≡ false
    → read_loop (suc fuel) bytes filename ptr ≡ some (done none)
unfolding read_loop
loop_out fuel bytes filename ptr h = rw (h, read_loop)

pub loop_turn :
    (fuel : ℕ) (bytes filename : List ℕ) (ptr : ℕ) (t : Turn)
    → leb (ptr + 512) (length bytes) ≡ true
    → turn bytes filename ptr ≡ done t
    → read_loop (suc fuel) bytes filename ptr ≡ after bytes filename fuel t
unfolding read_loop
loop_turn fuel bytes filename ptr (return o) h e = rw (h, e, read_loop)
loop_turn fuel bytes filename ptr (continue p) h e = rw (h, e, read_loop)

abbrev Finds : List ℕ → Option (Run (Option File)) → Type 0
Finds filename r = (o : Option File) × (r ≡ some (done o)) × Named filename o

module _ (bytes filename : List ℕ) (small : length bytes < 2 ^ 63)
    (utf : is_utf8 filename ≡ true) where
  -- Each round goes one block further at least.
  read_loop_total :
      (fuel ptr : ℕ)
      → ptr ≤ length bytes
      → length bytes < ptr + fuel * 512
      → Finds filename (read_loop fuel bytes filename ptr)
  read_loop_total zero ptr h enough = absurd (omega arith)
  read_loop_total (suc fuel) ptr h enough = elim (Bool-cases (leb (ptr + 512) (length bytes))) [
    | inr out ↦ (none, loop_out fuel bytes filename ptr out, tt)
    | inl room ↦
        let (t, run, turns) = turn-Turns bytes filename ptr small (leb→le _ _ room) utf in
        rw (loop_turn fuel bytes filename ptr t room run) (go t turns (λ p. read_loop_total fuel p))
  ]
    where
      go :
          (t : Turn)
          → Turns bytes filename ptr t
          → ((p : ℕ)
              → p ≤ length bytes
              → length bytes < p + fuel * 512
              → Finds filename (read_loop fuel bytes filename p))
          → Finds filename (after bytes filename fuel t)
      go (return none) turns rest = (none, refl, tt)
      go (return (some f)) turns rest = (some f, refl, turns)
      go (continue ptr') turns rest = rest ptr' turns.1 (omega arith)

-- The search for a valid file name in an archive of any bytes, fewer than 2^63, ends within its
-- fuel and does not panic; a file that it returns has the name.
pub read_file-Finds :
    (bytes filename : List ℕ)
    → length bytes < 2 ^ 63
    → is_utf8 filename ≡ true
    → (o : Option File) × (read_file bytes filename ≡ some (done o)) × Named filename o
unfolding read_file
read_file-Finds bytes filename small utf =
    read_loop_total bytes filename small utf (length bytes / 512 + 1) 0 (omega arith) (omega arith)
