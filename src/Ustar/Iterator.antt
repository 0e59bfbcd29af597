-- ===== src/Ustar/Iterator.antt =====
-- `USTarFileIterator::next`: what a listed file is, and that the iterator advances.
use lemoncake.Base.{ℕ, ◌+◌, ◌*◌, ◌^◌, ◌≤◌, ◌<◌, ◌≡◌, ◌⊎◌, inl, inr, refl, ◌∙◌, arith}
use lemoncake.Base.{List, length, Option, none, some, done, ltb}
use lemoncake.Base.{
  if◌then◌else◌, Bool-cases, checked_add, ltb_false→le, gt→leb_false, le→ltb_false, Option-cases,
  not, true, false,
}
use lemoncake.Base.{
  slice_done, get_slice-some, cut, length-cut, position, position-lt, bytes_eq, is_utf8,
}
use lemoncake.Ustar.{File, next, oct2bin, name_of, blocks_needed, magic}
use lemoncake.Ustar.Octal.{size_field_bound}

-- The archive as the functions read it at a header that fits.
abbrev pub name_field : List ℕ → ℕ → List ℕ
name_field bytes ptr = cut ptr (ptr + 100) bytes

abbrev pub size_field : List ℕ → ℕ → ℕ
size_field bytes ptr = oct2bin (cut (ptr + 0x7c) (ptr + 0x7c + 11) bytes)

pub name_of_done : (field : List ℕ) → length field ≡ 100 → (n : List ℕ) × (name_of field ≡ done n)
unfolding name_of
name_of_done field h = elim (Option-cases (position 0 field)) [
  | inl e ↦ (cut 0 100 field, rw (e, name_of) (slice_done 0 100 field (omega arith) (omega arith)))
  | inr (i, e) ↦ (
    cut 0 i field,
    rw (e, name_of) (slice_done 0 i field (omega arith) (omega (arith, position-lt 0 field e))),
  )
]

pub record Lists (bytes : List ℕ) (ptr : ℕ) (f : File) (ptr' : ℕ) : Type 0 where
  pub signed : bytes_eq (cut (ptr + 257) (ptr + 257 + 5) bytes) magic ≡ true
  pub sized : f.size ≡ size_field bytes ptr
  pub named : name_of (name_field bytes ptr) ≡ done f.filename
  pub valid : is_utf8 f.filename ≡ true
  pub fits : ptr + 512 + f.size ≤ length bytes
  pub content : f.content ≡ cut (ptr + 512) (ptr + 512 + f.size) bytes
  pub behind : ptr' ≡ ptr + (blocks_needed f.size + 1) * 512

abbrev pub Answers : List ℕ → ℕ → Option File → ℕ → Type 0
Answers bytes ptr none ptr' = (ptr' ≡ ptr) ⊎ (ptr' ≡ length bytes)
Answers bytes ptr (some f) ptr' = Lists bytes ptr f ptr'

pub blocks_cover : (n : ℕ) → (n ≤ blocks_needed n * 512) × (blocks_needed n * 512 < n + 512)
unfolding blocks_needed
blocks_cover n = ground arith

-- A header that fits in the archive has a name field.
pub header_name :
    (bytes : List ℕ) (ptr : ℕ)
    → ptr + 512 ≤ length bytes
    → (n : List ℕ) × (name_of (name_field bytes ptr) ≡ done n)
header_name bytes ptr h =
    name_of_done (name_field bytes ptr)
      (length-cut ptr (ptr + 100) bytes (omega arith) (omega arith) ∙ omega arith)

pub size_field_small :
    (bytes : List ℕ) (ptr : ℕ) → ptr + 512 ≤ length bytes → size_field bytes ptr < 2 ^ 34
size_field_small bytes ptr h =
    size_field_bound (cut (ptr + 0x7c) (ptr + 0x7c + 11) bytes)
      (length-cut (ptr + 0x7c) (ptr + 0x7c + 11) bytes (omega arith) (omega arith) ∙ omega arith)

-- The sum that finds the next header does not overflow.
pub step_some :
    (bytes : List ℕ) (ptr : ℕ)
    → length bytes < 2 ^ 63
    → ptr + 512 ≤ length bytes
    → checked_add ptr ((blocks_needed (size_field bytes ptr) + 1) * 512)
      ≡ some (ptr + (blocks_needed (size_field bytes ptr) + 1) * 512)
step_some bytes ptr small room =
    ground (arith, size_field_small bytes ptr room, blocks_cover (size_field bytes ptr))

-- The branches behind the first three tests.
module _ (bytes : List ℕ) (ptr : ℕ) (small : length bytes < 2 ^ 63)
    (room : ptr + 512 ≤ length bytes) where
  next_unsigned :
      bytes_eq (cut (ptr + 257) (ptr + 257 + 5) bytes) magic ≡ false
      → next bytes ptr ≡ done (none, ptr)
  unfolding next
  next_unsigned h = ground arith

  next_signed :
      (name : List ℕ)
      → bytes_eq (cut (ptr + 257) (ptr + 257 + 5) bytes) magic ≡ true
      → name_of (name_field bytes ptr) ≡ done name
      → next bytes ptr ≡ (
          if ltb (length bytes) (ptr + 512 + size_field bytes ptr)
          then done (none, ptr)
          else if not (is_utf8 name)
          then done (none, length bytes)
          else done (
            some (record {
              filename = name;
              content = cut (ptr + 512) (ptr + 512 + size_field bytes ptr) bytes;
              size = size_field bytes ptr;
            }),
            ptr + (blocks_needed (size_field bytes ptr) + 1) * 512,
          ))
  unfolding next
  next_signed name h e =
      rw
        (
          gt→leb_false (length bytes) ptr (omega arith),
          le→ltb_false (length bytes) (ptr + 512) room,
          le→ltb_false (length bytes) (ptr + 257 + 5) (omega arith),
          slice_done (ptr + 257) (ptr + 257 + 5) bytes (omega arith) (omega arith),
          h,
          get_slice-some (ptr + 0x7c) (ptr + 0x7c + 11) bytes (omega arith) (omega arith),
          slice_done ptr (ptr + 100) bytes (omega arith) (omega arith),
          e,
        )
        (elim (Bool-cases (ltb (length bytes) (ptr + 512 + size_field bytes ptr))) [
          | inl long ↦ rw long
          | inr fits ↦ rw (
            fits,
            slice_done (ptr + 512) (ptr + 512 + size_field bytes ptr) bytes (omega arith)
                (ltb_false→le _ _ fits),
            step_some bytes ptr small room,
          )
        ])

pub next-Answers :
    (bytes : List ℕ) (ptr : ℕ)
    → length bytes < 2 ^ 63
    → (o : Option File) × (ptr' : ℕ) × (next bytes ptr ≡ done (o, ptr')) × Answers bytes ptr o ptr'
next-Answers bytes ptr small = elim (Bool-cases (ltb (length bytes) (ptr + 512))) [
  | inl short ↦ (none, ptr, unfold next in ground arith, inl refl)
  | inr room ↦ signed (ltb_false→le _ _ room)
]
  where
    signed :
        ptr + 512 ≤ length bytes
        → (o : Option File) × (ptr' : ℕ) × (next bytes ptr ≡ done (o, ptr'))
          × Answers bytes ptr o ptr'
    signed room = elim (Bool-cases (bytes_eq (cut (ptr + 257) (ptr + 257 + 5) bytes) magic)) [
      | inr h ↦ (none, ptr, next_unsigned bytes ptr small room h, inl refl)
      | inl h ↦
          let (name, e) = header_name bytes ptr room in
          let run = next_signed bytes ptr small room name h e in
          elim (Bool-cases (ltb (length bytes) (ptr + 512 + size_field bytes ptr))) [
            | inl long ↦ (none, ptr, run ∙ rw long, inl refl)
            | inr fits ↦ elim (Bool-cases (is_utf8 name)) [
              | inr bad ↦ (none, length bytes, run ∙ rw (fits, bad), inr refl)
              | inl valid ↦ (
                some _,
                _,
                run ∙ rw (fits, valid),
                record {
                  signed = h;
                  sized = refl;
                  named = e;
                  valid = valid;
                  fits = ltb_false→le _ _ fits;
                  content = refl;
                  behind = refl;
                },
              )
            ]
          ]
    ]
