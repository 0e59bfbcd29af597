-- ===== src/Ustar.antt =====
-- kernel/src/drivers/ustar.rs: a read-only tar archive in memory. An archive is at most
-- `isize::MAX` bytes and a size field at most 8^11, so the plain sums of offsets cannot overflow.
pub mod Octal
pub mod Iterator
pub mod Lookup
pub mod Agree
mod Tests
use lemoncake.Base.{
  ℕ, zero, suc, ◌+◌, ◌-◌, ◌*◌, ◌/◌, ltb, leb, ◌==◌, true, false, not, ◌&&◌, if◌then◌else◌,
}
use lemoncake.Base.{Option, none, some, List, [], ◌∷◌, length, Run, done, panic, ◌>>=◌}
use lemoncake.Base.{slice, get_slice, cut, bytes_eq, position, is_utf8, checked_add}

abbrev pub block_size : ℕ
block_size = 512

abbrev pub signature_offset : ℕ
signature_offset = 257

abbrev pub size_offset : ℕ
size_offset = 0x7c

abbrev pub size_length : ℕ
size_length = 11

abbrev pub header_size : ℕ
header_size = 512

-- "ustar"
abbrev pub magic : List ℕ
magic = 0x75 ∷ 0x73 ∷ 0x74 ∷ 0x61 ∷ 0x72 ∷ []

-- `USTarFile`; the name is its UTF-8 bytes.
pub record File : Type 0 where
  pub filename : List ℕ
  pub content : List ℕ
  pub size : ℕ

pub read : ℕ → ℕ → File → Run (List ℕ)
read offset bytes f = slice offset (offset + bytes) f.content

pub read_to_end : ℕ → File → Run (List ℕ)
read_to_end offset f = if leb 1 f.size then slice offset (f.size - 1) f.content else panic

unfoldable pub oct2bin_from : ℕ → List ℕ → ℕ
oct2bin_from result [] = result
oct2bin_from result (byte ∷ rest) =
    let more = oct2bin_from (result * 8 + (byte - b'0')) rest in
    if leb b'0' byte && leb byte b'9' then more else result

unfoldable pub oct2bin : List ℕ → ℕ
unfolding oct2bin_from
oct2bin = oct2bin_from 0

-- The name field up to its first zero byte.
unfoldable pub name_of : List ℕ → Run (List ℕ)
name_of field = elim (position 0 field) [ none ↦ slice 0 100 field | some n ↦ slice 0 n field ]

unfoldable pub blocks_needed : ℕ → ℕ
blocks_needed filesize = if filesize == 0 then 0 else (filesize + block_size - 1) / block_size

-- `USTarFileIterator`, over archive bytes that do not change: the state is `ptr`.
unfoldable pub next : List ℕ → ℕ → Run (Option File × ℕ)
unfolding name_of blocks_needed
next bytes ptr =
    if leb (length bytes) ptr
    then done (none, ptr)
    else if ltb (length bytes) (ptr + header_size)
    then done (none, ptr)
    else if ltb (length bytes) (ptr + signature_offset + 5)
    then done (none, ptr)
    else (do
      signature ← slice (ptr + signature_offset) (ptr + signature_offset + 5) bytes
      if not (bytes_eq signature magic)
          then done (none, ptr)
          else elim (get_slice (ptr + size_offset) (ptr + size_offset + size_length) bytes) [
            | none ↦ done (none, ptr)
            | some size_slice ↦ (do
              let filesize = oct2bin size_slice
              name_field ← slice ptr (ptr + 100) bytes
              name ← name_of name_field
              let data_start = ptr + header_size
              let data_end = data_start + filesize
              if ltb (length bytes) data_end then done (none, ptr) else (do
                file_data ← slice data_start data_end bytes
                if not (is_utf8 name)
                    then done (none, length bytes)
                    else (let file : File = record {
                      filename = name;
                      content = file_data;
                      size = filesize;
                    } in
                        elim (checked_add ptr ((blocks_needed filesize + 1) * block_size)) [
                          | none ↦ done (some file, length bytes)
                          | some next_ptr ↦ done (some file, next_ptr)
                        ])))
          ])

-- What one round of `read_file` decides: to return, or to go on at the next header.
pub data Turn : Type 0 where
  return : Option File → Turn
  continue : ℕ → Turn

-- `break` leaves the loop, behind which the function returns `None`.
pub turn : List ℕ → List ℕ → ℕ → Run Turn
unfolding name_of blocks_needed
turn bytes filename ptr = do
  signature ← slice (ptr + signature_offset) (ptr + signature_offset + 5) bytes
  if not (bytes_eq signature magic)
      then done (return none)
      else elim (get_slice (ptr + size_offset) (ptr + size_offset + size_length) bytes) [
        | none ↦ done (return none)
        | some size_slice ↦ (do
          let filesize = oct2bin size_slice
          name_field ← slice ptr (ptr + 100) bytes
          header_name ← name_of name_field
          let data_start = ptr + header_size
          let data_end = data_start + filesize
          if bytes_eq header_name filename && leb data_end (length bytes)
              then (do
                file_data ← slice data_start data_end bytes
                if is_utf8 header_name
                    then done (
                        return (
                          some (record {
                            filename = header_name;
                            content = file_data;
                            size = filesize;
                          })))
                    else panic)
              else elim (checked_add ptr ((blocks_needed filesize + 1) * block_size)) [
                | none ↦ done (return none)
                | some next_ptr ↦
                    if ltb (length bytes) next_ptr
                    then done (return none)
                    else done (continue next_ptr)
              ])
      ]

-- The loop of `read_file`; `none` means that the fuel ran out.
pub read_loop : ℕ → List ℕ → List ℕ → ℕ → Option (Run (Option File))
unfolding turn
read_loop zero bytes filename ptr = none
read_loop (suc fuel) bytes filename ptr = elim (leb (ptr + header_size) (length bytes)) [
  | false ↦ some (done none)
  | true ↦ elim (turn bytes filename ptr) [
    | panic ↦ some panic
    | done (return r) ↦ some (done r)
    | done (continue next_ptr) ↦ read_loop fuel bytes filename next_ptr
  ]
]

-- Each round goes at least one block further.
pub read_file : List ℕ → List ℕ → Option (Run (Option File))
unfolding read_loop
read_file bytes filename = read_loop (length bytes / block_size + 1) bytes filename 0
