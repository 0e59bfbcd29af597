-- ===== src/Ustar/Tests.antt =====
-- An archive of one file, for kernel/src/drivers/ustar.rs.
use lemoncake.Base.{
  ℕ, ◌≡◌, refl, arith, List, [], ◌∷◌, ◌++◌, Option, some, done, replicate, is_utf8, position,
  bytes_eq,
}
use lemoncake.Ustar.{File, next, oct2bin, oct2bin_from, name_of, blocks_needed, read_file, magic}
use lemoncake.Ustar.Lookup.{Named, read_file-Finds}
use lemoncake.Ustar.Agree.{Listed, Listed-read_file}

abbrev archive : List ℕ
archive =
    (b'a' ∷ replicate 123 0)
    ++ replicate 10 b'0'
    ++ (b'3' ∷ replicate 122 0)
    ++ magic
    ++ replicate 250 0
    ++ (1 ∷ 2 ∷ 3 ∷ replicate 509 0)

abbrev file_a : File
file_a = record { filename = b'a' ∷ []; content = 1 ∷ 2 ∷ 3 ∷ []; size = 3 }

read_file-Finds_example :
    (o : Option File) × (read_file archive (b'a' ∷ []) ≡ some (done o)) × Named (b'a' ∷ []) o
unfolding is_utf8
read_file-Finds_example = read_file-Finds archive (b'a' ∷ []) (omega arith) refl

file_a-next : next archive 0 ≡ done (some file_a, 1024)
unfolding next oct2bin oct2bin_from name_of blocks_needed bytes_eq position is_utf8
file_a-next = refl

Listed-read_file_example : read_file archive (b'a' ∷ []) ≡ some (done (some file_a))
Listed-read_file_example =
    Listed-read_file archive (b'a' ∷ []) file_a (omega arith) (Listed.here 0 1024 file_a-next refl)
