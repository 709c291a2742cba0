-- ===== src/StateContainer/Tests.antt =====
-- A state of four bytes.
use mathlib.Core.Option
use unidaw.Base.{◌≡◌, refl, [], ◌∷◌, ◌++◌, some, replicate, arith}
use unidaw.StateContainer.{
  crc_steps, crc_bytes, crc32c_update, crc32c, parse_version_number, write_state_file,
  read_state_file,
}
use unidaw.StateContainer.RoundTrip.{read-write}

-- The check value of CRC-32C: the digits from 1 to 9.
crc32c_digits : crc32c (49 ∷ 50 ∷ 51 ∷ 52 ∷ 53 ∷ 54 ∷ 55 ∷ 56 ∷ 57 ∷ []) ≡ 0xE3069283
unfolding crc_steps crc_bytes crc32c_update crc32c
crc32c_digits = refl

-- "v12.3" parses to 12.
version_12 : parse_version_number (118 ∷ 49 ∷ 50 ∷ 46 ∷ 51 ∷ []) ≡ 12
unfolding parse_version_number
version_12 = refl

read-write_example :
    Option.map
      (λ file. read_state_file (file ++ (1 ∷ [])))
      (write_state_file (49 ∷ []) (replicate 16 7) (1 ∷ 2 ∷ 3 ∷ 255 ∷ []))
    ≡ some (
        some (record {
          version = parse_version_number (49 ∷ []);
          uid16 = replicate 16 7;
          state = 1 ∷ 2 ∷ 3 ∷ 255 ∷ [];
        }))
read-write_example =
    read-write (49 ∷ []) (replicate 16 7) 1 (2 ∷ 3 ∷ 255 ∷ []) (1 ∷ []) refl (omega arith)
