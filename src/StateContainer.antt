-- ===== src/StateContainer.antt =====
-- apps/state_container.cpp: the file that keeps the state of a plugin, as its bytes. A file is the
-- list of them, and the calls of the operating system are taken to succeed.
pub mod RoundTrip
mod Tests
use Prim.Native.Nat.{bit_xor}
use unidaw.Base.{
  ℕ, zero, suc, ◌+◌, ◌-◌, ◌*◌, ◌/◌, ◌%◌, ◌^◌, Bool, true, false, ◌&&◌, ◌||◌, not, List, [], ◌∷◌,
  ◌++◌, Option, none, some, ltb, leb, ◌==◌, if◌then◌else◌, length, get_or,
}
use unidaw.Base.Words.{u32_max}

-- A header as it is in memory too: 44 bytes without padding, on a little-endian machine.
pub record PluginStateHeader : Type 0 where
  pub magic : List ℕ
  pub version : ℕ
  pub header_size : ℕ
  pub uid16 : List ℕ
  pub plugin_version : ℕ
  pub state_format : ℕ
  pub flags : ℕ
  pub payload_size : ℕ
  pub payload_crc32c : ℕ
  pub header_crc32c : ℕ

-- "PST0".
abbrev pub magic_bytes : List ℕ
magic_bytes = 80 ∷ 83 ∷ 84 ∷ 48 ∷ []

abbrev pub header_bytes_size : ℕ
header_bytes_size = 44

abbrev pub eq_bytes : List ℕ → List ℕ → Bool
eq_bytes [] [] = true
eq_bytes (a ∷ xs) (b ∷ ys) = a == b && eq_bytes xs ys
eq_bytes _ _ = false

-- The first run of decimal digits, wrapping, or 0.
abbrev pub version_from : Bool → ℕ → List ℕ → ℕ
version_from has_digits value [] = value
version_from has_digits value (c ∷ cs) =
    let digit = leb 48 c && leb c 57 in
    let rest =
      version_from (digit || has_digits) (if digit then (value * 10 + (c - 48)) % 2 ^ 32 else value)
        cs in
    if not digit && has_digits then value else rest

unfoldable pub parse_version_number : List ℕ → ℕ
parse_version_number version = version_from false 0 version

abbrev pub le16 : ℕ → List ℕ
le16 value = value % 256 ∷ value / 2 ^ 8 % 256 ∷ []

abbrev pub le32 : ℕ → List ℕ
le32 value = value % 256 ∷ value / 2 ^ 8 % 256 ∷ value / 2 ^ 16 % 256 ∷ value / 2 ^ 24 % 256 ∷ []

-- Bytes are below 256, so that `|` of the shifted ones is a sum. The rest of the input follows.
abbrev pub read_le16 : List ℕ → Option (ℕ × List ℕ)
read_le16 (a ∷ b ∷ rest) = some (a + b * 2 ^ 8, rest)
read_le16 _ = none

abbrev pub read_le32 : List ℕ → Option (ℕ × List ℕ)
read_le32 (a ∷ b ∷ c ∷ d ∷ rest) = some (a + b * 2 ^ 8 + c * 2 ^ 16 + d * 2 ^ 24, rest)
read_le32 _ = none

-- `in.read` of so many bytes.
unfoldable pub read_bytes : ℕ → List ℕ → Option (List ℕ × List ℕ)
read_bytes zero input = some ([], input)
read_bytes (suc n) [] = none
read_bytes (suc n) (b ∷ input) = elim (read_bytes n input) [
  | none ↦ none
  | some (bytes, rest) ↦ some (b ∷ bytes, rest)
]

-- A table entry: eight steps, each with the polynomial where the lowest bit is set.
unfoldable pub crc_steps : ℕ → ℕ → ℕ
crc_steps zero r = r
crc_steps (suc n) r = crc_steps n (if r % 2 == 1 then bit_xor (r / 2) 0x82F63B78 else r / 2)

unfoldable pub crc_bytes : ℕ → List ℕ → ℕ
crc_bytes c [] = c
crc_bytes c (b ∷ bytes) = crc_bytes (bit_xor (crc_steps 8 (bit_xor c b % 256)) (c / 2 ^ 8)) bytes

-- `~c` of a word is `u32_max - c`.
unfoldable pub crc32c_update : ℕ → List ℕ → ℕ
crc32c_update crc bytes = u32_max - crc_bytes (u32_max - crc) bytes

unfoldable pub crc32c : List ℕ → ℕ
crc32c bytes = crc32c_update 0 bytes

-- The bytes of a header.
abbrev pub header_bytes : PluginStateHeader → List ℕ
header_bytes h =
    h.magic
    ++ (le16 h.version
        ++ (le16 h.header_size
            ++ (h.uid16
                ++ (le32 h.plugin_version
                    ++ (le16 h.state_format
                        ++ (le16 h.flags
                            ++ (le32 h.payload_size
                                ++ (le32 h.payload_crc32c ++ le32 h.header_crc32c))))))))

unfoldable pub header_crc : PluginStateHeader → ℕ
header_crc h = crc32c (header_bytes (record h { header_crc32c = 0 }))

-- The header that is written for a state.
abbrev pub header_for : (version uid16 state : List ℕ) → PluginStateHeader
header_for version uid16 state =
    let header : PluginStateHeader = record {
      magic = magic_bytes;
      version = 1;
      header_size = header_bytes_size;
      uid16 = uid16;
      plugin_version = parse_version_number version;
      state_format = 0;
      flags = 0;
      payload_size = length state % 2 ^ 32;
      payload_crc32c = crc32c state;
      header_crc32c = 0;
    } in
    record header { header_crc32c = header_crc header }

-- The file, or none where the call returns false.
unfoldable pub write_state_file : (version uid16 state : List ℕ) → Option (List ℕ)
write_state_file version uid16 [] = none
write_state_file version uid16 (b ∷ state) =
    some (header_bytes (header_for version uid16 (b ∷ state)) ++ (b ∷ state))

pub record PluginState : Type 0 where
  pub version : ℕ
  pub uid16 : List ℕ
  pub state : List ℕ

infixl 10 ◌>>=◌
abbrev ◌>>=◌ : {A B : Type 0} → Option A → (A → Option B) → Option B
none >>= f = none
some a >>= f = f a

-- The fields after the size of the header, with the rest of the input.
unfoldable pub read_fields : List ℕ → Option (PluginStateHeader × List ℕ)
read_fields input = do
  (uid16, in1) ← read_bytes 16 input
  (plugin_version, in2) ← read_le32 in1
  (state_format, in3) ← read_le16 in2
  (flags, in4) ← read_le16 in3
  (payload_size, in5) ← read_le32 in4
  (payload_crc32c, in6) ← read_le32 in5
  (header_crc32c, in7) ← read_le32 in6
  some (
    record {
      magic = magic_bytes;
      version = 1;
      header_size = header_bytes_size;
      uid16 = uid16;
      plugin_version = plugin_version;
      state_format = state_format;
      flags = flags;
      payload_size = payload_size;
      payload_crc32c = payload_crc32c;
      header_crc32c = header_crc32c;
    },
    in7,
  )

-- The tests on what was read.
abbrev pub accept :
    (magic : List ℕ) (version header_size : ℕ) → PluginStateHeader → List ℕ → Option PluginState
accept magic version header_size header state =
    if eq_bytes magic magic_bytes
      && version == 1
      && header_size == header_bytes_size
      && header_crc header == header.header_crc32c
      && crc32c state == header.payload_crc32c
    then some (record { version = header.plugin_version; uid16 = header.uid16; state = state })
    else none

-- The state of a file, or none where the call returns false. The version string that the code gives
-- back is the decimal form of `version`.
unfoldable pub read_state_file : List ℕ → Option PluginState
read_state_file file = do
  (magic, in1) ← read_bytes 4 file
  (version, in2) ← read_le16 in1
  (header_size, in3) ← read_le16 in2
  (header, in4) ← read_fields in3
  (state, in5) ← read_bytes header.payload_size in4
  accept magic version header_size header state
