-- ===== src/StateContainer/RoundTrip.antt =====
-- What writeStateFile writes, readStateFile reads back.
use unidaw.Base.{
  ℕ, zero, suc, ◌+◌, ◌-◌, ◌*◌, ◌/◌, ◌%◌, ◌^◌, ◌<◌, ◌≡◌, refl, ap, ◌∙◌, Bool, true, false, List, [],
  ◌∷◌, ◌++◌, some, ◌==◌, if◌then◌else◌, length, arith,
}
use mathlib.Core.List.{append_assoc}
use mathlib.Core.Option
use unidaw.StateContainer.{
  PluginStateHeader, magic_bytes, header_bytes_size, parse_version_number, le16, le32, read_bytes,
  crc32c_update, crc32c, header_crc, header_for, write_state_file, read_fields, accept,
  read_state_file, version_from, ◌>>=◌,
}

-- Reading a list back from in front of others.
read_bytes-append :
    (n : ℕ) (bytes rest : List ℕ)
    → length bytes ≡ n
    → read_bytes n (bytes ++ rest) ≡ some (bytes, rest)
unfolding read_bytes
read_bytes-append zero [] rest h = refl
read_bytes-append (suc n) [] rest h = absurd (omega arith)
read_bytes-append zero (b ∷ bytes) rest h = absurd (omega arith)
read_bytes-append (suc n) (b ∷ bytes) rest h =
    rw (read_bytes-append n bytes rest (omega arith), read_bytes) refl

-- A 32-bit number from the bytes that it is written as.
abbrev joined : ℕ → ℕ
joined v = v % 256 + v / 2 ^ 8 % 256 * 2 ^ 8 + v / 2 ^ 16 % 256 * 2 ^ 16 + v / 2 ^ 24 % 256 * 2 ^ 24

joined-eq : (v : ℕ) → v < 2 ^ 32 → joined v ≡ v
joined-eq v h = omega arith

crc32c-le : (bytes : List ℕ) → crc32c bytes < 2 ^ 32
unfolding crc32c crc32c_update
crc32c-le bytes = omega arith

lt_if : (b : Bool) (x y m : ℕ) → x < m → y < m → (if b then x else y) < m
lt_if true x y m h k = h
lt_if false x y m h k = k

version_from-le : (cs : List ℕ) (b : Bool) (v : ℕ) → v < 2 ^ 32 → version_from b v cs < 2 ^ 32
version_from-le [] b v h = h
version_from-le (c ∷ cs) b v h =
    lt_if _ v _ (2 ^ 32) h
      (version_from-le cs _ _ (lt_if _ ((v * 10 + (c - 48)) % 2 ^ 32) v (2 ^ 32) (omega arith) h))

-- A header whose words fit, as the reader puts it together.
module _ (uid16 more : List ℕ) (pv size crc hcrc : ℕ) where
  abbrev header : PluginStateHeader
  header = record {
    magic = magic_bytes;
    version = 1;
    header_size = header_bytes_size;
    uid16 = uid16;
    plugin_version = pv;
    state_format = 0;
    flags = 0;
    payload_size = size;
    payload_crc32c = crc;
    header_crc32c = hcrc;
  }

  abbrev rest : List ℕ
  rest = le32 pv ++ (le16 0 ++ (le16 0 ++ (le32 size ++ (le32 crc ++ (le32 hcrc ++ more)))))

  pub read_fields-written :
      length uid16 ≡ 16
      → pv < 2 ^ 32
      → size < 2 ^ 32
      → crc < 2 ^ 32
      → hcrc < 2 ^ 32
      → read_fields (uid16 ++ rest) ≡ some (header, more)
  unfolding read_fields
  read_fields-written u hp hs hc hh =
      rw (read_bytes-append 16 uid16 rest u, ◌>>=◌)
        (rw (joined-eq pv hp, joined-eq size hs, joined-eq crc hc, joined-eq hcrc hh) refl)

same : (n : ℕ) → (n == n) ≡ true
same n = ground arith

-- The rest of the read, once the fields of the header are read.
read_after :
    (input : List ℕ) {header : PluginStateHeader} {in4 : List ℕ}
    → read_fields input ≡ some (header, in4)
    → read_state_file (magic_bytes ++ (le16 1 ++ (le16 header_bytes_size ++ input))) ≡ (
        read_bytes header.payload_size in4 >>= λ r.
        accept magic_bytes 1 header_bytes_size header r.0)
unfolding read_state_file read_bytes
read_after input e = rw (e, ◌>>=◌) refl

-- A header with its own checksum, and the payload that it describes, are accepted.
accept_own :
    (version uid16 state : List ℕ)
    → accept magic_bytes 1 header_bytes_size (header_for version uid16 state) state
      ≡ some (record { version = parse_version_number version; uid16 = uid16; state = state })
unfolding header_crc
accept_own version uid16 state =
    rw (same (crc32c state), same (header_crc (header_for version uid16 state))) refl

-- What writeStateFile writes for a state of at least one and less than 2^32 bytes, readStateFile
-- accepts: it gives back the uid, the state, and the number that the version parses to, whatever
-- follows in the file.
pub read-write :
    (version uid16 : List ℕ) (b : ℕ) (state more : List ℕ)
    → length uid16 ≡ 16
    → length (b ∷ state) < 2 ^ 32
    → Option.map
        (λ file. read_state_file (file ++ more))
        (write_state_file version uid16 (b ∷ state))
      ≡ some (
          some
            (record { version = parse_version_number version; uid16 = uid16; state = b ∷ state }))
unfolding write_state_file header_crc parse_version_number
read-write version uid16 b state more u small = ap some (
    ap (λ x. read_state_file (magic_bytes ++ (le16 1 ++ (le16 header_bytes_size ++ x)))) shape
    ∙ read_after _ fields
    ∙ payload
    ∙ accept_own version uid16 whole)
  where
    whole : List ℕ
    whole = b ∷ state

    h : PluginStateHeader
    h = header_for version uid16 whole

    after : List ℕ
    after =
        rest uid16 (whole ++ more) h.plugin_version h.payload_size h.payload_crc32c h.header_crc32c

    tail : List ℕ
    tail = rest uid16 [] h.plugin_version h.payload_size h.payload_crc32c h.header_crc32c

    shape : ((uid16 ++ tail) ++ whole) ++ more ≡ uid16 ++ after
    shape =
        ap (λ x. x ++ more) (append_assoc uid16 tail whole)
        ∙ append_assoc uid16 (tail ++ whole) more

    fields : read_fields (uid16 ++ after) ≡ some (h, whole ++ more)
    fields =
        read_fields-written uid16 (whole ++ more) h.plugin_version h.payload_size h.payload_crc32c
          h.header_crc32c u (version_from-le version false 0 (omega arith)) (omega arith)
          (crc32c-le whole) (crc32c-le _)

    payload :
        (read_bytes h.payload_size (whole ++ more) >>= λ r.
        accept magic_bytes 1 header_bytes_size h r.0)
        ≡ accept magic_bytes 1 header_bytes_size h whole
    payload = rw (read_bytes-append h.payload_size whole more (omega (arith, small)), ◌>>=◌) refl
