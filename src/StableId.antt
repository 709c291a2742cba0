-- ===== src/StableId.antt =====
-- apps/uid_hash.h: the 16 bytes that stand for the id of a parameter, two FNV-1a hashes of its text.
mod Tests
use Prim.Native.Nat.{bit_xor}
use unidaw.Base.{ℕ, ◌*◌, ◌/◌, ◌%◌, ◌^◌, List, [], ◌∷◌, ◌++◌}

-- The loop over the bytes of the text, in 64 bits.
abbrev pub fnv_from : ℕ → List ℕ → ℕ
fnv_from hash [] = hash
fnv_from hash (c ∷ cs) = fnv_from ((bit_xor hash c * 1099511628211) % 2 ^ 64) cs

unfoldable pub fnv1a64 : List ℕ → ℕ → ℕ
fnv1a64 input seed = fnv_from (bit_xor 14695981039346656037 seed) input

-- `(word >> (i * 8)) & 0xFF`.
abbrev pub byte_at : ℕ → ℕ → ℕ
byte_at word i = word / 2 ^ (i * 8) % 256

abbrev pub word_bytes : ℕ → List ℕ
word_bytes w =
    byte_at w 0
    ∷ byte_at w 1
    ∷ byte_at w 2
    ∷ byte_at w 3
    ∷ byte_at w 4
    ∷ byte_at w 5
    ∷ byte_at w 6
    ∷ byte_at w 7
    ∷ []

unfoldable pub hash_stable_id16 : List ℕ → List ℕ
hash_stable_id16 stable_id =
    word_bytes (fnv1a64 stable_id 0x9e37_79b9_7f4a_7c15)
    ++ word_bytes (fnv1a64 stable_id 0xbf58_476d_1ce4_e5b9)
