-- ===== src/StableId/Tests.antt =====
-- Known values of the 64-bit FNV-1a hash, which is the hash of the seed 0.
use unidaw.Base.{◌≡◌, refl, [], ◌∷◌}
use unidaw.StableId.{fnv1a64}

fnv1a64-empty : fnv1a64 [] 0 ≡ 0xcbf2_9ce4_8422_2325
unfolding fnv1a64
fnv1a64-empty = refl

-- "a".
fnv1a64-a : fnv1a64 (97 ∷ []) 0 ≡ 0xaf63_dc4c_8601_ec8c
unfolding fnv1a64
fnv1a64-a = refl
