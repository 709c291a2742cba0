-- ===== src/Graph/Relax.antt =====
-- The inner loop of buildPatcherGraph's depth pass (apps/patcher_graph.cpp): one node's targets.
use mathlib.Core.List.{Memᴰ}
use mathlib.Core.List.Memᴰ
use unidaw.Base.{
  ℕ, suc, ◌+◌, ◌≤◌, ◌<◌, ◌%◌, ◌⊎◌, subst, sym, ap, ◌≡◌, ◌≢◌, refl, inl, inr, List, [], ◌∷◌, length,
  get_or, set, ltb, ==_iff, ◌==◌, length-set, get_or-set_self, get_or-set_ne, Bool-cases, arith,
}
use unidaw.Graph.Build.{Depths, raise, raise_all}

-- What raising the targets `ts` of a node of depth `base` does to the depth of `v`.
pub record Raised (base : ℕ) (ts : List ℕ) (d e : Depths) (v : ℕ) : Type 0 where
  pub grows : get_or d.at v 0 ≤ get_or e.at v 0
  pub target : Memᴰ v ts → suc base ≤ get_or e.at v 0
  pub cause : (get_or e.at v 0 ≡ get_or d.at v 0) ⊎ (Memᴰ v ts × (get_or e.at v 0 ≡ suc base))

raise_self :
    (base t : ℕ) (d : Depths) (v : ℕ)
    → t ≡ v
    → t < length d.at
    → suc base < 65536
    → (suc base ≤ get_or (raise base t d).at v 0)
      × (get_or d.at v 0 ≤ get_or (raise base t d).at v 0)
      × ((get_or (raise base t d).at v 0 ≡ get_or d.at v 0)
          ⊎ (get_or (raise base t d).at v 0 ≡ suc base))
raise_self base t d v e h k =
    subst
      (λ w.
        (suc base ≤ get_or (raise base t d).at w 0)
        × (get_or d.at w 0 ≤ get_or (raise base t d).at w 0)
        × ((get_or (raise base t d).at w 0 ≡ get_or d.at w 0)
            ⊎ (get_or (raise base t d).at w 0 ≡ suc base)))
      e (ground (arith, get_or-set_self d.at t ((base + 1) % 65536) 0 h))

raise_other :
    (base t : ℕ) (d : Depths) (v : ℕ) → t ≢ v → get_or (raise base t d).at v 0 ≡ get_or d.at v 0
raise_other base t d v h = ground (arith, get_or-set_ne d.at ((base + 1) % 65536) 0 h)

length-raise : (base t : ℕ) (d : Depths) → length (raise base t d).at ≡ length d.at
length-raise base t d = ground (arith, length-set d.at t ((base + 1) % 65536))

pub length-raise_all :
    (base : ℕ) (ts : List ℕ) (d : Depths) → length (raise_all base ts d).at ≡ length d.at
length-raise_all base [] d = refl
length-raise_all base (t ∷ ts) d =
    omega (arith, length-raise_all base ts (raise base t d), length-raise base t d)

pub raise_all-Raised :
    (base : ℕ) (ts : List ℕ) (d : Depths) (v : ℕ)
    → ((t : ℕ) → Memᴰ t ts → t < length d.at)
    → suc base < 65536
    → Raised base ts d (raise_all base ts d) v
raise_all-Raised base [] d v h k = record {
  grows = omega arith;
  target = λ m. absurd (Memᴰ.not-nil m);
  cause = inl refl;
}
raise_all-Raised base (t ∷ ts) d v h k =
    let rest =
      raise_all-Raised base ts (raise base t d) v
        (λ u m. omega (arith, h u (Memᴰ.tail m), length-raise base t d)) k in
    elim (Bool-cases (t == v)) [
      | inl same ↦
          let e = ==_iff t v in
          let own = raise_self base t d v (e.0 same) (h t (Memᴰ.head refl)) k in
          record {
            grows = omega (arith, own.1, rest.grows);
            target = λ m. omega (arith, own.0, rest.grows);
            cause = elim rest.cause [
              | inl q ↦ elim own.2 [
                | inl p ↦ inl (omega arith)
                | inr p ↦ inr (Memᴰ.head (sym (e.0 same)), omega arith)
              ]
              | inr (m, q) ↦ inr (Memᴰ.tail m, q)
            ];
          }
      | inr other ↦
          let own = raise_other base t d v (λ e. ground arith) in
          record {
            grows = omega (arith, rest.grows);
            target = λ m. elim (Memᴰ.cases_cons m) [
              | inl e ↦ absurd (ground arith)
              | inr n ↦ rest.target n
            ];
            cause = elim rest.cause [
              | inl e ↦ inl (omega arith)
              | inr (m, e) ↦ inr (Memᴰ.tail m, e)
            ];
          }
    ]

-- A write in range, read back at `v`.
written :
    (xs : List ℕ) (t x v : ℕ)
    → t < length xs
    → ((t ≡ v) × (get_or (set xs t x) v 0 ≡ x)) ⊎ (get_or (set xs t x) v 0 ≡ get_or xs v 0)
written xs t x v h = elim (Bool-cases (t == v)) [
  | inl same ↦
      let e = (==_iff t v).0 same in
      inl (e, subst (λ w. get_or (set xs t x) w 0 ≡ x) e (get_or-set_self xs t x 0 h))
  | inr other ↦ inr (get_or-set_ne xs x 0 (λ e. ground arith))
]

-- `top` is the greatest of the depths.
pub record IsTop (d : Depths) : Type 0 where
  pub above : (v : ℕ) → get_or d.at v 0 ≤ d.top
  pub reached : (d.top ≡ 0) ⊎ ((v : ℕ) × (get_or d.at v 0 ≡ d.top))

raise-IsTop :
    (base t : ℕ) (d : Depths)
    → t < length d.at
    → suc base < 65536
    → IsTop d
    → IsTop (raise base t d)
raise-IsTop base t d h k top = elim (Bool-cases (ltb (get_or d.at t 0) (base + 1))) [
  | inr miss ↦ rw miss top
  | inl low ↦ rw low record {
    above = λ v. elim (written d.at t ((base + 1) % 65536) v h) [
      | inl e ↦ omega (arith, e.1)
      | inr e ↦ omega (arith, e, top.above v)
    ];
    reached = elim (Bool-cases (ltb d.top (suc base))) [
      | inl more ↦ inr (t, ground (arith, get_or-set_self d.at t ((base + 1) % 65536) 0 h))
      | inr less ↦ elim top.reached [
        | inl z ↦ ground arith
        | inr (v, e) ↦ elim (written d.at t ((base + 1) % 65536) v h) [
          | inl f ↦ absurd (ground (arith, ap (λ w. get_or d.at w 0) f.0))
          | inr f ↦ inr (v, ground (arith, f, e))
        ]
      ]
    ];
  }
]

pub raise_all-IsTop :
    (base : ℕ) (ts : List ℕ) (d : Depths)
    → ((t : ℕ) → Memᴰ t ts → t < length d.at)
    → suc base < 65536
    → IsTop d
    → IsTop (raise_all base ts d)
raise_all-IsTop base [] d h k top = top
raise_all-IsTop base (t ∷ ts) d h k top =
    raise_all-IsTop base ts (raise base t d)
      (λ u m. omega (arith, h u (Memᴰ.tail m), length-raise base t d)) k
      (raise-IsTop base t d (h t (Memᴰ.head refl)) k top)
