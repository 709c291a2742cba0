-- ===== src/Graph/Depth.antt =====
-- The depth pass of buildPatcherGraph (apps/patcher_graph.cpp) over a topological order, against
-- the longest paths of the graph.
use mathlib.Core.List.{Memᴰ}
use mathlib.Core.List.Memᴰ
use unidaw.Base.{
  ℕ, zero, suc, ◌+◌, ◌≤◌, ◌<◌, ◌⊎◌, ◌≡◌, ◌↔◌, refl, inl, inr, List, [], ◌∷◌, length, get_or, ==_iff,
  ◌==◌, Bool-cases, arith, subst, max, ap, length-replicate, replicate,
}
use unidaw.Graph.Build.{Depths, raise_all, settle}
use unidaw.Graph.Relax.{Raised, length-raise_all, raise_all-Raised, IsTop, raise_all-IsTop}

-- `graph.maxDepth = std::max(graph.maxDepth, baseDepth)`.
abbrev seen : ℕ → Depths → Depths
seen u d = record d { top = max d.top (get_or d.at u 0) }

seen-IsTop : (u : ℕ) (d : Depths) → IsTop d → IsTop (seen u d)
seen-IsTop u d top = record {
  above = λ v. omega (arith, top.above v);
  reached = elim top.reached [
    | inl z ↦ inl (omega (arith, z, top.above u))
    | inr (v, e) ↦ inr (v, omega (arith, e, top.above u))
  ];
}

-- A path of `k` edges that ends in `v`.
pub data PathTo (es : List (ℕ × ℕ)) : ℕ → ℕ → Type 0 where
  stop : {v : ℕ} → PathTo es 0 v
  extend : {k u v : ℕ} → PathTo es k u → Memᴰ (u, v) es → PathTo es (suc k) v

-- Each vertex once, and none before the source of an edge into it.
abbrev pub IsOrder : List (ℕ × ℕ) → List ℕ → Type 0
IsOrder es [] = Unit
IsOrder es (u ∷ us) = (¬ Memᴰ u us) × ((w : ℕ) → Memᴰ w (u ∷ us) → ¬ Memᴰ (w, u) es) × IsOrder es us

-- `k` is the length of the longest path to `v`.
abbrev pub IsLongest : List (ℕ × ℕ) → ℕ → ℕ → Type 0
IsLongest es v k = PathTo es k v × ((j : ℕ) → PathTo es j v → j ≤ k)

module _ (n : ℕ) (small : n ≤ 1024) (es : List (ℕ × ℕ)) (out : ℕ → List ℕ)
    (out_iff : (u v : ℕ) → Memᴰ v (out u) ↔ Memᴰ (u, v) es)
    (ends : (u v : ℕ) → Memᴰ (u, v) es → v < n) where
  -- What holds between two rounds of the pass, with the nodes `todo` left.
  record Before (todo : List ℕ) (d : Depths) : Type 0 where
    size : length d.at ≡ n
    room : (v : ℕ) → get_or d.at v 0 + length todo ≤ n
    finished : (u v : ℕ) → Memᴰ (u, v) es → ¬ Memᴰ u todo → suc (get_or d.at u 0) ≤ get_or d.at v 0
    cause :
        (v : ℕ)
        → (get_or d.at v 0 ≡ 0)
          ⊎ ((u : ℕ) × Memᴰ (u, v) es × (¬ Memᴰ u todo) × (get_or d.at v 0 ≡ suc (get_or d.at u 0)))
    closed : (u v : ℕ) → Memᴰ (u, v) es → Memᴰ u todo → Memᴰ v todo
    top : IsTop d

  -- One round.
  abbrev round : ℕ → Depths → Depths
  round u d = raise_all (get_or d.at u 0) (out u) (seen u d)

  module _ (u : ℕ) (us : List ℕ) (d : Depths) (order : IsOrder es (u ∷ us))
      (b : Before (u ∷ us) d) where
    inside : (t : ℕ) → Memᴰ t (out u) → t < length d.at
    inside t m = omega (arith, ends u t ((out_iff u t).0 m), b.size)

    low : suc (get_or d.at u 0) < 65536
    low = omega (arith, b.room u, small)

    raised : (v : ℕ) → Raised (get_or d.at u 0) (out u) (seen u d) (round u d) v
    raised v = raise_all-Raised (get_or d.at u 0) (out u) (seen u d) v inside low

    -- A node that is done keeps its depth.
    settled : (w : ℕ) → ¬ Memᴰ w us → get_or (round u d).at w 0 ≡ get_or d.at w 0
    settled w h = elim (raised w).cause [
      | inl e ↦ e
      | inr (m, e) ↦
          let edge = (out_iff u w).0 m in
          elim (Memᴰ.cases_cons (b.closed u w edge (Memᴰ.head refl))) [
            | inl same ↦ absurd (order.1 u (Memᴰ.head refl) (subst (λ x. Memᴰ (u, x) es) same edge))
            | inr n ↦ absurd (h n)
          ]
    ]

    round-Before : Before us (round u d)
    round-Before = record {
      size = omega (arith, b.size, length-raise_all (get_or d.at u 0) (out u) (seen u d));
      room = λ v. elim (raised v).cause [
        | inl e ↦ omega (arith, e, b.room v)
        | inr (m, e) ↦ omega (arith, e, b.room u)
      ];
      finished = λ a v edge h. elim (Bool-cases (a == u)) [
        | inl same ↦
            let e = (==_iff a u).0 same in
            omega (
              arith,
              settled a h,
              ap (λ x. get_or d.at x 0) e,
              (raised v).target ((out_iff u v).1 (subst (λ x. Memᴰ (x, v) es) e edge)),
            )
        | inr other ↦ omega (
          arith,
          b.finished a v edge
              (λ m. elim (Memᴰ.cases_cons m) [ inl e ↦ ground arith | inr n ↦ h n ]),
          (raised v).grows,
          settled a h,
        )
      ];
      cause = λ v. elim (raised v).cause [
        | inl e ↦ elim (b.cause v) [
          | inl z ↦ inl (omega (arith, e, z))
          | inr (a, edge, h, f) ↦
              inr (
                a,
                edge,
                λ m. h (Memᴰ.tail m),
                omega (arith, e, f, settled a (λ m. h (Memᴰ.tail m))),
              )
        ]
        | inr (m, e) ↦ inr (u, (out_iff u v).0 m, order.0, omega (arith, e, settled u order.0))
      ];
      closed = λ a v edge m. elim (Memᴰ.cases_cons (b.closed a v edge (Memᴰ.tail m))) [
        | inl same ↦ absurd (order.1 a (Memᴰ.tail m) (subst (λ x. Memᴰ (a, x) es) same edge))
        | inr n ↦ n
      ];
      top = raise_all-IsTop (get_or d.at u 0) (out u) (seen u d) inside low (seen-IsTop u d b.top);
    }

  settle-Before :
      (todo : List ℕ) (d : Depths) → IsOrder es todo → Before todo d → Before [] (settle out todo d)
  unfolding settle
  settle-Before [] d order b = b
  settle-Before (u ∷ us) d order b =
      settle-Before us (round u d) order.2 (round-Before u us d order b)

  longest_below : (d : Depths) → Before [] d → {j v : ℕ} → PathTo es j v → j ≤ get_or d.at v 0
  longest_below d b stop = omega arith
  longest_below d b (extend {u = u} {v = v} path edge) =
      omega (arith, longest_below d b path, b.finished u v edge Memᴰ.not-nil)

  longest_path : (d : Depths) → Before [] d → (k v : ℕ) → get_or d.at v 0 ≡ k → PathTo es k v
  longest_path d b zero v e = stop
  longest_path d b (suc k) v e = elim (b.cause v) [
    | inl z ↦ absurd (omega arith)
    | inr (u, edge, h, f) ↦ extend (longest_path d b k u (omega arith)) edge
  ]

  abbrev pub unset : Depths
  unset = record { at = replicate n 0; top = 0 }

  unset_depth : (m v : ℕ) → get_or {A = ℕ} (replicate m 0) v 0 ≡ 0
  unset_depth zero v = refl
  unset_depth (suc m) zero = refl
  unset_depth (suc m) (suc v) = unset_depth m v

  unset-Before :
      (order : List ℕ)
      → length order ≤ n
      → ((v : ℕ) → v < n → Memᴰ v order)
      → ((u v : ℕ) → Memᴰ (u, v) es → u < n)
      → Before order unset
  unset-Before order short all starts = record {
    size = length-replicate n 0;
    room = λ v. omega (arith, unset_depth n v);
    finished = λ u v edge h. absurd (h (all u (starts u v edge)));
    cause = λ v. inl (unset_depth n v);
    closed = λ u v edge m. all v (ends u v edge);
    top = record { above = λ v. omega (arith, unset_depth n v); reached = inl refl };
  }

  -- Over an order of all `n` vertices, the pass from depth 0 computes the lengths of the longest
  -- paths and their maximum.
  pub settle-IsLongest :
      (order : List ℕ)
      → IsOrder es order
      → length order ≤ n
      → ((v : ℕ) → v < n → Memᴰ v order)
      → ((u v : ℕ) → Memᴰ (u, v) es → u < n)
      → ((v : ℕ) → IsLongest es v (get_or (settle out order unset).at v 0))
        × IsTop (settle out order unset)
  settle-IsLongest order h short all starts =
      let b = settle-Before order unset h (unset-Before order short all starts) in
      let d = settle out order unset in
      (λ v. (longest_path d b (get_or d.at v 0) v refl, λ j path. longest_below d b path), b.top)
