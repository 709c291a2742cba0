-- ===== src/Graph/Kinds.antt =====
-- The ids and types of a list of patcher nodes (apps/patcher_graph.cpp): what finding, erasing,
-- indexing and storing depths do to them.
use mathlib.Core.List.{Memᴰ}
use mathlib.Core.List.Memᴰ
use unidaw.Base.{
  ℕ, zero, suc, ◌+◌, ◌≤◌, ◌≡◌, ◌≢◌, refl, inl, inr, List, [], ◌∷◌, ◌++◌, map, length, get_or, set,
  ==_iff, ◌==◌, true, some, find_if, erase_at, pop_back, update_at, All, All-imp, get_or-set_self,
  get_or-set_ne, Bool-cases, Option-cases, arith, subst, ap, ap₂, sym, ◌∙◌,
}
use unidaw.Graph.{PatcherNode, PatcherNodeType}
use unidaw.Graph.Build.{invalid_node_index, index_nodes, store_depths}
use unidaw.Graph.Built.{index_nodes_step}
use unidaw.Graph.Edits.{find_node}

abbrev pub kind_of : PatcherNode → ℕ × PatcherNodeType
kind_of n = (n.id, n.type)

abbrev pub kinds : List PatcherNode → List (ℕ × PatcherNodeType)
kinds = map kind_of

-- No two with one id.
abbrev pub IsDistinct : List (ℕ × PatcherNodeType) → Type 0
IsDistinct [] = Unit
IsDistinct (k ∷ ks) = All (λ x. k.0 ≢ x.0) ks × IsDistinct ks

pub kinds-append : (xs ys : List PatcherNode) → kinds (xs ++ ys) ≡ kinds xs ++ kinds ys
kinds-append [] ys = refl
kinds-append (x ∷ xs) ys = ap (◌∷◌ (kind_of x)) (kinds-append xs ys)

pub kinds-store_depths :
    (ds : List ℕ) (i : ℕ) (xs : List PatcherNode) → kinds (store_depths ds i xs) ≡ kinds xs
kinds-store_depths ds i [] = refl
kinds-store_depths ds i (x ∷ xs) = ap (◌∷◌ (kind_of x)) (kinds-store_depths ds (suc i) xs)

pub kinds-pop_back : (xs : List PatcherNode) → kinds (pop_back xs) ≡ pop_back (kinds xs)
kinds-pop_back [] = refl
kinds-pop_back (x ∷ []) = refl
kinds-pop_back (x ∷ y ∷ ys) = ap (◌∷◌ (kind_of x)) (kinds-pop_back (y ∷ ys))

pub kinds-update_at :
    (xs : List PatcherNode) (i : ℕ) (f : PatcherNode → PatcherNode)
    → ((n : PatcherNode) → kind_of (f n) ≡ kind_of n)
    → kinds (update_at xs i f) ≡ kinds xs
kinds-update_at [] i f h = refl
kinds-update_at (x ∷ xs) zero f h = ap (λ k. k ∷ kinds xs) (h x)
kinds-update_at (x ∷ xs) (suc i) f h = ap (◌∷◌ (kind_of x)) (kinds-update_at xs i f h)

All-kinds-erase_at :
    (P : ℕ × PatcherNodeType → Type 0) (xs : List PatcherNode) (i : ℕ)
    → All P (kinds xs)
    → All P (kinds (erase_at xs i))
All-kinds-erase_at P [] i h = h
All-kinds-erase_at P (x ∷ xs) zero h = h.1
All-kinds-erase_at P (x ∷ xs) (suc i) h = (h.0, All-kinds-erase_at P xs i h.1)

pub erase_at-IsDistinct :
    (xs : List PatcherNode) (i : ℕ) → IsDistinct (kinds xs) → IsDistinct (kinds (erase_at xs i))
erase_at-IsDistinct [] i h = h
erase_at-IsDistinct (x ∷ xs) zero h = h.1
erase_at-IsDistinct (x ∷ xs) (suc i) h =
    (All-kinds-erase_at (λ k. x.id ≢ k.0) xs i h.0, erase_at-IsDistinct xs i h.1)

-- Erasing the node of one id keeps the others.
pub mem-erase_at :
    (xs : List PatcherNode) (i id k : ℕ) (t : PatcherNodeType)
    → find_if (λ n. n.id == id) xs ≡ some i
    → k ≢ id
    → Memᴰ (k, t) (kinds xs)
    → Memᴰ (k, t) (kinds (erase_at xs i))
mem-erase_at [] i id k t e ne m = absurd (Memᴰ.not-nil m)
mem-erase_at (x ∷ xs) i id k t e ne m =
    let goes = λ (j : ℕ) (q : j ≡ i) (n : Memᴰ (k, t) (kinds (erase_at (x ∷ xs) j))).
      subst (λ j. Memᴰ (k, t) (kinds (erase_at (x ∷ xs) j))) q n in
    elim (Bool-cases (x.id == id)) [
      | inl hit ↦ elim (Memᴰ.cases_cons m) [
        | inl q ↦ absurd (ne (ap (λ r. r.0) q ∙ (==_iff x.id id).0 hit))
        | inr r ↦ goes 0 (ground arith) r
      ]
      | inr miss ↦ elim (Option-cases (find_if (λ n. n.id == id) xs)) [
        | inl z ↦ ground arith
        | inr (j, f) ↦ goes (suc j) (ground arith) (elim (Memᴰ.cases_cons m) [
          | inl q ↦ Memᴰ.head q
          | inr r ↦ Memᴰ.tail (mem-erase_at xs j id k t f ne r)
        ])
      ]
    ]

found_first :
    (x : PatcherNode) (xs : List PatcherNode) (id : ℕ) {a : PatcherNode}
    → find_node (x ∷ xs) id ≡ some a
    → (x.id == id) ≡ true
    → a ≡ x
found_first x xs id e hit = ground arith

pub find_node-mem :
    (xs : List PatcherNode) (id : ℕ) {a : PatcherNode}
    → find_node xs id ≡ some a
    → Memᴰ (id, a.type) (kinds xs)
find_node-mem [] id e = cc
find_node-mem (x ∷ xs) id {a = a} e = elim (Bool-cases (x.id == id)) [
  | inl hit ↦ Memᴰ.head (
      ap₂ (λ i n. (i, n)) (sym ((==_iff x.id id).0 hit))
        (ap (λ n. n.type) (found_first x xs id e hit)))
  | inr miss ↦ elim (Option-cases (find_if (λ n. n.id == id) xs)) [
    | inl z ↦ ground arith
    | inr (j, f) ↦ Memᴰ.tail (find_node-mem xs id {a = a} (ground arith))
  ]
]

-- A table that was filled without a clash shows that the ids differ.
pub index_nodes-IsDistinct :
    (xs : List PatcherNode) (i : ℕ) (ids : List ℕ)
    → i + length xs ≤ 1024
    → (index_nodes xs i ids).0 ≡ true
    → IsDistinct (kinds xs)
      × All (λ k. get_or ids k.0 invalid_node_index ≡ invalid_node_index) (kinds xs)
index_nodes-IsDistinct [] i ids short ok = (tt, tt)
index_nodes-IsDistinct (x ∷ xs) i ids short ok =
    let step = index_nodes_step x xs i ids ok in
    let rest =
      index_nodes-IsDistinct xs (suc i) (set ids x.id i) (omega arith)
        (ap (λ r. r.0) (sym step.2) ∙ ok) in
    let own = get_or-set_self ids x.id i invalid_node_index step.0 in
    let clash =
      λ (k : ℕ × PatcherNodeType)
          (e : get_or (set ids x.id i) k.0 invalid_node_index ≡ invalid_node_index)
          (same : x.id ≡ k.0).
        absurd {A = ⊥}
          (omega (arith, own, e, ap (λ y. get_or (set ids x.id i) y invalid_node_index) same)) in
    let differs =
      All-imp (λ k. get_or (set ids x.id i) k.0 invalid_node_index ≡ invalid_node_index)
        (λ k. x.id ≢ k.0) (kinds xs) (λ k e same. clash k e same) rest.1 in
    (
      (differs, rest.0),
      (
        step.1,
        All-imp (λ k. get_or (set ids x.id i) k.0 invalid_node_index ≡ invalid_node_index)
            (λ k. get_or ids k.0 invalid_node_index ≡ invalid_node_index) (kinds xs)
            (λ k e. sym (get_or-set_ne ids i invalid_node_index (clash k e)) ∙ e) rest.1,
      ),
    )
