-- ===== src/AvlTree/Shape.antt =====
-- What the two cached fields of a node stand for, and the balance of the tree.
use radix_os.Base.{
  ℕ, suc, ◌+◌, ◌-◌, ◌%◌, ◌^◌, ◌≤◌, ◌<◌, max, ◌≡◌, refl, List, [], ◌∷◌, ◌++◌, arith, length,
  length-append,
}
use radix_os.AvlTree.{
  Node, Tree, leaf, node, get_node_height, get_node_max, get_node_balance, refresh, areas,
}

abbrev pub depth : Tree → ℕ
depth leaf = 0
depth (node l n r) = suc (max (depth l) (depth r))

-- the highest end address of a tree
abbrev pub high : Tree → ℕ
high leaf = 0
high (node l n r) = max n.area.end_addr (max (high l) (high r))

-- the addresses of the nodes, in order
abbrev pub addresses : Tree → List ℕ
addresses leaf = []
addresses (node l n r) = addresses l ++ (n.ptr ∷ addresses r)

-- every node holds the depth and the highest end address of its tree
abbrev pub IsCached : Tree → Type 0
IsCached leaf = Unit
IsCached (node l n r) =
    IsCached l
    × IsCached r
    × (n.height ≡ suc (max (depth l) (depth r)))
    × (n.max_addr ≡ max n.area.end_addr (max (high l) (high r)))

abbrev pub IsBalanced : Tree → Type 0
IsBalanced leaf = Unit
IsBalanced (node l n r) =
    IsBalanced l × IsBalanced r × (depth l ≤ depth r + 1) × (depth r ≤ depth l + 1)

pub depth-le-length : (t : Tree) → depth t ≤ length (areas t)
depth-le-length leaf = omega arith
depth-le-length (node l n r) =
    omega
      (arith, depth-le-length l, depth-le-length r, length-append {0} (areas l) (n.area ∷ areas r))

pub height-eq-depth : (t : Tree) → IsCached t → get_node_height t ≡ depth t
unfolding get_node_height
height-eq-depth leaf c = refl
height-eq-depth (node l n r) c = c.2

pub max-eq-high : (t : Tree) → IsCached t → get_node_max t ≡ high t
unfolding get_node_max
max-eq-high leaf c = refl
max-eq-high (node l n r) c = c.3

-- The tree that `refresh` makes, spelled with the values that it caches.
abbrev pub fresh : Tree → Node → Tree → Tree
fresh l n r =
    node l
      (record n {
        height = suc (max (depth l) (depth r));
        max_addr = max n.area.end_addr (max (high l) (high r));
      })
      r

pub refresh-fresh :
    (l : Tree) (n : Node) (r : Tree)
    → IsCached l
    → IsCached r
    → depth l < 2 ^ 31
    → depth r < 2 ^ 31
    → refresh l n r ≡ fresh l n r
unfolding refresh
refresh-fresh l n r cl cr hl hr =
    ground (arith, height-eq-depth l cl, height-eq-depth r cr, max-eq-high l cl, max-eq-high r cr)

pub balance-fresh :
    (l : Tree) (n : Node) (r : Tree)
    → IsCached l
    → IsCached r
    → get_node_balance (node l n r) ≡ (depth l + 2 ^ 32 - depth r) % 2 ^ 32
unfolding get_node_balance
balance-fresh l n r cl cr = ground (arith, height-eq-depth l cl, height-eq-depth r cr)
