-- ===== src/AvlTree/Cells.antt =====
-- What a tree holds, in order: an address and an area for each node. And the sorted list that
-- `avl_insert` and `avl_remove` keep.
use radix_os.Base.{All-middle, ℕ, ◌<◌, ◌≡◌, compare, Ordering, List, [], ◌∷◌, ◌++◌, arith, All}
use radix_os.VmArea.{VmArea}
use radix_os.AvlTree.{Node, Tree, leaf, node}

abbrev pub Cell : Type 0
Cell = ℕ × VmArea

abbrev pub cell_of : Node → Cell
cell_of n = (n.ptr, n.area)

abbrev pub key : Cell → ℕ
key c = c.1.start_addr

abbrev pub cells : Tree → List Cell
cells leaf = []
cells (node l n r) = cells l ++ (cell_of n ∷ cells r)

-- strictly, by start address
abbrev pub IsSorted : List Cell → Type 0
IsSorted [] = Unit
IsSorted (c ∷ cs) = All (λ d. key c < key d) cs × IsSorted cs

-- `c` put at its place, unless its start address is there already
unfoldable pub insert_cell : Cell → List Cell → List Cell
insert_cell c [] = c ∷ []
insert_cell c (d ∷ ds) = elim (compare (key c) (key d)) [
  | Ordering.lt ↦ c ∷ d ∷ ds
  | Ordering.eq ↦ d ∷ ds
  | Ordering.gt ↦ d ∷ insert_cell c ds
]

-- the cells but those that start at `k`
unfoldable pub erase_cell : ℕ → List Cell → List Cell
erase_cell k [] = []
erase_cell k (d ∷ ds) = elim (compare k (key d)) [
  | Ordering.eq ↦ erase_cell k ds
  | _ ↦ d ∷ erase_cell k ds
]

-- A sorted list with `d` in its midst, taken apart.
pub record Split (xs : List Cell) (d : Cell) (ys : List Cell) : Type 0 where
  pub left : IsSorted xs
  pub below : All (λ c. key c < key d) xs
  pub above : All (λ c. key d < key c) ys
  pub right : IsSorted ys

pub IsSorted-Split :
    (xs : List Cell) (d : Cell) (ys : List Cell) → IsSorted (xs ++ (d ∷ ys)) → Split xs d ys
IsSorted-Split [] d ys h = record { left = tt; below = tt; above = h.0; right = h.1 }
IsSorted-Split (x ∷ xs) d ys h =
    let (l, m, r) = All-middle (λ c. key x < key c) xs d ys h.0 in
    let rest = IsSorted-Split xs d ys h.1 in
    record {
      left = (l, rest.left);
      below = (m, rest.below);
      above = rest.above;
      right = rest.right;
    }

pub insert_cell-left :
    (c : Cell) (xs : List Cell) (d : Cell) (ys : List Cell)
    → key c < key d
    → insert_cell c (xs ++ (d ∷ ys)) ≡ insert_cell c xs ++ (d ∷ ys)
unfolding insert_cell
insert_cell-left c [] d ys h = ground arith
insert_cell-left c (x ∷ xs) d ys h = ground (arith, insert_cell-left c xs d ys h)

pub insert_cell-right :
    (c : Cell) (xs : List Cell) (d : Cell) (ys : List Cell)
    → All (λ x. key x < key d) xs
    → key d < key c
    → insert_cell c (xs ++ (d ∷ ys)) ≡ xs ++ (d ∷ insert_cell c ys)
unfolding insert_cell
insert_cell-right c [] d ys b h = ground arith
insert_cell-right c (x ∷ xs) d ys b h = ground (arith, insert_cell-right c xs d ys b.1 h)

pub insert_cell-duplicate :
    (c : Cell) (xs : List Cell) (d : Cell) (ys : List Cell)
    → All (λ x. key x < key d) xs
    → key c ≡ key d
    → insert_cell c (xs ++ (d ∷ ys)) ≡ xs ++ (d ∷ ys)
unfolding insert_cell
insert_cell-duplicate c [] d ys b h = ground arith
insert_cell-duplicate c (x ∷ xs) d ys b h = ground (arith, insert_cell-duplicate c xs d ys b.1 h)

pub All-insert_cell :
    (P : Cell → Type 0) (c : Cell) (xs : List Cell) → P c → All P xs → All P (insert_cell c xs)
unfolding insert_cell
All-insert_cell P c [] p a = (p, tt)
All-insert_cell P c (x ∷ xs) p a = ground (arith, All-insert_cell P c xs p a.1)

All-lt : (k m : ℕ) (xs : List Cell) → k < m → All (λ d. m < key d) xs → All (λ d. k < key d) xs
All-lt k m [] h a = tt
All-lt k m (x ∷ xs) h a = (omega arith, All-lt k m xs h a.1)

pub insert_cell-IsSorted : (c : Cell) (xs : List Cell) → IsSorted xs → IsSorted (insert_cell c xs)
unfolding insert_cell
insert_cell-IsSorted c [] s = (tt, tt)
insert_cell-IsSorted c (x ∷ xs) s = ground (
  arith,
  insert_cell-IsSorted c xs s.1,
  All-lt (key c) (key x) xs,
  All-insert_cell (λ d. key x < key d) c xs,
)
