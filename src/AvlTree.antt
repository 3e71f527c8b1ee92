-- ===== src/AvlTree.antt =====
-- kernel/vm_contract.c, the private functions: an AVL tree of areas that is searched as an interval
-- tree. A subtree is owned by its parent, so the C code's trees of pointers are values
-- here, each node keeping the address that `heap_alloc` gave it. `none` is a null dereference.
pub mod Shape
pub mod Cells
pub mod Insert
pub mod Search
pub mod Remove
pub mod BadBranch
pub mod Rejoin
pub mod Areas
pub mod Rebalance
pub mod Rotate
use radix_os.Base.{
  ℕ, ◌+◌, ◌-◌, ◌%◌, ◌^◌, max, compare, Ordering, Bool, true, ◌&&◌, Option, none, some, ltb, leb,
  if◌then◌else◌, ◌>>=◌, not, ◌||◌, false, List, [], ◌∷◌, ◌++◌,
}
use radix_os.VmArea.{VmArea, vm_area_intersect}

-- the fields of `vm_area_node_t` but for its children, and the node's address
pub record Node : Type 0 where
  pub ptr : ℕ
  pub height : ℕ
  pub max_addr : ℕ
  pub area : VmArea

-- `vm_area_node_t*`: null, or a node between its children
pub data Tree : Type 0 where
  leaf : Tree
  node : Tree → Node → Tree → Tree

abbrev pub key_of : Node → ℕ
key_of n = n.area.start_addr

unfoldable pub get_node_height : Tree → ℕ
get_node_height leaf = 0
get_node_height (node l n r) = n.height

unfoldable pub get_node_max : Tree → ℕ
get_node_max leaf = 0
get_node_max (node l n r) = n.max_addr

-- an `int`, as its 32-bit pattern
unfoldable pub get_node_balance : Tree → ℕ
unfolding get_node_height
get_node_balance leaf = 0
get_node_balance (node l n r) = (get_node_height l + 2 ^ 32 - get_node_height r) % 2 ^ 32

-- `balance > 1`, `balance < -1`, `balance >= 0` and `balance <= 0` on such a pattern
abbrev pub above_one : ℕ → Bool
above_one w = ltb 1 w && ltb w (2 ^ 31)

abbrev pub below_minus_one : ℕ → Bool
below_minus_one w = leb (2 ^ 31) w && ltb w (2 ^ 32 - 1)

abbrev pub not_negative : ℕ → Bool
not_negative w = ltb w (2 ^ 31)

abbrev pub not_positive : ℕ → Bool
not_positive w = if leb w 0 then true else leb (2 ^ 31) w

unfoldable pub get_node_min_value : Tree → Option Node
get_node_min_value leaf = none
get_node_min_value (node leaf n r) = some n
get_node_min_value (node (node a m b) n r) = get_node_min_value (node a m b)

-- The two assignments to `height` and `max` that follow each change of a node's children.
unfoldable pub refresh : Tree → Node → Tree → Tree
unfolding get_node_height get_node_max
refresh l n r =
    node l
      (record n {
        height = (max (get_node_height l) (get_node_height r) + 1) % 2 ^ 32;
        max_addr = max n.area.end_addr (max (get_node_max l) (get_node_max r));
      })
      r

unfoldable pub avl_rotate_right : Tree → Option Tree
avl_rotate_right leaf = none
avl_rotate_right (node leaf n r) = none
avl_rotate_right (node (node a x t2) n r) = some (refresh a x (refresh t2 n r))

unfoldable pub avl_rotate_left : Tree → Option Tree
avl_rotate_left leaf = none
avl_rotate_left (node l n leaf) = none
avl_rotate_left (node l n (node t2 y b)) = some (refresh (refresh l n t2) y b)

-- `t->area.start_addr`
unfoldable pub start_of : Tree → Option ℕ
start_of leaf = none
start_of (node l n r) = some (key_of n)

-- `t->left = l` and `t->right = r`, with the tree `t` refreshed before
unfoldable pub set_left : Tree → Tree → Tree
set_left leaf l = leaf
set_left (node _ n r) l = node l n r

unfoldable pub set_right : Tree → Tree → Tree
set_right leaf r = leaf
set_right (node l n _) r = node l n r

-- The end of `avl_insert`, from the recomputed height on. `balance > 1` and `balance < -1` exclude
-- one another, so its four tests are grouped by them.
unfoldable pub rebalance_insert : ℕ → Tree → Node → Tree → Option Tree
unfolding start_of set_left set_right
rebalance_insert key l n r =
    let t = refresh l n r in
    let balance = get_node_balance t in
    if above_one balance
    then (start_of l >>= λ k.
        if ltb key k
        then avl_rotate_right t
        else if ltb k key
        then (avl_rotate_left l >>= λ l'. avl_rotate_right (set_left t l'))
        else some t)
    else if below_minus_one balance
    then (start_of r >>= λ k.
        if ltb k key
        then avl_rotate_left t
        else if ltb key k
        then (avl_rotate_right r >>= λ r'. avl_rotate_left (set_right t r'))
        else some t)
    else some t

-- `ins` is a node as `vm_area_node_create` makes it, with no children.
unfoldable pub avl_insert : Tree → Node → Option Tree
avl_insert leaf ins = some (node leaf ins leaf)
avl_insert (node l n r) ins = elim (compare (key_of ins) (key_of n)) [
  | Ordering.lt ↦ avl_insert l ins >>= λ l'. rebalance_insert (key_of ins) l' n r
  | Ordering.gt ↦ avl_insert r ins >>= λ r'. rebalance_insert (key_of ins) l n r'
  | Ordering.eq ↦ some (node l n r)
]

-- The end of `avl_remove`, from the recomputed height on, its tests grouped in the same way. The
-- last case is the code's: it rotates and returns the left child, not the node.
unfoldable pub rebalance_remove : Tree → Node → Tree → Option Tree
unfolding set_left set_right
rebalance_remove l n r =
    let t = refresh l n r in
    let balance = get_node_balance t in
    if above_one balance
    then if not_negative (get_node_balance l)
      then avl_rotate_right t
      else (avl_rotate_left l >>= λ l'. avl_rotate_right (set_left t l'))
    else if below_minus_one balance
    then if not_positive (get_node_balance r)
      then avl_rotate_left t
      else (avl_rotate_right r >>= λ r'. avl_rotate_left l)
    else some t

abbrev pub is_null : Tree → Bool
is_null leaf = true
is_null (node l n r) = false

-- The node `n` has the one child `child`: their contents are swapped, so that the child's contents
-- stand at the address of `n`, and the child's address is what is removed.
unfoldable pub adopt : Node → Tree → Option (Tree × Option Node)
adopt n leaf = none
adopt n (node a m b) = rebalance_remove a (record m { ptr = n.ptr }) b >>= λ t.
    some (t, some (record n { ptr = m.ptr }))

-- The new tree and `*removed_node`, `none` where the code leaves that alone. A node with two
-- children takes over the area of its successor, which is removed in its place.
unfoldable pub avl_remove : Tree → VmArea → Option (Tree × Option Node)
avl_remove leaf a = some (leaf, none)
avl_remove (node l n r) a = elim (compare a.start_addr (key_of n)) [
  | Ordering.lt ↦ avl_remove l a >>= λ (l', out). rebalance_remove l' n r >>= λ t. some (t, out)
  | Ordering.gt ↦ avl_remove r a >>= λ (r', out). rebalance_remove l n r' >>= λ t. some (t, out)
  | Ordering.eq ↦
      let two_children = get_node_min_value r >>= λ m. avl_remove r m.area >>= λ (r', out).
      out >>= λ removed. rebalance_remove l (record n { area = m.area }) r' >>= λ t.
      some (t, some (record removed { area = n.area })) in
      if is_null l && is_null r
      then some (leaf, some n)
      else if is_null l || is_null r
      then adopt n (if is_null l then r else l)
      else two_children
]

unfoldable pub interval_intersect : Tree → VmArea → Option Node
interval_intersect leaf a = none
interval_intersect (node l n r) a =
    let in_left = interval_intersect l a in
    let in_right = interval_intersect r a in
    if vm_area_intersect n.area a
    then some n
    else if not (is_null l) && leb a.start_addr (get_node_max l)
    then in_left
    else in_right

-- The areas that `vm_contract_print_rec` hands to `vm_area_print`, in this order.
abbrev pub areas : Tree → List VmArea
areas leaf = []
areas (node l n r) = areas l ++ (n.area ∷ areas r)
