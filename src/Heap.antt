-- ===== src/Heap.antt =====
-- OFTonSGX/trusted/lib/heap.c and heap.h: the max-heap of `struct heap_node` pointers that holds
-- eviction groups and the rules of a group. A node is a number, its address. The record has the
-- heap's own fields and the two fields of every node, `idx` and `priority`, as memories. The array
-- is 1-based, as in the source. A loop takes its number of rounds as fuel: `float_up` halves the
-- index, so the index is enough; `float_down` at least doubles it, so `n + 1` is enough.
pub mod Order
pub mod FloatUp
pub mod FloatDown
pub mod FloatUpOrDown
pub mod Insert
pub mod Remove
pub mod Change
pub mod Rebuild
mod Examples
use ovs_sgx.Prelude.{
  ℕ, zero, suc, ◌+◌, ◌-◌, ◌*◌, ◌/◌, Bool, true, false, ◌&&◌, ltb, leb, ◌==◌, if◌then◌else◌, update,
}

pub record Heap : Type 0 where
  pub array : ℕ → ℕ
  pub n : ℕ
  pub allocated : ℕ
  pub idx : ℕ → ℕ
  pub priority : ℕ → ℕ

-- The priority of the node at position `i`.
abbrev pub key : Heap → ℕ → ℕ
key h i = h.priority (h.array i)

unfoldable pub heap_init : Heap → Heap
heap_init h = record h { array = λ _. 0; n = 0; allocated = 0 }

unfoldable pub heap_count : Heap → ℕ
heap_count h = h.n

unfoldable pub heap_is_empty : Heap → Bool
heap_is_empty h = h.n == 0

unfoldable pub heap_max : Heap → ℕ
heap_max h = h.array 1

-- `heap_pop_ovs` takes the last node of the array, whatever its priority.
unfoldable pub heap_pop : Heap → ℕ × Heap
heap_pop h = (h.array h.n, record h { n = h.n - 1 })

unfoldable pub put_node : Heap → ℕ → ℕ → Heap
put_node h node i = record h { array = update h.array i node; idx = update h.idx node i }

unfoldable pub swap_nodes : Heap → ℕ → ℕ → Heap
unfolding put_node
swap_nodes h i j =
    let old_i = h.array i in let old_j = h.array j in put_node (put_node h old_j i) old_i j

-- `float_up_ovs`: the heap and whether a node moved.
pub float_up_loop : ℕ → Heap → ℕ → Bool → Heap × Bool
float_up_loop zero h i moved = (h, moved)
float_up_loop (suc fuel) h i moved =
    let parent = i / 2 in
    let rest = float_up_loop fuel (swap_nodes h parent i) parent true in
    if ltb 1 i then (if leb (key h i) (key h parent) then (h, moved) else rest) else (h, moved)

unfoldable pub float_up : Heap → ℕ → Heap × Bool
unfolding float_up_loop swap_nodes
float_up h i = float_up_loop i h i false

-- The child, or `i` itself, that the body of `float_down_ovs` selects.
unfoldable pub max_child : Heap → ℕ → ℕ
max_child h i =
    let left = i * 2 in
    let right = i * 2 + 1 in
    let m = if ltb (key h i) (key h left) then left else i in
    if leb right h.n && ltb (key h m) (key h right) then right else m

pub float_down_loop : ℕ → Heap → ℕ → Heap
float_down_loop zero h i = h
float_down_loop (suc fuel) h i =
    let m = max_child h i in
    let rest = float_down_loop fuel (swap_nodes h m i) m in
    if ltb h.n (i * 2) then h else if m == i then h else rest

unfoldable pub float_down : Heap → ℕ → Heap
unfolding float_down_loop max_child swap_nodes
float_down h i = float_down_loop (h.n + 1) h i

unfoldable pub float_up_or_down : Heap → ℕ → Heap
unfolding float_up float_down
float_up_or_down h i = let (g, moved) = float_up h i in if moved then g else float_down g i

unfoldable pub heap_raw_insert : Heap → ℕ → ℕ → Heap
unfolding put_node
heap_raw_insert h node priority =
    let room = if leb h.allocated h.n then (if h.n == 0 then 1 else 2 * h.n) else h.allocated in
    let g = put_node (record h { allocated = room; n = h.n + 1 }) node (h.n + 1) in
    record g { priority = update g.priority node priority }

unfoldable pub heap_insert : Heap → ℕ → ℕ → Heap
unfolding heap_raw_insert float_up
heap_insert h node priority = let g = heap_raw_insert h node priority in (float_up g (g.idx node)).0

unfoldable pub heap_raw_remove : Heap → ℕ → Heap
unfolding put_node
heap_raw_remove h node =
    let i = h.idx node in
    let g = if ltb i h.n then put_node h (h.array h.n) i else h in record g { n = g.n - 1 }

unfoldable pub heap_remove : Heap → ℕ → Heap
unfolding heap_raw_remove float_up_or_down
heap_remove h node =
    let i = h.idx node in
    let g = heap_raw_remove h node in if leb i g.n then float_up_or_down g i else g

unfoldable pub heap_raw_change : Heap → ℕ → ℕ → Heap
heap_raw_change h node priority = record h { priority = update h.priority node priority }

unfoldable pub heap_change : Heap → ℕ → ℕ → Heap
unfolding heap_raw_change float_up_or_down
heap_change h node priority =
    let g = heap_raw_change h node priority in float_up_or_down g (g.idx node)

-- `heap_rebuild_ovs` counts `i` down from `n / 2` to 1.
unfoldable pub heap_rebuild_from : ℕ → Heap → Heap
heap_rebuild_from zero h = h
heap_rebuild_from (suc i) h = heap_rebuild_from i (float_down h (suc i))

unfoldable pub heap_rebuild : Heap → Heap
unfolding heap_rebuild_from float_down
heap_rebuild h = heap_rebuild_from (h.n / 2) h
