-- ===== src/Dispatch/Rings.antt =====
-- The rings of scalars of OFTonSGX/untrusted/hotcall-untrusted.h, and the pointers to them that a
-- wrapper passes.
pub mod Kept
pub mod Written
use ovs_sgx.Prelude.{
  ℕ, suc, ◌==◌, Bool, true, false, ◌&&◌, List, [], ◌∷◌, ◌++◌, if◌then◌else◌, update,
}
use ovs_sgx.Dispatch.{
  Scalar, uint8, uint32, unsigned, heap_node, Passed, pointer, parameter, next_uint8, next_unsigned,
  next_uint32, next_heapnode, next_voidptr,
}

-- One of the rings, `uint8_ts` with `idx_uint8` and so on
pub record Ring : Type 0 where
  pub cells : ℕ → ℕ
  pub idx : ℕ

-- The rings of `struct preallocated_function_calls` that the wrappers use
pub record Scalars : Type 0 where
  pub uint8_ts : Ring
  pub unsigned_ts : Ring
  pub void_ts : Ring
  pub uint32_ts : Ring
  pub heap_node_ts : Ring

pub data RingName : Type 0 where
  uint8s : RingName
  unsigneds : RingName
  voids : RingName
  uint32s : RingName
  heap_nodes : RingName

unfoldable pub ring : RingName → Scalars → Ring
ring uint8s s = s.uint8_ts
ring unsigneds s = s.unsigned_ts
ring voids s = s.void_ts
ring uint32s s = s.uint32_ts
ring heap_nodes s = s.heap_node_ts

-- The slot that the next scalar goes to: `if (pfc.idx_uint8 == 20) pfc.idx_uint8 = 0`
abbrev pub slot_of : Ring → ℕ
slot_of r = if r.idx == 20 then 0 else r.idx

-- `next_uint8(x)` and the like, which return the address of the slot
unfoldable pub next : Ring → ℕ → Ring
next r x = record { cells = update r.cells (slot_of r) x; idx = suc (slot_of r) }

-- An entry of `args`
pub data Argument : Type 0 where
  local : (t : Scalar) (x : ℕ) → Argument
  slot : (k : RingName) (i : ℕ) → Argument
  address : (p : ℕ) → Argument

-- `async ? next_uint8(x) : &x` and the like
unfoldable pub pass : Bool → Passed → Scalars → Scalars × Argument
pass async (pointer p) s = (s, address p)
pass async (parameter t x) s = (s, local t x)
pass false (next_uint8 x) s = (s, local uint8 x)
pass true (next_uint8 x) s =
    (record s { uint8_ts = next s.uint8_ts x }, slot uint8s (slot_of s.uint8_ts))
pass false (next_unsigned x) s = (s, local unsigned x)
pass true (next_unsigned x) s =
    (record s { unsigned_ts = next s.unsigned_ts x }, slot unsigneds (slot_of s.unsigned_ts))
pass false (next_uint32 x) s = (s, local uint32 x)
pass true (next_uint32 x) s =
    (record s { uint32_ts = next s.uint32_ts x }, slot uint32s (slot_of s.uint32_ts))
pass false (next_heapnode x) s = (s, local heap_node x)
pass true (next_heapnode x) s =
    (record s { heap_node_ts = next s.heap_node_ts x }, slot heap_nodes (slot_of s.heap_node_ts))
pass false (next_voidptr p) s = (s, address p)
pass true (next_voidptr p) s = (record s { void_ts = next s.void_ts p }, address p)

-- `args[0] = ...; args[1] = ...;` and so on
unfoldable pub pass_all : Bool → List Passed → Scalars → Scalars × List Argument
pass_all async [] s = (s, [])
pass_all async (p ∷ ps) s =
    let (s', a) = pass async p s in let (s'', as') = pass_all async ps s' in (s'', a ∷ as')

-- What stands at an address: a scalar of a type, or what the caller pointed to itself.
pub data Cell : Type 0 where
  scalar : (t : Scalar) (x : ℕ) → Cell
  pointed : (p : ℕ) → Cell

unfoldable pub element_type : RingName → Scalar
element_type uint8s = uint8
element_type unsigneds = unsigned
element_type voids = Scalar.size
element_type uint32s = uint32
element_type heap_nodes = heap_node

unfoldable pub resolve : Scalars → Argument → Cell
resolve s (local t x) = scalar t x
resolve s (slot k i) = scalar (element_type k) ((ring k s).cells i)
resolve s (address p) = pointed p
