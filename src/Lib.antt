-- ===== src/Lib.antt =====
-- The enclave of OFTonSGX, which moves the OpenFlow tables of Open vSwitch into trusted memory.
--
-- The switch (OFTonSGX/ovs_modified) calls the enclave through the handlers (`ecall_*`) of
-- OFTonSGX/trusted. The enclave keeps, for each bridge, its tables and a map from the addresses of
-- the switch's rules to its own. A table has a classifier, which finds the rule for a packet, and
-- eviction groups, two levels of heaps from which a rule is chosen when the table is full.
--
-- - Heap: OFTonSGX/trusted/lib/heap.c and heap.h. A heap is its array, 1-based, with the `idx` and
--   `priority` of every node. The names are the source's without `_ovs`. The loops take fuel:
--   float_up the index, which it halves each round, and float_down `n + 1`, since the index at least
--   doubles.
-- - Hash: lib/hash.c, hash.h, sgx_htons.c and get_unaligned_u32 of util.h, on a little-endian machine,
--   with the wrap-around to 32 bits written out.
-- - Flow: lib/flow.c and flow.h. A flow is its words; the bitmap of a compressed flow is the list of
--   its bits. Flow.Masks has the operations on masks.
-- - Classifier: lib/classifier.c, classifier.h and match.c. A table's rules are chains of rules that
--   differ only in priority; Insert and Remove have classifier_replace and classifier_remove, Search
--   the lookups, Cursor the cursor. Invariant says what a well-formed classifier is; FindMatch, Lookup
--   and Highest follow classifier_lookup; ChainInsert, Twins, RulesInsert, Counts, Order, Moves, Replace
--   and Replaced follow classifier_replace.
-- - Enclave: the handlers. State is the state of one bridge, with the memory of trusted rules and
--   groups; Rules is cls_rule/cls-rule.c; Tables, Collect, Windows and FlowMods are oftable/oftable.c,
--   stats/stats.c, dpif/dpif.c and ofproto/ofproto.c; Eviction and Evict are eviction/eviction.c; Tags has
--   SGX_table_dpif and the tags of rules, Flush ecall_ofproto_flush. A handler that
--   changes state is a function from a bridge to its result and the new bridge, or `none` where the
--   source dereferences a null pointer. The walk over the matching tables takes `n + 1` rounds of
--   fuel, since each round moves on to a later table.
-- - Hotcall: the calls over shared memory of untrusted/hotcall-untrusted.c and
--   trusted/hotcall-trusted.c (of OFTonSGX). Calls has the shared data, get_fcall and
--   prepare_hotcall_function, by which the macros HCALL and ECALL of app.c fill a call; Threads
--   the steps of the switch's thread (make_hotcall) and of the enclave's (ecall_start_poller), one
--   access to shared memory each, except that a call is queued in one step; a schedule says whose step
--   comes next. Stages and Phases, Ring, Filled and Delivery, Leads, Service and Progress are the invariants and what follows. The
--   switch calls from one thread. The variant with TIMEOUT is left out.
-- - Memory: trusted/shared-memory-trusted.c and untrusted/shared-memory-untrusted.c. A page is known by
--   the number of its slot; what `malloc` returns is an argument.
-- - HashMap: trusted/lib/hmap.c and hmap.h over Memory. A chain is the list of the addresses of its
--   nodes; the contents of a map are what any count over its nodes gives.
-- - Cache: trusted/cache-trusted.c and untrusted/cache-untrusted.c over HashMap, and the checksum that
--   the enclave keeps of it. Run has the sequences of operations.
-- - Dispatch: the calls from untrusted/app.c to trusted/call-table.c. Rules, Compressed, Tables, Flows,
--   Evictions, Collections, Statistics and Bridges have the wrappers (`SGX_x` is `sgx_x`), each as the
--   pointers that its hot call passes and the arguments of its direct call; Invocations and Wrappers
--   list them. Cases has the cases of execute_function, each as the handler, the types through which it
--   takes its arguments and stores its result, and what it does to the flow cache. Rings has the rings
--   of scalars in which batched arguments wait, Execute a call from one side to the other. What a
--   wrapper's pointers lead to is not read: a pointer is an opaque number.
-- - Tls: the TLS client of TLSonSGX/trusted/enclave.c, which gets its key and certificates from a CA or
--   from sealed files (trusted/sealing/seal-ssl-resource.c). Keys has generate_keys, Trust and Restart
--   what follows of it, Sessions the calls in any order. mbedtls and SGX's sealing are the parameter
--   `Library`, and what the CA and the network answer is a `Session`. A call is `none` where the source
--   dereferences a null pointer, waits for ever, uses memory that was freed, writes past a buffer or
--   uses a length that was never returned.
--
-- Not modelled: allocation and freeing (an allocation always succeeds), linked lists, and the hash
-- maps below the classifier and the handlers (lists stand for both; that of the trusted rules keeps the
-- order that an expansion of the map gives to nodes of one hash), the handlers on VLAN sets, the group
-- hash of eviction.c (a parameter), the switch's side of TLSonSGX, and the modified copies of Open
-- vSwitch.
pub mod Prelude
pub mod Heap
pub mod Hash
pub mod Flow
pub mod Classifier
pub mod Enclave
pub mod Hotcall
pub mod Memory
pub mod HashMap
pub mod Cache
pub mod Dispatch
pub mod Tls
