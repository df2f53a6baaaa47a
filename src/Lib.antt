-- ===== src/Lib.antt =====
-- A model of the bytecode layer of Lana, of the call frames, the allocation accounting and the
-- random numbers of its virtual machine, and of the durable store and the effects of its runtime,
-- with the theorems that make them correct.
--
-- A Lana program is compiled to a chunk: constants, function metadata and instructions. The crate
-- vm/rust/lana-bytecode writes a chunk as .labc bytes (encoder.rs), reads it back (loader.rs), and
-- checks it (verifier.rs, objects.rs) before the virtual machine of vm/rust/lana-vm runs it. The
-- loader ends with a call of the verifier.
--
-- Files and the code they model, paths from the repository's root:
--   Prelude/*: names shared by all modules; tests on numbers, lists measured by native numbers,
--     and `Result` with a third case for a Rust panic (an index out of range, a failed unwrap).
--   Bytecode/Opcode, Error, Chunk: opcode.rs, error.rs, value.rs and chunk.rs of
--     vm/rust/lana-bytecode/src. A number constant is the 64 bits of its float, a text its bytes.
--   Bytecode/Float: `state_make_complex` of verifier.rs. The IEEE operations are the record F64, a
--     parameter; the constants are given by their bits.
--   Bytecode/Check/Arms and Bytecode/Check: the match of `verify_instruction` in verifier.rs, one
--     clause per arm, in four runs. Check/Operands is an independent table of what each opcode's
--     operands must be, Check/Meets compares the two.
--   Bytecode/Objects/*: objects.rs. Text holds the string helpers and `qualified`, Descriptor the
--     parsing of object descriptors over the record Serde (serde_json, a parameter), Members the
--     pass over the descriptors, Access the pass over the function regions and instructions.
--     Declared, Regions and Entries hold proofs on these two passes.
--   Bytecode/Verifier: `verify` and `max_opcode_for_version` of verifier.rs.
--   Bytecode/Bytes and Bytecode/Encoder: encoder.rs. Bytecode/Loader/Read: the `Reader` of loader.rs
--     as a state-passing monad; Bytecode/Loader: `load`, over Utf8 (from_utf8 and from_utf8_lossy
--     of the standard library, of which only this is used: valid text decodes to itself).
--   Heap/State, Heap/Registry, Heap/Buffer: `State`, `Reservation`, `Heap` and `Buffer` of
--     vm/rust/lana-vm/src/heap.rs, on a heap without a collector and buffers without a write barrier.
--     Arithmetic on usize wraps at 2^64. Heap/World is the step relation of a heap and the
--     reservations its clients hold. A history is a list of steps under the heap's lock; `string` and
--     `cycle_slot_with_edges`, which take it twice, are also two steps, between which others run.
--     Heap/Balance, Heap/Upkeep, Heap/Slots and Heap/History hold the proofs;
--     Heap/Buffer/* those on buffers.
--   Vm/Registers and Vm/Frames: `instruction_max_register` and `compute_max_registers` of
--     vm/rust/lana-vm/src/vm.rs, which size the register file of each function. Registers/Operands,
--     Frames/Scan, Regions, Sizes, Rooms and Named hold the proofs, against the operand table of
--     Bytecode/Check/Operands.
--   Vm/Values, Vm/Machine, Vm/Execute, Vm/Dispatch: `Value` of value.rs, and of vm.rs the machine
--     and its frames, the arms of `execute` for the plain instructions (NOP, LOAD_CONST, MOVE,
--     LOAD_FUNCTION, the jumps, CALL, RETURN, HALT), `Vm::new`, `run`, `dispatch_loop` and `fail`.
--     Vm/Nested is `run_function_args`, the loop for a function run from inside an instruction.
--     The current frame is the first of the list. The other arms are an argument, `others`; the
--     sizes of a value and a history in memory are one, `slot`. What stands in front of the match
--     of `execute` (collections, the checks of version 6 and of path execution) has nothing to do in
--     a chunk of plain instructions below version 6, and is left out with the fields it reads, but for
--     the refusal of HALT in a callback of a dataset plan (`pure_callback_depth`). A machine that is
--     well formed is outside of such callbacks. Vm/Outcome, Vm/Stack and the child modules of
--     Execute, Dispatch and Nested hold the proofs.
--   Random: rng.rs of vm/rust/lana-vm/src; Random/Streams holds the proofs.
--   Runtime/Words: big-endian numbers and pieces of byte strings. Runtime/Digest: sha256.rs of
--     vm/rust/lana-vm/src, which the runtime passes on; Digest/Stream holds the proofs.
--   Runtime/Payload, Runtime/Store, Runtime/Journal: store.rs of runtime/rust/lana-runtime/src.
--     Payload has `build_payload`, `parse_payload` and `revision_digest`; Store the state, the index
--     (a list in key order), reading and `replay`; Journal staging, `store_commit`, the manifest and
--     opening. A disk (Disk) is the bytes of the journal file and the numbers of the manifest. The
--     system's part in a write is an argument: Write for the journal's file calls, with the
--     number of bytes that got through and whether the rollback did, and Replace for the atomic
--     replacement of the manifest. Their child modules hold the proofs: Payload/Parsing,
--     Building and Refused, Store/Lookup, Journal/Pieces, Records and Reading on the layout of a
--     record, Journal/Chain and Replay on whole journals, Journal/Durable, Writing, Commit and
--     Opening on what a store and its disk stand for, Journal/History on reading the past,
--     Journal/Rounds on the fuel of `replay`, Journal/Unreadable on keys with a NUL.
--   Runtime/Codec: `append_string` of codec.rs, and decimal numbers. Runtime/Effects: effects.rs of
--     the same crate, over the store. The clock, the executor, the outcomes of the writes and the
--     decoding of stored values are arguments. A run keeps the disk as it was when the executor was
--     called. Effects/Attempts, Calls, Repeated, Started and Once hold the proofs.
--
-- Bounds and fuel: `valid_type` recurses at most 33 times, the source's depth limit, which is the
-- fuel of the model. The loop of `update` runs on the number of bytes left, and `replay` on the
-- length of the file: each of their rounds takes a byte at least. `dispatch_loop` and the loop of
-- Vm/Nested run on one turn more than the instructions left to the limit. All other loops are
-- structural. Integers are native numbers with the source's casts written out (`% 2 ^ 32`); the
-- verifier's checked additions are compared in full.
--
-- Not modelled: the other instructions of the interpreter (vm.rs and its modules), with generators,
-- futures, tasks and path execution; tensors and state kernels (floating point), the cycle
-- collector, the assembler and disassembler, and of the host runtime under
-- runtime/rust/lana-runtime all but the store's journal and the life of an effect: the JSON codec
-- of values, so that the store's values are their bytes; snapshots and compaction, so that opening
-- is modelled for a disk without a snapshot; scans, the ledger, the evaluation of policies, rules
-- and datasets. Also the command line, file locks, paths and network I/O, generated tables, and the
-- compiler, which is written in Lana itself.
pub mod Prelude
pub mod Bytecode
pub mod Heap
pub mod Random
pub mod Runtime
pub mod Vm
