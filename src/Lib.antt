-- ===== src/Lib.antt =====
-- Faasm runs WebAssembly functions in isolated memories. This library models the parts of it that
-- carry its own logic, and proves what makes each of them correct.
--
-- - Uffd.antt: ranges of memory that are populated on page faults
--   (include/wasm/UffdMemoryArenaManager.h, src/wasm/UffdMemoryArenaManager.cpp), and the hooks that
--   the WAVM runtime calls to allocate, commit and free pages (src/wavm/WAVMWasmModule.cpp). A
--   `UffdMemoryRange` is the record Range, its `flat_map` of permissions a sorted list of pairs; the
--   manager's set is a list sorted by start (Uffd/Arena). Every member function is a definition of
--   the same name. The fault handler (Uffd/Faults) gives back what it asks of userfaultfd.
-- - Memory.antt: the linear memory of a module (src/wasm/WasmModule.cpp, with the hooks of
--   src/wavm/WAVMWasmModule.cpp, and `__sbrk` of src/wavm/memory.cpp), over a record Runtime of what
--   the WAVM runtime offers, whose documented behaviour is the record Laws (Memory/Sizes); the
--   thread stacks and their guard regions (Memory/Stacks).
-- - OpenMp.antt: OpenMP levels and teams (src/threads/ThreadState.cpp, src/wavm/openmp.cpp), static
--   scheduling of loops (OpenMp/StaticInit) and the bytes in which a level travels to other hosts
--   (OpenMp/Serial). Threads run on the stacks of Memory/Stacks.
-- - Pthreads.antt: the queue of thread calls of a module and the await that runs it
--   (src/wasm/WasmModule.cpp), with the calls of src/wavm/threads.cpp over them: create, join and
--   the futex. Pthreads/Mutexes has the mutexes. The executor that runs a batch is an argument.
-- - Isolation.antt: the pool of network namespaces (src/system/NetworkNamespace.cpp), and how the
--   threads of a Faaslet claim and give back a namespace (src/faaslet/Faaslet.cpp).
-- - Dynamic.antt: dynamic modules, their handles and their layout in the memory of Memory.antt
--   (src/wavm/WAVMWasmModule.cpp, src/wavm/LoadedDynamicModule.cpp), and the global offset table
--   through which they share functions and globals (Dynamic/Got, Dynamic/Pointers).
-- - Ceph.antt: messages over a socket (include/cephclass/cephcomm.h), whose partial sends and
--   reads are a list of answers that the loops of Ceph/Socket go through, and the object class that
--   serves the runtime's reads and writes (src/cephclass/cephclass.cpp), as a loop over what arrives
--   (Ceph/Session).
-- - Files.antt: the directory iterator, the table of file descriptors and opens
--   (src/storage/FileDescriptor.cpp, src/storage/FileSystem.cpp), the other operations of a
--   descriptor over a record System of calls (Files/Operations), a caller that reads a directory to
--   its end (Files/Reading), opens below a directory (Files/Rights, Files/ReadOnly), and the cache
--   of shared files (src/storage/SharedFiles.cpp).
-- - Loader.antt: the file loader (src/storage/FileLoader.cpp), a store of bytes by key with copies
--   in the local files; its keys and paths are in Loader/Paths, the kinds of files in
--   Loader/Functions, and the cache of shared files over it in Loader/Sharing.
-- - Caches.antt: the cache of intermediate and compiled modules (src/wavm/IRModuleCache.cpp) over
--   the loader, its state the record World with the three maps as functions of the key, and the
--   cache of bound modules over it (src/wavm/WAVMModuleCache.cpp, Caches/Functions) with the binding
--   of a main module (src/wavm/WAVMWasmModule.cpp). A vector is read behind its end in the outcome
--   `undefined`.
-- - Wasi.antt: the WASI calls of src/wavm/io.cpp over the table of descriptors and the operations
--   of Files, with a log of what they write to the memory of the program; the captured output and
--   its place in the output of a task (src/wasm/WasmModule.cpp, Wasi/Output).
-- - Environment.antt: the arguments and the environment of a program, and the arrays in which it reads
--   them (src/wasm/WasmEnvironment.cpp, src/wasm/WasmModule.cpp, src/wavm/env.cpp,
--   `writeStringArrayToMemory` of src/wavm/WAVMWasmModule.cpp), over a memory of bytes.
-- - Ndp.antt: the endpoint that takes near-data calls (src/wasm/ndp_endpoint.cpp), its state the free
--   slots of the scheduler and the map of sockets; it answers what the object class of Ceph asks.
-- - Examples.antt: the theorems with a hypothesis, at concrete inputs.
--
-- Numbers are natural. Words of 32 bits are numbers below 2^32 with the wrap-around written out
-- (Prelude/Words), signed ones in two's complement. An exception is an `err`, beside the state that
-- it leaves where it may have changed. Locks are not modelled: each operation is one step.
--
-- Three loops run on fuel. `grow_stacks` of Memory/Stacks gets one round for each missing stack,
-- and `copy_loop` of Files/Dirents one for each entry and one more, as does `read_all` of
-- Files/Reading, which stands for a program that calls again until a buffer is not full; the
-- theorems about them show that this is enough.
--
-- Not modelled: system calls, the WAVM and WAMR runtimes, faabric, rados, flatbuffers and the path
-- of boost, which are arguments; "." and ".." inside a path, which is compared as text; 64-bit loops
-- of `for_static_init`; the enclave, the upload server, code generation, opening and polling
-- sockets, the runners, the calls of the program that only pass arguments on, and the intrinsics
-- that are not implemented and throw.
pub mod Prelude
pub mod Uffd
pub mod Memory
pub mod OpenMp
pub mod Pthreads
pub mod Isolation
pub mod Dynamic
pub mod Files
pub mod Loader
pub mod Caches
pub mod Wasi
pub mod Environment
pub mod Ceph
pub mod Ndp
pub mod Examples
