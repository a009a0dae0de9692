-- ===== src/Lib.antt =====
-- A verification of the core of StepMesh: communication between attention workers and servers over
-- a parameter-server protocol.
--
-- The parts and how they interact:
-- * `Message` has the data that nodes exchange (include/ps/internal/message.h); `Wire` packs a
--   message's meta into a buffer and reads it back, as `Van::PackMeta` and `Van::UnpackMeta` do
--   (src/van.cc, src/meta.h).
-- * `ThreadsafeQueue` is the lock-free queue between the threads of a node
--   (include/ps/internal/threadsafe_queue.h), one shared access a step.
-- * `Postoffice` (src/postoffice.cc, include/ps/internal/postoffice.h) keeps the ids and groups of
--   nodes, the customers, barriers, key ranges and heartbeats of a node. `Van` (src/van.cc) is the
--   scheduler's side of the barriers, and hands the answers to `Postoffice.Barrier`;
--   `Van.Registration` and `Van.AddNode` give the nodes their ids, in the order of `Van.Order`;
--   `Van.Dispatch` is what a node makes of each message that it receives, with `Resender` before it.
-- * `Customer` (src/customer.cc) counts the responses of each request; `Resender` (src/resender.h)
--   keeps messages until they are acknowledged and drops duplicates.
-- * `SArray` is the array of keys and values with its memory (include/ps/sarray.h).
-- * `Slicer` cuts the keys of a request for the servers' key ranges, which `Postoffice.KeyRanges`
--   makes. `KvWorker` sends the slices of a push or a pull, keeps what the servers answer and puts it
--   together in the arrays of the user; `KvServer` is what a server hands to its handle and sends
--   back, with the default handle (include/ps/kv_app.h).
-- * `SimpleApp` sends a number and a text and answers it (include/ps/simple_app.h).
-- * `Tensor` (include/ps/af_tensor_app.h) is the application: a worker sends a batch of tensors to
--   push and to pull, and the server puts it together again; `Tensor.Handlers` waits for a batch, and
--   `Tensor.Register` registers a tensor in chunks, one for each worker, through `KvServer.Handle`.
--   `Tensor.Parts` and `Tensor.Arrival` follow a batch from the worker's call to the server's handle.
-- `Prelude` has the shared names: lists, maps, integers and a result type over the native numbers,
-- sorting, and the window of a ring buffer.
--
-- State is passed explicitly: a record per component, and a function per operation from the state to
-- the state after it and what it sends. A check that stops the process is `fatal` in `Result`. Loops
-- are recursion on their list or on the rounds left. Threads of `ThreadsafeQueue` are interleaved by any list of actors. Ids,
-- counts and timestamps are natural numbers, and no number overflows but where a
-- modulus is written.
--
-- Not modelled: the transports (RDMA, libfabric, UCX, ZeroMQ), the devices and their events, traces,
-- logging and text, the Python extension, copies of other projects (dmlc, emhash8, rigtorp's SPSCQueue), and, in the
-- parts above, what their files name.
pub mod Prelude
pub mod Message
pub mod Wire
pub mod ThreadsafeQueue
pub mod Postoffice
pub mod SArray
pub mod Slicer
pub mod Resender
pub mod Van
pub mod Customer
pub mod SimpleApp
pub mod KvWorker
pub mod KvServer
pub mod Tensor
