-- ===== src/Lib.antt =====
-- A model of the core of suscan, a signal analysis library, and what holds of it.
--
-- The program's parts. An analyzer runs in threads that talk through message queues
-- (analyzer/mq.c). A remote analyzer is reached by messages that a binary codec packs
-- (util/cbor.c, util/cbor.h) over growing buffers of the sigutils library. A server may also send
-- its messages to a multicast group, in fragments that a processor puts together again
-- (analyzer/impl/mc_processor.c, analyzer/impl/processors/encap.c); what is reassembled is a buffer that the codec reads. Sample
-- buffers are kept in pools by size (analyzer/bufpool.c).
--
-- The files. Prelude and its children hold what is shared: Boolean tests on numbers, lists,
-- signed integers, and the outcome of a call that may fail.
--
-- GrowBuf is the interface of grow_buf_t, whose code is not in the repository: a type of buffers
-- with append, read, seek and loan, and the laws that the codec relies on. GrowBuf/Plain is a
-- buffer that meets them.
--
-- Cbor models util/cbor.c and util/cbor.h. Format, MajorType and Addl are the wire format; Pack
-- has one definition for each cbor_pack function and Unpack one for each cbor_unpack function,
-- under its name without the prefix. A call takes the buffer and gives a result or an error
-- number, and the buffer. Floats are the words of their bits. Items gives a sequence of items and
-- its encoding; Wire, Integers and Blobs have the lemmas on heads, words and contents, and
-- Writes, RoundTrip, Errors, Refusals and EmptyBlob the results.
--
-- Mq models analyzer/mq.c. Messages live in a heap of optional messages at addresses (Store), the
-- pool of free ones is linked through that heap (Pool), and a queue is a record of head, tail,
-- count and settings (Queue). A run ends, faults on a pointer to no message, or runs out of fuel;
-- a loop over the messages takes fuel above their number, and the theorems show that this is
-- enough. The lock that each call holds makes it one step; a write allocates its message in front
-- of the lock and a poll gives it back behind it, which the model takes into the step. pthread_cond_destroy is taken to succeed. Callbacks are functions from the type
-- and data of a message, and `malloc` is a parameter that gives unused memory or the null
-- pointer. Seg, Chain and Fresh describe linked segments, a well-formed queue and the state of
-- queue and pool; Remove, Insert, Free, Cleanup, Settle, State and Finish treat the operations, and Trace
-- and Refinement whole sequences of calls against a list of messages.
--
-- Multicast models analyzer/impl/processors/encap.c: Encap has the state and the operations, with
-- bytes and bitmap as functions of the position and an access outside the memory as a fault.
-- Whether an allocation succeeds is a parameter. Copy, Fragments, Delivery and Repeats have the
-- results. Processor models process of analyzer/impl/mc_processor.c, which chooses the processor
-- of a fragment, with the processors as parameters, each paired with its state; Dispatch has its results.
--
-- Bufpool models analyzer/bufpool.c, with the pools' locks as flags; the loop that finds the
-- pool runs on 32 units of fuel, one for each bit of the length. Bufpool/Sizes has the results.
--
-- Serial models analyzer/serialize.h and analyzer/serialize.c: the frame of a deserializer, which
-- goes back where it fails, and compact arrays (Arrays). A library built for single precision is
-- modelled: a SUFLOAT is a float, a SUFREQ a double, both the words of their bits. Codec has the loops over counted
-- lists and the parts behind a flag, and says what a serializer and its deserializer promise: Sends, that the
-- one succeeds where there is room and writes the items of the structure, and Parses, that the
-- other reads them. Parse, Keeps and Ensures have the rules to build such facts call by call;
-- ArrayReads and Overrun treat the arrays.
--
-- Message models the structures that are sent, one module each: a record with the fields of the C
-- structure, its items in the order of the wire, x_serialize and x_deserialize for the function
-- of that name. Gain, Params and SourceInfo are of analyzer/analyzer.c; Notices, Psd, Channel, Inspector with
-- its children, Types and Msg of analyzer/msg.c; Multicast, Hello, ClientAuth, RemoteTypes and RemoteCall of
-- analyzer/impl/remote.c. What depends on a kind or a type is a data type with a constructor for
-- each case. A string is its characters, so that a null pointer is an empty string. Parameters say
-- whether an allocation of a size succeeds, what the sizes of the message structures are, which estimators and
-- spectrum sources are registered, and how two doubles compare. Configs is the interface of the
-- serializer of configurations, and ConfigCodec fills it with that of util/cfg.c. Delivery, Acceptance and Failures have the results.
--
-- Config models the configurations of util/cfg.c: descriptors with named fields, and a value for each
-- field. Registry is the list of descriptors that suscan_config_desc_register extends, as a value: its lock makes
-- each access one step, and a deserializer takes the registry as it finds it at its lookup and as it finds it where
-- it registers a descriptor that it has made. Wire has suscan_config_serialize, suscan_config_deserialize and
-- suscan_config_desc_populate_from_cbor. A string is its characters in front of the NUL. Values, Fields,
-- Lookup and Sendable have the lemmas, Setting and Arrival the results, and Keeps what the messages need.
--
-- Throttle models analyzer/throttle.c, with the clock as a parameter; Throttle/Pace shows how much it lets
-- through.
--
-- Each Runs file has runs on concrete data.
--
-- Not modelled: the blocking reads of the queue, which wait on a condition variable; the
-- checks of a datagram before process; the reassembly and compression of what a socket gives; the memory
-- that a failed deserialization gives back, and the run of the program after an access outside its memory; arrays of
-- doubles; the copies and the text form of configurations; the containers of util; signal processing, devices, the command line, and the vendored
-- YAML and orbit code.
pub mod Prelude
pub mod GrowBuf
pub mod Cbor
pub mod Mq
pub mod Multicast
pub mod Bufpool
pub mod Serial
pub mod Message
pub mod Config
pub mod Throttle
