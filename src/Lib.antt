-- ===== src/Lib.antt =====
-- A model of the host framework of the ZigBee network processor (ZNP): the RPC layer, which talks
-- to the ZNP over a serial port, and the monitor and test (MT) layer above it, whose functions send
-- commands and whose handlers pass messages to the application's callbacks.
--
-- How the program works. An RPC thread calls `rpcProcess` in a loop: it reads one frame from the
-- port, checks it, and puts it into a queue, a synchronous response at the front. An application
-- thread calls functions such as `afDataRequest`: they build a payload and call `rpcSendFrame`, which
-- writes the frame and, for a synchronous request, waits for the RPC thread to post a semaphore. It
-- then takes the response from the queue and calls `mtProcess`, which leads to a callback.
--
-- The files:
-- - Base, with its children: lists, bytes and bits over the native numbers, and tests of numbers.
-- - Queue: framework/rpc/queue.c. `Queue` has the functions `addToHead`, `addToTail`, `llq_open`,
--   `llq_add`, `llq_timedreceive` and `llq_receive` over the heap of Queue.Memory, Queue.Deque is
--   the abstract queue, and Queue.Refine and Queue.Runs relate the two. Queue.Chain, Queue.Add,
--   Queue.Insert and Queue.Receive have the lemmas.
-- - Rpc: framework/rpc/rpc.c and framework/platform/gnu/rpcTransportUart.c. Rpc.Fcs has `calcFcs`,
--   Rpc.Transport `rpcTransportRead` and `rpcTransportWrite`, Rpc.Process `rpcProcess`, Rpc.Send
--   `rpcSendFrame`, Rpc.Start `rpcOpen`, `rpcInitMq` and `rpcForceRun`. Rpc.Frame says what a frame is; Rpc.Reading, Rpc.Receive, Rpc.Request and
--   Rpc.Exchange are about the reading loop, a whole frame received, one sent, and both together.
-- - Mt: what the files of framework/mt repeat. Mt.Writer fills a command buffer, Mt.Call allocates
--   and sends it, Mt.Sent says what that puts on the wire, Mt.Fills puts the proofs of the requests together, Mt.Reader and Mt.Lists take a
--   message apart, Mt.Dispatch calls the callback. Mt.Host is the state of the host program, Mt.Parser
--   has `mtProcess` of framework/mt/mtParser.c, and Mt.Client `rpcGetMqClientMsg` and
--   `rpcWaitMqClientMsg` of framework/rpc/rpc.c.
-- - Af: framework/mt/Af/mtAf.c and mtAf.h. Af.Formats and Af.Events have the structs, Af.Requests the
--   request functions, Af.Process `afProcess` and its handlers, Af.Encoding and Af.Decoding the
--   formats, Af.Sent the frames on the wire, Af.Address the loop over a source address.
-- - Sapi: framework/mt/Sapi/mtSapi.c and mtSapi.h, in the same files.
-- - Sys: framework/mt/Sys/mtSys.c and mtSys.h. Sys.Formats and Sys.Events have the structs, Sys.Requests
--   the request functions, Sys.Payloads (Memory and Device) and Sys.Encoding what they send, Sys.Handlers the handlers,
--   Sys.Process `sysProcess`, Sys.Reading and Sys.Decoding the messages they read.
-- - Zdo: framework/mt/Zdo/mtZdo.c and mtZdo.h, by theme: Zdo.Address, Zdo.Descriptor, Zdo.Binding,
--   Zdo.Management, Zdo.Indication and Zdo.Network each have the structs of the requests (Formats) and of the messages (Responses), the
--   request functions (Requests), what they send (Payloads; Zdo.Binding.Bind for the two with an
--   address of two sizes), the handlers (Handlers) and what they read (Reading);
--   Zdo.Management.Table is the loop of `processMgmtBindRsp`. Zdo.Process has `zdoProcess`,
--   Zdo.Encoding, Zdo.Sent, Zdo.Messages and Zdo.Decoding are about all of them, and Zdo.NotUsed about
--   a member that `processMsgCbIncoming` reads in the wrong place.
-- - Client: the parts together. Client.Messages and Client.Process follow a message from the queue to
--   its callback, Client.Overflow is about messages with too much data, Client.Exchange, Client.Calls and
--   Client.Status follow a request to its response, and Client.Session, Client.Kept and Client.Log are
--   about any number of them; Client.Start adds the start of the program.
--
-- State. The heap of the queue is a function from pointers to nodes and one to buffers; an access
-- that C leaves undefined is a fault, and so is the message that `rpcProcess` prints of a response
-- nobody waits for, whose format does not fit its arguments. The static variables of rpc.c are the record `Rpc`, and the
-- port is the bytes still to come with a schedule of how the calls of `read` will go. A call is
-- done, faults, or waits for ever. In `rpcSendFrame` what the RPC thread does is a function for each
-- of the two points where it matters, and one for the wait of `rpcWaitMqClientMsg`. The record `Host`
-- is `Rpc` with `srspRpcBuff` and the calls of callbacks so far.
--
-- Bounds. A byte is a number, with the wrap-around of the counters and indices written out. The
-- loops count down what is left; only the reading loop depends on the port, takes one event of the
-- schedule in each round, and waits for ever when there is none. No function runs on fuel that
-- could end too early, but for the writing loop, which is given the number of bytes and needs no
-- more rounds.
--
-- Parameters. `open`, `malloc`, the contents of memory and of buffers on the stack before a write, the
-- registered callbacks and what the RPC thread does meanwhile are arguments (the record `Env`), so the
-- statements hold for all of them.
--
-- Not modelled: a callback that calls the library again, the time left that `rpcWaitMqClientMsg`
-- returns, configuring and closing the port, the variant without check sequence for a network port, the console, the
-- port to TI-RTOS, and the examples.
pub mod Base
pub mod Queue
pub mod Rpc
pub mod Mt
pub mod Af
pub mod Sapi
pub mod Sys
pub mod Zdo
pub mod Client
