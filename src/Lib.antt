-- ===== src/Lib.antt =====
-- A model of the IOCP chat server: its network engine (Source/ServerEngine), its protocol
-- (Source/Common/Protocol) and the parts of the server that hold state.
--
-- A packet's way through the program: `Session` gives the kernel the free spans of its `RingBuffer`;
-- a completed receive moves the write position and hands a copy of the ring's bytes to
-- `PacketSession::OnRecv`, which cuts them into packets; `HandlePacket` reads a packet's header and
-- fields and calls the handler, whose work on a room is a job in the room's `JobQueue`, run by
-- whichever worker pops the queue from `GlobalQueue`. Answers are built by `MakeSendBuffer` in a
-- thread's `SendBufferChunk` and leave through the session's send queue. A `TokenBucket` limits the
-- packets of each client.
--
-- The files:
--   Prelude, Prelude/*: numbers, lists and Boolean tests.
--   Ring, Ring/*: Source/ServerEngine/Buffer/RingBuffer.h and RingBuffer.cpp. A ring is its bytes and
--     positions; `contents` is the queue of bytes that it stands for.
--   Session, Session/*: Source/ServerEngine/Network/Session.h, Session.cpp, PacketSession.h and
--     PacketSession.cpp. The state of a session is a record; an operation is a function on it that
--     also returns the buffers it handed to `WSASend`. What the kernel answers is the record `Kernel`;
--     the application's `OnRecvPacket` is a parameter.
--   Wire, Wire/*: Source/ServerEngine/Buffer/BufferReader.h, BufferWriter.h, SendBuffer.h and
--     SendBuffer.cpp. `ASSERT_CRASH` is the result `crash`.
--   Protocol, Protocol/*: Source/Common/Protocol/PacketProtocol.h, ServerPacketHandler.h and
--     ClientPacketHandler.h. The handlers are a parameter.
--   Jobs, Jobs/*: Source/ServerEngine/Job/JobQueue.h, JobQueue.cpp, GlobalQueue.h and
--     GlobalQueue.cpp. Any number of threads run the steps of `Push` and `Execute` in any order; a
--     step is one atomic operation or one critical section.
--   Rooms, Rooms/*: Source/ChatServer/Room/Room.h, Room.cpp, RoomManager.h and RoomManager.cpp, the
--     handlers of Source/ChatServer/Protocol/PacketHandlerImpl.cpp and the room of
--     Source/ChatServer/Session/ClientSession.cpp. Sessions and rooms are objects of a store; a job is
--     data, and `run_job` runs it.
--   TokenBucket, TokenBucket/*: Source/ServerEngine/Utility/TokenBucket.h.
--   Timer, Timer/*: Source/ServerEngine/Job/JobTimer.h and JobTimer.cpp, over an interface of priority
--     queues.
--   Lock, Lock/*: Source/ServerEngine/Lock/SpinLock.h: one atomic operation of one thread is a step.
--   Memory, Memory/*: Source/ServerEngine/Memory/Memory.h, Memory.cpp, MemoryPool.h, MemoryPool.cpp and
--     MemoryHeader.h. A block is its address; the proofs keep beside the heap where each block is.
--   Service, Service/*: Source/ServerEngine/Network/Service.h and Service.cpp, `IocpCore::Dispatch`
--     of IocpCore.cpp and the connecting half of Session.cpp. The hooks of the application are
--     parameters.
--   Listener, Listener/*: Source/ServerEngine/Network/Listener.h and Listener.cpp.
--   Stats, Stats/*: Source/ChatServer/Monitoring/ServerStats.h and ServerStats.cpp.
--   Abuse, Abuse/*: Source/ChatServer/Service/AbuseMonitor.h and AbuseMonitor.cpp, and the guard of
--     packets in Source/ChatServer/Session/ClientSession.cpp. `HandlePacket` is a parameter.
--   TimerThread, TimerThread/*: the timer thread of Source/ChatServer/Main.cpp.
--   Workers, Workers/*: Source/ServerEngine/Thread/ThreadPool.h and ThreadPool.cpp. A worker that waits on the
--     condition variable sleeps until it is notified, or wakes up by itself.
--   Latency, Latency/*: Source/DummyClient/Monitoring/LatencyMonitor.h.
--   Decimal, Decimal/*: the decimal numbers of `std::to_string` and `std::stoull`.
--   Bots, Bots/*: Source/DummyClient/Session/DummySession.h and DummySession.cpp,
--     Source/DummyClient/Protocol/DummyPacketHandlerImpl.cpp and the loop and verdict of
--     Source/DummyClient/StressTester.cpp. `rand()` and the clocks are arguments.
--   Console, Console/*: Source/ChatClient/Main.cpp, Source/ChatClient/Session/ServerSession.h and
--     ServerSession.cpp, and Source/ChatClient/Protocol/ClientPacketHandlerImpl.cpp. What is printed
--     is data.
--
-- Numbers are natural numbers; where the source's integer can wrap, the wrap is written out, except for
-- the sum in `TokenBucket::Refill`. The runs of the job queues are those in which no queue has 2 ^ 31 jobs
-- outstanding at a time, so that its `int32` count is not negative. The loop
-- of `OnRecv` runs on fuel: every packet takes four bytes at least, so one more than the number of
-- bytes is enough. The loops of the timer pop an item each round, so they run on the number of items;
-- those of `Init` run on the number of pools they make. `RegisterAccept` calls itself as long as
-- `AcceptEx` fails, so its fuel is an argument, and its theorems say how much is enough.
-- `to_string` makes twenty rounds, which is enough for 64 bits. The other loops are structural.
--
-- Rooms keeps the packets that are made for each session; that `MakeSendBuffer` returns null for one whose fields
-- do not fit into 4096 bytes is in Wire and Protocol, and Console assumes that they fit.
--
-- Not modelled: the operating system's calls (sockets, completion ports, threads, crash dumps), what
-- the programs print and how it looks, their start, and the tests.
pub mod Abuse
pub mod Bots
pub mod Console
pub mod Decimal
pub mod Jobs
pub mod Latency
pub mod Listener
pub mod Lock
pub mod Memory
pub mod Prelude
pub mod Protocol
pub mod Ring
pub mod Rooms
pub mod Service
pub mod Session
pub mod Stats
pub mod Timer
pub mod TimerThread
pub mod TokenBucket
pub mod Wire
pub mod Workers
