-- ===== src/Lib.antt =====
-- Verification library of proto_rpc: an RPC framework on protobuf over a reactor network library.
--
-- The program and the files here (paths from the repository's root):
--   Endian         network/include/network/Endian.h: words of k bytes in network order.
--   Buffer         network/include/network/Buffer.h, network/src/Buffer.cc: the byte buffer, with
--                  readFd. Buffer/View is what a reader sees and the invariant IsValid; Buffer/Space
--                  is makeSpace and ensureWritableBytes, Buffer/Append and Buffer/Read the operations,
--                  Buffer/Queue the buffer as a queue of bytes.
--   Message        proto_rpc/proto/rpc.proto: the one message of both directions.
--   RpcCodec       proto_rpc/rpc_framework/RpcCodec.h and .cc: frames on a byte stream. RpcCodec/Parse
--                  judges the front of a stream, Frame is the wire format, Send the sender, Stream
--                  onMessage as a whole, Sequence streams of whole frames, Reject what is refused.
--   RpcChannel     proto_rpc/rpc_framework/RpcChannel.h and .cc: calls, answers and requests.
--                  RpcChannel/Calls is the map of waiting calls along any history, Once the answers
--                  that come again, Due what a caller is owed for an answer, RoundTrip a call from
--                  end to end, Ownership the response objects and the destructor, Order many
--                  answers at once.
--   RpcServer      proto_rpc/rpc_framework/RpcServer.h and .cc: a channel for each connection.
--                  RpcServer/Isolation has the connections next to each other, Requests a request from
--                  the bytes that are read to the service.
--   StdMap         std::map with integer keys, as an association list.
--   Channel        network/include/network/Channel.h, network/src/Channel.cc: watched events.
--   Poller         network/include/network/Poller.h, network/src/Poller.cc: the map of channels and
--                  epoll_ctl. Poller/Interest is the agreement with the kernel's interest list,
--                  Poller/Active the wait for events.
--   TcpConnection  network/include/network/TcpConnection.h, network/src/TcpConnection.cc: the state
--                  of a connection. TcpConnection/Output and Flush are the sending side, Close the end;
--                  Life has the stages of a connection, Sending, Stages, Course and Dispatch compare
--                  each operation with them, Reached every history; Handled is one event.
--   TcpServer      network/include/network/TcpServer.h, network/src/TcpServer.cc: the connections of a
--                  server. TcpServer/Names and Registry are the names and the map, System the server
--                  with its connections, Steps its invariant, Lifecycle every history.
--   TcpClient      network/include/network/TcpClient.h, network/src/TcpClient.cc: the connection of a
--                  client. TcpClient/Lifecycle is every history without retry; Session is the client with
--                  its connector, Moves and Kept what each event does to the two, Reconnect the whole.
--   Acceptor       network/include/network/Acceptor.h, network/src/Acceptor.cc: the listening socket.
--                  Acceptor/Descriptors is what becomes of each descriptor.
--   Address        network/include/network/InetAddress.h, network/src/InetAddress.cc and the part of
--                  network/src/SocketsOps.cc that they call: addresses as text, in Address/Print.
--   EventLoop      network/include/network/EventLoop.h, network/src/EventLoop.cc: the functors of a
--                  loop and its wakeups. EventLoop/Pending is what runs, and when the loop may sleep;
--                  Threads interleaves the loop's thread with others, Progress lets it run. Reactor is
--                  the loop with its poller; Reactor/Watched is each change of its channels, Actions
--                  what a handler does, Round a round of the loop.
--   EventLoopThread network/src/EventLoopThread.cc and its header: a thread that runs a loop, and its
--                  owner. EventLoopThread/Invariant is what the two know of each other, Course what
--                  becomes of them.
--   LoopPool       network/src/EventLoopThreadPool.cc and its header: the choice of a loop, in
--                  turn (Rounds) and without an abort (Ready).
--   Connector      network/src/Connector.cc and its header: the state machine of a connect.
--                  Connector/Sockets and History count its sockets, Owned counts them by descriptor.
--   Prelude        names and lemmas that the files share; Tests has concrete runs.
--
-- How they interact: a connection's handleRead puts the bytes of readv in its input buffer and gives
-- it to the message callback, which is RpcChannel::onMessage; that is the codec's onMessage with
-- onRpcMessage as the callback. An answer or a request goes through the codec's send to the
-- connection's send, and what the socket does not take waits in the output buffer. The channel of a
-- connection tells the poller which events it waits for, and an event that the poller reports runs the
-- connection's handlers. A server gets a descriptor from its acceptor and a loop from its pool, puts a
-- connection in its map, and takes it out when the close callback of the connection ran.
--
-- How the code is modelled: a function has the name of the source's in this spelling (onMessage is
-- on_message) and takes the object's state last, or first where it is a parameter of a call. A method
-- returns the new state. `none` is a failed assert, an exception of std::vector or a read past an
-- end; assertions count as live. Numbers are natural numbers: size_t wraps at 2^64, an intN_t is its
-- bit pattern, and an int that would overflow aborts. A byte is a number. Pointers into a buffer are
-- the bytes from there on. Effects on sockets, closures, callbacks and other loops are logged in
-- order in a field of the state.
--
-- Not in the repository, and so parameters: protobuf's serialisation and zlib's adler32 (the record
-- Wire of RpcCodec; what is assumed is in IsSendable of RpcCodec/Frame), the services (Service), the
-- kernel's interest list (IsEpoll of Poller/Interest), inet_ntop and inet_pton (Address), and the
-- answers of read, write, connect, accept, open and epoll_wait, which are arguments of the handlers.
--
-- Bounds: the loop of onMessage runs on fuel, one more than the number of readable bytes, which is
-- enough since each round takes at least eight of them. A buffer is valid up to the largest
-- std::vector, 2^63 - 1 bytes.
--
-- For a server's connections the bound is 10^8 numbers: the buffer of 64 bytes for a name then holds
-- the number behind an address of 53 characters.
--
-- Not modelled: Socket, which is calls of the system, as is most of SocketsOps; logging; setters of
-- callbacks; the thread checks of EventLoop, which check nothing. Threads are modelled for the
-- functors of a loop and for EventLoopThread; elsewhere a method of a loop's object is one step of
-- that loop. The files on a round of the loop keep its functors (EventLoop) apart from its channels
-- (EventLoop/Reactor).
pub mod Prelude
pub mod Endian
pub mod Acceptor
pub mod Address
pub mod Buffer
pub mod Message
pub mod RpcCodec
pub mod StdMap
pub mod RpcChannel
pub mod RpcServer
pub mod Channel
pub mod Poller
pub mod TcpClient
pub mod TcpConnection
pub mod TcpServer
pub mod Tests
pub mod LoopPool
pub mod Connector
pub mod EventLoop
pub mod EventLoopThread
