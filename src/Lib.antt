-- ===== src/Lib.antt =====
-- Safe_transmission: a key agreement between clients and a server. A client sends a request, the
-- server answers with a response, and both derive a session key, which the client keeps in shared
-- memory. The messages travel as DER, each behind its length. The repository holds several copies of
-- these classes; the modules follow the one under Safe_transmission/ServerSeckey/ServerSeckey, whose
-- files are named below.
--
-- How the parts call one another: RequestCodec and RespondCodec fill a chain of nodes, one for each
-- field, through SequenceASN1; SequenceASN1 keeps that chain with a cursor and calls BaseASN1 to make a
-- node from a value, to pack the chain as one block, and to take a block apart again. The server
-- decodes a request, checks its code and encodes a response; the client decodes that, and writes the
-- agreed key through SecKeyShm. TcpServer accepts connections; TcpSocket carries a message as four bytes
-- of length and its bytes. A pool of threads that takes tasks from a ring stands beside these, in
-- Safe_transmission/epoll.
--
-- Where the code is modelled:
--   BaseAsn1 (BaseASN1.cpp, BaseASN1.h): Memory has ITCAST_ANYBUF, the error codes and the macros that
--     allocate; Tag the identifiers; Header is DER_ItAsn1_Low_GetTagInfo, DER_ItAsn1_Low_GetLengthInfo
--     and Count_LengthOfSize; Integer is IntToChar, CharToInt, WriteInteger and ReadInteger; Element
--     is WriteTagAndLength and ReadTagAndLength; Strings the bit, printable and other character
--     strings; Sequence WriteSequence, ReadSequence and the null element; Buffers EncodeChar,
--     EncodeUnsignedChar and their inverses; Release DER_DI_FreeAnybuf and DER_ITCAST_FreeQueue on a
--     heap of blocks.
--   SequenceAsn1 (SequenceASN1.cpp): the object with m_header, m_next and m_temp, and its methods.
--   Codec.Request, Codec.Respond (RequestCodec.cpp, RespondCodec.cpp): the messages, the constructors,
--     msgEncode and msgDecode; in each, Factory is RequestFactory or RespondFactory. Codec.CString:
--     strlen and strcpy on the arrays of a message.
--   SecKeyShm (SecKeyShm.cpp): shmWrite and shmRead over the nodes of a segment.
--   KeyAgreement (ServerOperation.cpp, and ClientOperation.cpp under
--     Safe_transmission/ClientSeckey/ClientSeckey): sec_key_agree is the server's secKeyAgree,
--     Client.send_request and Client.receive_respond are the client's, before and after the network;
--     Digest has what both compute, and getRandString. Session has the server's working, and the two
--     parts of the client's secKeyAgree with the socket calls around them.
--   TcpSocket (TcpSocket.cpp): Stream is readn and writen, Timeout readTimeout and writeTimeout, Message
--     sendMsg and recvMsg, Connect connectToHost, connectTimeout, blockIO and noBlockIO; Os has the
--     answers of the system.
--   TcpServer (TcpServer.cpp): setListen, acceptConn and acceptTimeout.
--   ServerLoop (ServerOperation.cpp): the loop of startWork, catchSignal, and what working does to the
--     container of sockets, as steps that interleave in any order. No lock guards the container, so
--     accesses that overlap are a data race; the runs modelled are those without one.
--   ShareMemory (ShareMemory.cpp, SecKeyShm.cpp): getShmID on the bytes of a segment, the constructors
--     with a key, and the nodes that shmWrite and shmRead find in these bytes.
--   ThreadPool (Safe_transmission/epoll/threadpool.c): the struct and what each function does to it;
--     System puts the threads together, and a Step of it is what one thread does under one lock, or
--     the beginning or the end of a task. Conditions are not kept: a wait may end at any time.
--   Draft (Safe_transmission/serverop/epoll2.cpp, Safe_transmission/clientop/cli.c), an earlier client
--     and server: Epoll and Cli are senddata and recvdata of the two sides, Dispatch the loop of
--     Epoll::initepoll with the thread pool, whose tasks all get the same object; Mixing is how
--     Safe_transmission/serverop/serverop.cpp and Safe_transmission/clientop/clientop.cpp mix their
--     random strings; KeyTable is shmPutdata and shmGetdata of Safe_transmission/serverop/shmkey.cpp,
--     with getshm and deshm of Safe_transmission/serverop/shmClass.cpp.
--   Common has the tests, lists, words and outcomes that these share; Runs has concrete inputs.
-- A module's theorems stand in its child modules, or below its definitions.
--
-- How state and values correspond to the code:
--   A call is a function to `Result`: `ok` with the output parameters and the state after it, `err`
--     with the code returned, `fault` where the C++ code has undefined behaviour (an access outside
--     of a block, through a null or a freed pointer, a second free, a shift by 64 bits or more, the
--     use of a variable that has no value, a lock that is given back twice), or where it leaves the
--     result to the system (a read of more than SSIZE_MAX bytes).
--     `stuck` is no outcome of the code: it says that a loop ran out of fuel, or that a call waits for
--     something that has not happened.
--   A pointer into a block is the list of the bytes from there to the block's end, and a pointer to a
--     chain of nodes is the list of the nodes from there; the empty list is the null pointer.
--   `unsigned long` has 64 bits and `int` has 32; an `int` is kept as its bit pattern. Sums and
--     products that can pass these bounds are reduced where the code computes them.
--   `malloc` is a parameter that answers by the size asked for, and `Grants malloc n` says that it
--     serves all sizes up to n. What `rand` and `shmat` answer are parameters, the latter as the
--     nodes of the segment, or that it failed. A buffer that the code writes before it reads it is
--     a parameter as well.
--   What the system calls answer to sockets is a parameter: a list of answers for each call that a loop
--     makes, from which each call takes the first, and one answer for a call that is made once. A
--     call that finds its list empty has not returned.
--   pthread_create is taken to succeed; what pthread_kill answers is a parameter. threadpool_destroy has
--     as parameters what the threads make of the pool after the flag is set, and which have ended.
--   The members of SequenceASN1 that point to a node that was freed are marked so, and so are the
--     four pointers to numbers that ReadSequence allocates and frees in each round of its loop.
--
-- Fuel: the loop of ReadSequence takes the length of its block and one more. A round takes at least
-- the tag and the length of an element, which are two bytes, so this is enough for every block of
-- bytes below 2 GB. The loop of DER_DI_FreeAnybuf takes one for each node of its chain.
--
-- Not modelled: the lines that print or log, the calls of free in the success paths where nothing is
-- used afterwards, HMAC, SHA-1 and MD5 (functions of OpenSSL, the first two of which are parameters),
-- the constructors of ShareMemory that take a path, those of ServerOperation and ClientOperation, the
-- registration of the signal in ServerOperation::startWork, threadpool_free, the set-up of the sockets
-- in epoll2.cpp and cli.c and the thread of cli.c that sends empty packages, what the drafts of the key
-- agreement do besides mixing, and the copies of the same classes in other directories.
pub mod Common
pub mod BaseAsn1
pub mod SecKeyShm
pub mod SequenceAsn1
pub mod Codec
pub mod ThreadPool
pub mod TcpSocket
pub mod TcpServer
pub mod ServerLoop
pub mod ShareMemory
pub mod Draft
pub mod KeyAgreement
mod Runs
