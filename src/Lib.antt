-- ===== src/Lib.antt =====
-- A model of the C programs of this repository, one program to a file of C, and what is proved of it.
--
-- Each program talks to the kernel. The kernel's answers are arguments here: the list of
-- getaddrinfo(3) comes with what socket(2), setsockopt(2), bind(2) and connect(2) answer for each
-- entry, and a loop takes the answers of poll(2), accept(2), recv(2) and send(2), or a function for
-- malloc(3) and realloc(3). Calls that matter to others are recorded as lists of events or calls.
-- What the code leaves undefined in C (a NULL or out-of-range access) is `none` or a `fault`.
--
-- Prelude: names and lemmas shared by all modules. Kernel: the answer of recv(2) and read(2).
-- Sockets: the walk over the list of getaddrinfo(3) (Sockets.Walk, with its laws in Sockets.First)
--   and the programs that make it: get_listener_socket of
--   TelnetServerPollingFileDescriptorsWithUnixStreamStreamSockets.c (PollListener),
--   get_listener_socketFd of UnixStreamTelnetServerWithSelect.c (SelectListener),
--   get_listener_socket of UnixFileTransferStreamServer.c (FileListener), get_listener and the
--   start of main of UnixRawNetworkLayerSocketServer.c (RawListener), server of
--   UnixStreamSocketServer.c (StreamServer, and as a whole StreamRun), telnetClient of
--   UnixTelnetClient.c up to its connection (TelnetClient), streamSocketClient of
--   UnixStreamSocketClient.c (StreamClient), unixDatagramSocketServer and udpClient of
--   UnixDatagramSocketServer.c and UnixDatagramSocketClient.c (Datagram), and
--   streamSocketAddressInfo of FetchUnixStreamSocketAddress.c (AddressList). PeerAddress has the
--   four functions that find an address for inet_ntop(3), UnixSocket unixSockets of
--   UnixSocketsForIPC.c, and Broadcaster udpBroadcaster of UnixDatagramSocketBroadcaster.c.
-- Children: the handler of SIGCHLD in UnixStreamSocketServer.c and
--   UnixRawNetworkLayerSocketServer.c, over waitpid(2) as a parameter (Handler, with proofs in
--   Reaped). Its loop takes the number of children and one more as fuel, as each round but the last
--   takes a child away.
-- PollServer: the chat server on poll(2). Table has add_to_pfds and del_pfds, Round the walk over
--   the table and a turn of the endless loop; Refine, Serving, Walk, Run and Quiet hold the proofs.
--   The walk takes fuel, `fd_count + 2`, which is enough as at most one connection joins in a turn.
-- SelectServer: telnetservermain of UnixStreamTelnetServerWithSelect.c. Text has C strings in fixed
--   memory, Loop the state, the body of the loop over the descriptors (visit, serve_listener,
--   serve_client) and a turn; the proofs are in Members (who gets a broadcast), Invariant (the
--   descriptor set), Memory, Messages, Greetings (the texts), Turns and Chat (whole turns). The
--   walk has as many rounds as there are numbers below 1024, since FD_ISSET of 1024 is a fault
--   (Limit).
-- FileTransfer: main2 of UnixFileTransferStreamClient.c (Connect, Send) and handle_file_transfer
--   and main of UnixFileTransferStreamServer.c (Receive). The sending loop takes one more fuel than
--   the file has bytes; each round reads at least one byte.
-- Residence: displayMincore and memory_residence of MemoryResidence.c. The locking loop takes fuel;
--   two is enough, as it makes two tests.
-- Telnet: UnixTelnetClient.c after its connection: thread_read (Reader) and the sending loop
--   (Sender); Chat joins both with the select server, and PollChat with the poll server.
-- Heap: MemoryManagement.c, memorymanagement on blocks (Blocks, with proofs in Reallocated) and
--   morememorymanagement with its family (Family; Filled and Printed hold the proofs); linkedlist of
--   LinkedList.c (Chain).
-- FileWatch: unixFileEventWatching of UnixFileEventWatching.c (Events, with the proofs in Notices).
--   The walk takes the length of the buffer and one more as fuel, as an event has sixteen bytes at
--   least.
-- Authentication: UnixUserAuthentication.c. FixedPoint: htonf and ntohf of
--   QuickAndDirtyPortableFloatingPoint.c, on scaled integers. BitOrder: EndiannessConversion.c
--   (Reverse) and Bitmasks.c (Masks), tested for every byte (Bytes).
-- Threads: what the programs with threads share: steps of single threads in any order and the bound
--   on them (Schedule), sums over threads (Totals), the loops over pthread_create and pthread_join
--   (Start), and PosixThreads.c (Posix).
-- Semaphore: UnixSemaphores.c, with the read and the write of a shift as two steps (Threads); Limit
--   has what holds of all runs, Calm of those without overlapping shifts, Race one with them.
-- SpinLock: UnixSpinLocks.c (Threads), with the proofs in Exclusion.
-- Mutex: my_thread_function of UnixMutex.c as steps of single threads, of which `counter++` takes
--   two (Threads, with the loops of unixMutex), and the proofs about their orders (Exclusion) and
--   their ends (Runs).
-- Pipes: the parent and the child of pipes of Pipes.c, with the pipe between them as pipe(7)
--   describes it (Processes); the proofs are in Invariant, Steps and Runs. One write holds the
--   whole message, as it is shorter than PIPE_BUF.
-- Fifo: fifo of FIFO.c, with the FIFO as fifo(7) describes it: an open(2) waits for the other end
--   (Processes, with proofs in Flow and Ends). Both use Threads.Pair, which has a parent and a
--   child that make their steps in any order.
-- MessageQueue: message_queues of SystemVMessageQueues.c (Processes, with proofs in Received).
-- SharedMemory: shared_memory of UnixSharedMemory.c (Segment, with proofs in Removed).
-- RecordLock: record_locking of UnixRecordLocking.c over fcntl(2) as a parameter (Processes, with
--   proofs in Kept). Paths: exec of Exec.c and fileio of FileIO.c, with what snprintf(3) cuts
--   (Build).
-- SendAll: sendAllOfMessage of UnixSocketSendAllBytes.c, over the answers of send(2).
-- Raw: main of UnixRawNetworkLayerSocketServer.c after its start (Server), allocatePacket
--   (Packets), the XOR checksum (Exclusive) and checksum, the last over bytes and for either byte
--   order. Its 32-bit sum does not wrap up to 128 KiB.
-- Signals: alrmsigdemo of AlarmSignal.c, second by second (Alarm, with proofs in Ticks). Files:
--   memoryMapping of MemoryMapping.c (Mapping) and lseek_demo of
--   GettingAndModifyingLocationInFile.c (Position).
-- Console: putCharAndUnget of Putchar&Ungetc.c (Pushback), pointerArithmetic of PointerArithmetic.c
--   (Elements) and bitwiseoperations of BitwiseOperations.c (Bits).
--
-- Numbers are natural numbers with the wrap of unsigned types written out. Not modelled: console
-- output beside what a program is about, errno but in the handler of SIGCHLD, other signals than
-- SIGCHLD and SIGALRM, the text of MichaelKerriskCode, which is another project's, the programs on
-- process ids and groups, which print what the kernel answers, and the demonstrations of the
-- language (gotos, function pointers, the preprocessor, buffering), which have next to no state.
pub mod Prelude
pub mod Kernel
pub mod PollServer
pub mod Sockets
pub mod FileTransfer
pub mod Raw
pub mod Children
pub mod Signals
pub mod Files
pub mod Console
pub mod SelectServer
pub mod Telnet
pub mod Residence
pub mod Authentication
pub mod FixedPoint
pub mod BitOrder
pub mod FileWatch
pub mod Heap
pub mod Threads
pub mod Mutex
pub mod Semaphore
pub mod SpinLock
pub mod SendAll
pub mod Pipes
pub mod MessageQueue
pub mod RecordLock
pub mod Fifo
pub mod Paths
pub mod SharedMemory
