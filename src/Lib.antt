-- ===== src/Lib.antt =====
-- Real-TimeCR, a generator of conversion and reversal trades from the NSE tick-by-tick feed: the
-- reader of the feed, the search for conversions and reversals in the trades that it collects, the
-- queue on which it reports them, and the recovery of messages that the feed has skipped.
--
-- The parts, from the bytes up:
--
-- Words: C++ integers and doubles as bit patterns. A sum, a product or a difference wraps around
--   as on the machine; a division that the machine traps on is a fault; the cast of a double to
--   `int64_t`, on which the order ids depend, is the machine's.
-- Message (nsetbt_mcast_msg.h): the packed structures. The union is read by the fields of its
--   largest member, from its bytes.
-- Contract (struct_conrevtrade.h, and the containers of main.cpp): contracts, the map of tokens, the
--   set of tokens, trades and groups of trades.
-- ConRev (main.cpp, IsValidateConRev): whether a group is a conversion or a reversal.
-- Validate (main.cpp, ValidateTradeMsgRecords): the first look at the collected trades.
-- Split (main.cpp, SplitTrade and the functions that it calls): Split.Details for
--   ResetExtraDetails and GetExtraDetails, Split.Erase for the functions that erase packets,
--   Split.Middle for GetMiddleQty, Split.Groups for the group around the middle leg. Split.Turns,
--   Third, Picked and Around are what the last two come to.
-- ShmQueue (shmQueue.h, shmQueue1): the queue of reports. The ring of boost in it is a parameter,
--   the record SpscQueue, with what the documentation of boost says as its laws.
-- OtherQueues (shmQueue.h, shmQueue and shmMPSCQueue): the two queue classes that nothing uses, over
--   queues whose headers are not in the repository.
-- Writer (main.cpp, WriteDataInFile): what each message does to the collected trades and the queue;
--   Writer.Groups for the record that is made from a group. Writer.Detection and Feed.Detection are
--   the search from three trades to the queue.
-- Recovery (recoverymgr.h, CRecoveryMgr): requests in blocks, the wait between them, the reading
--   of the answer (Recovery.Packets). Sockets, clock and sleep are answers of the world, given as a
--   list, and a log of what was asked. Recovery.Runs has the rule by which a relation that holds of each
--   request holds of all of them; Recovery.Answer, Pieces, Delivery and Blocks are the server that
--   answers, from one message up to a range of blocks; Recovery.Arrival says how the answer is cut, and
--   Recovery.Moved and Overlaps when the `memcpy` of what is left over is defined.
-- Feed (main.cpp, the loop of main): a message is written if its sequence number is the next one;
--   if numbers are missing, the recovery manager is asked for them first.
-- FileDigester (main.cpp): the contract file, line by line and column by column, into the map of
--   contracts; FileDigester.Text for the text functions of C and C++ that it calls.
-- Logger (log.h, logs.cpp): the ring of log records, the thread that fills it and the one that writes
--   them to a file, as moves that interleave.
-- Calls, Start and Affinity (main.cpp before the loop, the constructor of shmQueue1, setaffinity.cpp):
--   the calls of the operating system that set the program up. The system is a parameter, which
--   answers each call after those before it; the configuration is another, a text for each property.
-- Program (main.cpp): the start-up, then the loop of Feed on the stores that it has made.
--
-- Feed calls Writer and Recovery, and Recovery calls Writer for each message recovered; Writer calls
-- Validate, Split and ConRev, and puts what is found on the queue.
--
-- Undefined behaviour is a value: `Exec` is a result or a fault, for a read through a null pointer or
-- an end iterator, an index out of range, a division that traps, and a `memcpy` whose ranges overlap but
-- are not the same (that bytes copied onto themselves stay as they are is taken for granted). An
-- `assert` that fails and a path that is read past its end are outcomes of Start. A pointer that a lookup may not
-- have set is an `Option`.
--
-- Loops over a container are recursion on the list. The loop of GetPacketFromMessage may not end,
-- and runs on fuel: one more than there are bytes, since a round without a byte taken off is the last
-- one or stands still for ever; Recovery.Ends says what a call without a result has read. The
-- loop of ForceRecoveryPackets has the number of answers that the world still has, since each round
-- takes one.
--
-- The moves of Logger are those of one thread that logs, which is what the program has, and of the
-- background thread; each move is one access to the memory they share, and the memory is sequentially
-- consistent, where the code asks for relaxed atomics only.
--
-- Not modelled: what is printed, the times in the log, the memory behind a queue, the parser of the
-- configuration file (only its declaration is in the repository), a read error in the contract file,
-- CFeedReceiver, which is only declared, and the time stamp of a packet, which nothing reads.
pub mod Prelude
pub mod Words
pub mod Message
pub mod Contract
pub mod FileDigester
pub mod Logger
pub mod Calls
pub mod Affinity
pub mod OtherQueues
pub mod Start
pub mod Program
pub mod ConRev
pub mod Validate
pub mod Split
pub mod ShmQueue
pub mod Writer
pub mod Recovery
pub mod Feed
pub mod Tests
