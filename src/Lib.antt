-- ===== src/Lib.antt =====
-- The four programs of this repository: Audible recodes Sun audio (.au) streams, Server Store serves a
-- store with transactions to its clients, Printer is a spooler, and Memory Manager is an allocator.
--
-- Audible/ reads a stream from standard input, applies the transformation that the command line
-- selects and writes the result to standard output. `validargs` checks the command line and leaves
-- an options word; `recode` reads the header and the annotation, and loops over the frames with
-- `speedUp`, `slowDown` or `crypt`.
--
--   Base             numbers, words, Boolean tests, bits, lists and order: the shared helpers
--   Audio/Args       Audible/src/argValidation.c and `validargs` of Audible/src/hw1.c
--     Usage          the grammar of the usage message of Audible/include/const.h
--     Numbers        the factor and the key
--     Accept         `validargs` and the forms of the grammar
--     Accept/Plain   the factors and keys of the usage message
--   Audio/Options    the options word: the `...Record` functions and the accessors
--   Audio/Numerals   `charToInt`, `hexToInt` and `hexStringToInt`
--   Audio/Stream     Audible/src/audioHelper.c: integers on the standard streams
--   Audio/Header     the header and the annotation of Audible/src/audio.c
--   Audio/Frame      `read_frame` and `write_frame` of Audible/src/audio.c
--   Audio/Rand       Audible/src/myrand.c
--   Audio/Transform  Audible/src/transformations.c and the loop of `recode`
--   Audio/Recode     the new annotation, `recode` of Audible/src/hw1.c, and Audible/src/main.c
--     Writes         what the loops write into the annotation
--   Audio/Tests      concrete runs
--
-- Server Store/ has a thread for each client. The registry holds the descriptors of their sockets; a
-- transaction holds a list of the transactions that it depends on, for which a commit waits.
--
--   Store/Registry      Server Store/src/client_registry.c
--     Laws              the slots under one change
--     Reachable         the states that calls lead to
--   Store/Transactions  Server Store/src/transaction.c
--     Lookup, Create    single updates of the list of transactions
--     Commit            a thread in `trans_commit`, and its verdict among other threads
--     Abort             `trans_abort` and `trans_fini`
--   Store/Blobs         Server Store/src/data.c: blobs, keys and versions
--     Counts, Hash      the references to a blob; the hash and the comparison of keys
--   Store/Versions      Server Store/src/data.c: the disposal of all versions
--   Store/Protocol      Server Store/src/protocol.c: packets over a connection
--     RoundTrip, Pipe   sending and receiving; a connection for the tests
--   Store/Server        Server Store/src/server.c: the thread of one client
--     Ends, Requests    the steps of a thread
--     Runs              its runs among other threads
--     Crash             requests that stop the server
--   Store/Shutdown      the port and `terminate` of Server Store/src/main.c
--   Store/Tests         concrete runs
--
-- Printer/ keeps a list of jobs; a signal handler and the commands of the user change their states. A command
-- adds types, conversions, printers and jobs or sends a signal; the handler sees how processes fare, and
-- both run the jobs that wait. The model has the handler between two commands and a turn at one time.
--
--   Printer/Jobs        the list and the states of Printer/src/jobs.c
--     States            the operations on a job
--     Removal           the identifiers, and `removeJobs`
--   Printer/Types       Printer/src/types.c and the table of Printer/src/conversions.c
--     Paths             the search for conversions
--   Printer/Printers    the printers and their flags, of Printer/src/printers.c
--     Lookup, Busy      finding a printer; those that are busy
--     Fleet, Handing    printers that share a name
--   Printer/Words       the words of a line: `strtok`, `getPrinterSet`, `getConversionArgs`
--     Tokens, Sets      the words of a string; the set that names make
--   Printer/Spool       `getEligiblePrinter`, `runJobs` and `runJob`
--     Eligible, Apart   the printer chosen; the printers of the jobs
--   Printer/Process     the process of a job, of `runJobProcess`, and `getFile`
--     Success, Files    when it ends well; the file that it opens
--   Printer/Console     `runCommand` and `print` of Printer/src/main.c
--   Printer/Session     `printHandler`, `main` and `batchMode` of Printer/src/main.c
--   Printer/Invariant   what holds of the spooler between commands
--     Commands, Added   the commands, and `print`
--     Handling          the handler
--     Sessions          the states of a session
--     Waiting           the jobs that wait
--     Signals, Scripts  the signals that are sent; scripts
--   Printer/Tests       concrete runs
--
-- Memory Manager/ keeps free blocks in circular lists by size. The heap is made of 64-bit rows, so an
-- address is a row; a header is a row for its info and, in a free block, two for its links.
--
--   Memory/Info         the rows, and the fields of the structs of Memory Manager/include/sfmm.h
--   Memory/Blocks       the helpers of Memory Manager/src/sfmm.c on one block
--     Size              `getNewSize`
--   Memory/FreeLists    the free lists
--     Ring, Nodes       a free list as a ring of headers; the list of free lists
--   Memory/Grow         `mem_init`, `mem_grow` and `coalesce`
--     Tiles             the heap as a row of blocks
--   Memory/Alloc        `sf_malloc`, `sf_free` and `sf_realloc`
--     Check             what `sf_malloc` does where no list is large enough
--     Take              the block that it hands out
--   Memory/Tests        concrete runs
--
-- An `int` is its bit pattern below 2 ^ 32 and a character its pattern below 2 ^ 8; the wrap-around
-- of every operation is written out. Standard input is the list of the bytes still to come. Standard
-- output is the list of the bytes written with the number of bytes that it still takes, so that
-- `putchar` fails on a full output. Global variables, such as `global_options` and the state of the
-- generator, are passed on. Loops are structural recursion on the rounds left or on the string. The
-- recursion of `trans_abort` along the dependencies has fuel: more of it than there are pending
-- transactions is enough, since each call that goes on has aborted one. The loops of Memory Manager
-- have fuel, one for each node of the list of free lists and one for each page that a call adds; a
-- statement about a search has the length of the list for its bound. The search for conversions has the
-- count of loops that it is called with, which the code lowers before each call inside. A loop over the
-- words of a string or the lines of a script has its length, and takes a character off in each round.
--
-- What a mutex protects is one step, and so is what the semaphore of the registry protects. The semaphore of
-- a transaction is its value, and where it is 0 a commit or an abort waits. The other threads during a
-- commit may do anything to the transactions between its steps. During the service of a client they leave
-- the slots of its descriptor alone, and do not make its transaction pending once it is decided. A report
-- that the spooler gets of a process is of a job that is not over, and the process of a job has a process
-- group of its own.
--
-- Parameters stand for the code outside of the repository: `Rio` for rio_readn, rio_writen and the
-- conversions of byte order, `StoreOps` for store_put and store_get, whose source is a comment, `Sfutil`
-- for the prebuilt part of the allocator, `System` for the files, pipes and programs of a job, and
-- functions for strcmp, the clock, the process that fork makes and the files of a script.
--
-- Not modelled of Audible: the usage message that `main` prints.
-- Not modelled of Server Store: the sockets in `main`, the output for debugging, the object store, whose
-- source is commented out, and the waiting of `trans_add_dependency`. Not
-- modelled of Printer: the messages, and the descriptors that the process of a job copies. The code of csapp
-- is third-party, and the tests are left out.
pub mod Base
pub mod Audio
pub mod Store
pub mod Printer
pub mod Memory
