-- ===== src/Lib.antt =====
-- kueued: the server that mirrors a support organisation's queues. It copies the open service
-- requests (SRs) and the support chats from remote databases into local MySQL tables, and hands them
-- to its clients as XML.
--
-- The parts, and how they interact:
--   ServerThread::run (serverthread.cpp) answers one HTTP request per thread. For /updateDB it calls
--   Database::getChats and Database::getQmonSrs for the remote lists, and for each item the
--   statements of Database that insert or update its row; then it deletes the rows that no list has.
--   For the other requests it hands what Database reads to XML (xml.cpp), or writes it line by line.
--   The threads share the local tables.
--
-- Files:
--   Prelude      text as the list of its code units (QString), integers, tests, faults as Option
--   Items        the classes of database.h: SiebelItem, QueueItem, BomgarItem, LTSScustomer
--   Settings     settings.cpp: the entries of the configuration
--   Debug        debug.h: the lines of the logs
--   Network      network.cpp: the requests that are sent to other servers
--   Service      main.cpp, kueued.cpp and server.cpp: the start of the service
--   Sql          what the program calls and does not implement: dates, tables, remote answers
--   Sql/Rows     the columns of the local tables
--   Database     database.cpp, by topic:
--     Time       convertTime
--     Siebel     insertSiebelItemIntoDB, updateSiebelItem, updateSiebelQueue,
--                deleteSiebelItemFromDB, getQmonSiebelList, siebelExistsInDB, siebelQueueChanged,
--                siebelSeverityChanged, getCreator
--     Chat       getChats and the statements on QMON_CHAT
--     Lookups    getSrForCr and its two halves, srInfo, isBugID, getBugDesc, getDetDesc,
--                getSrStatus, updatePseudoQueues;  Cache: the theorems on them
--     Qmon       getQmonSrs;  Listing: the theorem on it
--     Queue      getSrsForQueue;  Queue/Facts: the theorems on it
--     Engineer   getUserQueue and getSrInfo;  Engineer/Facts: the theorems on them
--                (Engineer/Frame: what they write)
--     Ltss       getLTSScustomersExt, updateLTSScustomers, checkLTSSbyId, with the theorem on them
--     Lists      getSrnumsForQueue, getPseudoQueues
--     Connections the constructor and the destructor of Database, openMysqlDB, openQmonDB,
--                openSiebelDB, openReportDB and the destructor of ServerThread;
--                Connections/Main and Connections/Lifecycle: the theorems on them
--     Frame      what the lookups write (Qmon/Frame: what getQmonSrs writes)
--     Phone      formatPhone
--     Escape     escapeString;  Escape/Loop and Escape/Clears: the theorems on it
--   Update       /updateDB in serverthread.cpp:
--     Steps      the bodies of its loops;  Loop: the two loops over any table
--     Rows       what a step does to the rows of one key
--     Mirror, Effects, Waits, Chats, Request, Served     the whole request, and the theorems
--     Statements the transactions of many threads, in any order, and the theorem on them
--     Programs   threads that take turns on the shared tables; Request: /updateDB as a program;
--                Alone: without other threads; Rely, Loops, Lookups, Mirrors, Keys, Visits, Listed,
--                Rows, Kept, Shows: what its atoms keep and bring about; Fair: a thread that gets its
--                turns ends; Faultless: no /updateDB faults; Converges, Settles, Reaches: the theorems
--     Fits       the texts that can stand in the documents, from the remote rows (Items, Phone,
--                Remote) through the tables (Tables, Lookups, Kept, Pools) to the list of /qmon (Listed)
--   Thread       the rest of ServerThread::run:
--     Line       the first line of a request, with the theorem on it
--     Routes     the chain of tests on the path, with the theorem on it
--     Arguments  the number of /srforcr, /srinfo and /srstatus, and the word of /updateDB
--     Out        what is written to the socket;  Connections: which databases a handler has opened
--     Replies    the handlers;  Survey: that of /stats, and getWF;  Welcome: the page of the last one
--     Replies/Wire, Documents, Frame, Totals, Related, Chats, Numbers     the theorems
--   QString      the methods of QString that the sources use; Cdata: replace( "]]>", "]]&gt;" );
--                Split and Tokens: split by a text, and by runs of blanks
--   Xml          xml.cpp:
--     Markup     the forms of its lines;  Sr: XML::sr and XML::queue;  Qmon: XML::qmon, XML::qmonDate
--     Scan       a reader of such documents, on its own;  Balanced, Numbers: its lemmas
--     SrBalanced, QmonBalanced            the theorems;  Ltss: XML::ltssCust, with its theorem
--     Stats      XML::stats and the records of xml.h;  Stats/Averages and Stats/Balanced: the theorems
--   Tests        tables in memory, and each theorem at one input
--
-- How the code is read:
--   A state of the local database is the contents of seven tables, and a statement is an operation
--   on them. The operations are those of any table with a primary key: an INSERT of a key that is
--   there is refused, UPDATE and DELETE touch the row of their key. LTSSCUSTOMERS has no key and keeps
--   every row. The connection to MySQL stays up. A placeholder that is bound to no value stores NULL,
--   which reads as the empty text. CRSR, BUG and PSEUDOQ are taken to have keys too;
--   scripts/create_tables does not declare them. Keys are compared as they stand: they are numbers, ids
--   of the servers, and names of pseudo queues, taken to differ in more than the collation ignores. Of
--   any other column the collation decides what a WHERE matches, and an empty one may be NULL, so that
--   test is a parameter. A method of Database brackets its statements by transaction() and commit(): for
--   the threads side by side it is one step, but getQmonSrs makes a step for each local query of its
--   lookups. The pool of threads (server.cpp) is a schedule: which thread makes its next step at each
--   time. A fault is the end of all threads.
--   The remote side gives the same answers throughout one request, as lists of rows with the columns
--   of the SQL text; over a connection that is not open it gives none. The clock of an update is the
--   function that gives the time of each round.
--   What is written to a socket after its close() is lost. Web pages, settings and the timer are
--   parameters. An int of XML::stats has 32 bits and wraps round.
--   `none` is a fault: at( i ) past the end of a list. What no constructor initialises is an argument
--   (`junk`, `level`, `off`); an offset is taken to be a natural number.
--   The loop of escapeString runs on as many rounds as the text has units, and one more; the printing
--   of a number on as many rounds as the number, and one more.
--
-- Not modelled: getLTSScustomers and getQmonBdesc, which nothing calls; the event loop, the thread
-- pool and the web requests of Qt; the copies of other projects in simplecrypt, qtservice and
-- qtsingleapplication.
pub mod Prelude
pub mod Items
pub mod Settings
pub mod Debug
pub mod Service
pub mod Network
pub mod Sql
pub mod Database
pub mod Update
pub mod QString
pub mod Xml
pub mod Thread
pub mod Tests
