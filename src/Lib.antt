-- ===== src/Lib.antt =====
-- The store of a Tumblr direct-message bridge, and the decisions of the bridge on top of it. The bridge keeps in a database what it has promised to
-- deliver and what it still has to fetch; pkg/connector/tumblrdb is the Go package over that database. This
-- library models the package's tables as lists of rows and its methods as functions on them, with the
-- constraints of pkg/connector/tumblrdb/schema.sql that can refuse a statement.
--
-- Outbound, for pkg/connector/tumblrdb/outbound.go: one row per Matrix event on its way to Tumblr.
-- Outbound/Rows has the row, the receipt, the CHECK constraints and the unique keys; Outbound/Send the
-- struct that the Go code sees, its validators and `Scan`; Outbound/Reading the methods that only read;
-- Outbound/Statements the WHERE and the SET of each statement; Outbound/Create `LoadOrCreate`;
-- Outbound/Receipts the permanent receipts and the transactions that write them with a state;
-- Outbound/Progress the methods on the way of a send; Outbound/Terminal those that end it and those that
-- deliver its status. Outbound/Calls is the type of all calls that change rows, and runs of them.
-- Outbound/Framework has the rules by which an invariant of the statements becomes one of every run;
-- Outbound/Readable, Outbound/Handled and Outbound/Submitted apply them. Outbound/Due is about the order of
-- the queue, Outbound/Ended about the receipt that a method which ends a send leaves, Outbound/Claims about
-- the claim on the delivery of its status.
--
-- Matching, for forcedOutboundCandidateMatches of pkg/connector/outbound.go: which remote messages can only be
-- the echo of one send. The search for an augmenting path is the source's, call by call; Matching/Outcome and
-- Matching/Sound say what a call leaves behind, Matching/Progress is the invariant of the main loop, Matching/Bound
-- compares with any other matching, Matching/Spec says what a matching is. The search takes fuel, one more than the
-- number of messages, since each nested call has visited one more; Matching/Fuel shows that this is enough. A Go map
-- is an association list. Go visits a map's entries in any order, where the model goes from front to back; each set
-- has one entry at most, so the order does not matter.
--
-- Inbox, for reconcileConversationHead of pkg/connector/inbound_sync.go: the walk through the pages of the remote
-- inbox, which puts jobs into the queue of Jobs and moves the watermark of Sync. The loop over pages has the
-- source's limit of 1000 pages and needs no other fuel. Worker, for the rest of that file: one job of the queue from its
-- selection to its report, the pause before the next attempt, and the probe of a conversation's newest message.
-- Inbox/Pages, Inbox/Covered and Inbox/Whole follow the walk page by page, and Inbox/Deletions is the walk that looks
-- for conversations which are gone; Worker/Reports composes the worker
-- with the revisions of Jobs. The fetch and the delivery of a conversation, which the worker calls, are arbitrary functions
-- of the queue, so that they stand for what other goroutines do meanwhile too; so are the locks, whose
-- acquisition may fail. Wake-up signals between goroutines and the log are left out. A duration is a number
-- of nanoseconds, and one that is negative counts as 0 where the code compares it with a positive one.
--
-- Generations, for pkg/connector/lifecycle.go: the generations of a client's connection and the operations that own the
-- client. A goroutine's way through a function is cut into the events between which another goroutine may run, and
-- Reach has the clients that any order of events leads to. Generations/Single is about the workers of generations,
-- Generations/Retired about a client that is replaced, Generations/Over about a generation that has failed. The
-- flag of a login and the states that are published are left out.
--
-- Seen, for the cache of seen messages in pkg/connector/sync.go: a set and the order in which it was filled, cut to a
-- maximum, which the model takes as an argument.
--
-- Jobs, for pkg/connector/tumblrdb/job.go: the durable queue of conversations to fetch, with the revision
-- by which a worker names the work it took. Sync, for pkg/connector/tumblrdb/syncstate.go and
-- pkg/connector/tumblrdb/conversation_sync.go: the watermark of the inbox and the last message fetched of a
-- conversation. Prelude has what these share: tests, lists as tables, texts, methods with errors and
-- transactions, invariants of methods, times.
--
-- A method of Outbound is an `Exec`: from the database to a result or an error, and the database after it; a
-- transaction restores the database on an error. The current time, which Go reads inside the method, is an
-- argument. A method of Jobs or Sync is a plain function of the rows; SetCompletedHead, which a CHECK can refuse,
-- returns the error too. `LoadOrCreate` tries twice, as the Go
-- loop does; the model's error after the second round is the Go code's. The loop of
-- `TerminalizeConversation` is recursion on the list that its statement returned; there is no fuel.
--
-- Parameters: the test of an empty portal key and the order of texts, which code outside the repository
-- decides. A time is Go's zero time or a number of nanoseconds from 1970-01-01T00:00:00.001Z on, so that a
-- stored millisecond is positive. The zero time, in Go a negative number of milliseconds, is stored as 0: a column reads back as
-- the zero time from either, GetNextDue of Jobs finds nothing at it, and MarkRetry, which would store it, is given times after the
-- current one only. Earlier times are left out, and so is the overflow of a 64-bit
-- millisecond or revision. The column of baseline IDs, JSON in the table, is a list. Not modelled: errors of
-- the database itself, foreign keys with their cascades, and other writers between the statements of a
-- method that is not one transaction.
pub mod Prelude
pub mod Outbound
pub mod Jobs
pub mod Sync
pub mod Matching
pub mod Inbox
pub mod Worker
pub mod Generations
pub mod Seen
