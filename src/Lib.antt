-- ===== src/Lib.antt =====
-- A verification library for nmfs0, a distributed file system whose clients keep their data in RADOS
-- objects and lead the directories that a manager has leased to them.
--
-- The program's parts and how they interact. The manager (manager/) leases each directory to one
-- client at a time. A client (client/) that holds the lease of a directory keeps its entries and
-- inodes in memory, answers the other clients for it, and gathers its changes in a transaction, which
-- is first committed to the directory's journal and later synchronised to the objects of the
-- directory and its files. All that is kept lies in files of bytes over RADOS objects (lib/rados_io/).
--
-- Which file models which part, and how:
--
--   Prelude, Map, Codec, Exec: shared names and lemmas on lists; the hash maps of the program as
--     association lists; numbers as little-endian bytes; functions that change a state and may throw.
--   Rados: lib/rados_io/rados_io.cpp. read, write, exist, stat, remove and truncate, with their loops,
--     over a record `IoCtx` of the librados calls (Rados/Store). `IsStore` is what the theorems rely
--     on: a cluster where no call fails and objects are byte sequences. Rados/Memory is such a one.
--   Uuid: client/meta/uuid_controller.cpp, the halves of an inode number.
--   Lease: manager/lease/lease_table.cpp and lease_impl.cpp (Lease/Manager), client/lease/
--     lease_table_client.cpp and lease_client.cpp (Lease/Client). Lease/System composes the
--     manager, any number of clients and the answers on their way as a step relation, in which calls
--     of any clients interleave, answers come late, out of order or never, and the clock goes on.
--   Inode: client/meta/inode.cpp, with its disk layout (Inode/Layout), the rename messages
--     (Inode/Message), the permission check, the setters (Inode/Setters), and the read and the write of
--     its object (Inode/Pool).
--   Dentry: client/meta/dentry.cpp, the children of a directory, their layout and their object.
--   Transaction: client/journal/transaction.cpp. The calls (Transaction), what they have in common
--     (Calls), when they throw (Conflict) and what they mean for the directory (Effect), the form in
--     the journal (Serial), and sync(), commit() and checkpoint() (Sync).
--   Journal: client/journal/journal.cpp, journal_table.cpp, commit.cpp, checkpoint.cpp and mqueue.hpp.
--     Journal/Steps lets the calls of clients, the commit thread and the checkpoint threads
--     interleave; Journal/Check is the replay of a journal.
--   Session: manager/session/session_impl.cpp, the numbers of the clients.
--   FileHandler: client/meta/file_handler.cpp, the open files by handle.
--   Path: client/util.cpp, the parent and the name of a path.
--   World: the memory of a client, the global objects of client/main.cpp and what comes from outside:
--     the clock, the random numbers, the manager, and the other clients (Outside).
--   DentryTable: client/in_memory/dentry_table.cpp, what a client holds of one directory. The
--     operations that reach inodes, the pool or another client, with client/meta/remote_inode.cpp,
--     are in DentryTable/Inodes.
--   DirectoryTable: client/in_memory/directory_table.cpp, the tables by inode number, with acquire()
--     of client/lease/lease_client.cpp; path traversal is in DirectoryTable/PathTraversal.
--   RpcMessages: client/proto/rpc.proto, the messages and the stub that gRPC makes of them.
--   RpcClient: client/rpc/rpc_client.cpp, the calls of a client on the leader of a directory: those
--     that the tables make, and the operations (Attributes, Entries, Files).
--   LocalOps: client/fs_ops/local_ops.cpp, the file system calls on a directory that this client
--     leads (Attributes, Files, Directories, Rename). LocalOps/Mirror says what the table of a
--     directory and its open transaction have in common, and LocalOps/Ready when a client is ready
--     for a call.
--   RpcServer: client/rpc/rpc_server.cpp, what the leader of a directory answers (Inodes, Entries,
--     Files).
--   RemoteOps: client/fs_ops/remote_ops.cpp, the file system calls on another client's directory.
--   FuseOps: client/fs_ops/fuse_ops.cpp, the calls of FUSE, which take the local or the remote
--     operation, and the loop that looks for the leader again (Attributes, Directories, Files,
--     Rename). MoveAcross has the move between two directories of this client, on the two halves of
--     LocalOps/MoveAcross.
--
-- Conventions. Numbers are natural numbers; a field of w bytes is written modulo 256 to the w, and a
-- theorem that needs a value to fit says so; a length that is read as a signed int has to be below 2 to
-- the 31, and a negative one ends the read. A name or a buffer is a list of bytes. A lock that a
-- function holds from end to end makes it one step. Log lines are left out. The text of an inode
-- number is boost's and a parameter, `to_string`.
--
-- Bounds and fuel. The loops of read(), write() and zerofill() run on a fuel of one round for each
-- object that the range touches and one more (`rounds`), which the theorems show to be enough. The
-- loops of stat(), remove() and truncate() end with the first object that is missing, which a cluster
-- does not bound, so their fuel is an argument. The loops of deserialize() run on the length of the
-- buffer, of which each round takes a byte at least, and that of path_traversal() on the length of
-- the path.
--
-- The loop around a remote operation ends when a leader is found, which nothing bounds, so its fuel is
-- an argument too.
--
-- Not modelled: the client's identity, which is getters, setters and a stub; the log and the start of
-- the two programs; gRPC, librados and boost themselves.
mod Prelude
pub mod Map
pub mod Codec
pub mod Uuid
pub mod Exec
pub mod Lease
pub mod Rados
pub mod Inode
pub mod Dentry
pub mod Transaction
pub mod Journal
pub mod Session
pub mod Path
pub mod FileHandler
pub mod DentryTable
pub mod RpcClient
pub mod RpcMessages
pub mod World
pub mod DirectoryTable
pub mod LocalOps
pub mod RpcServer
pub mod RemoteOps
pub mod FuseOps
