-- ===== src/Lib.antt =====
-- A FAT file system, an FTP server and an NFS server (repository LLP_filesystem), modelled and
-- verified.
--
-- The program has three parts that share no code: FAT/fat.c, a FAT file system on one disk file,
-- served through FUSE; FTP/ftp_server.c; and NFS/, a read-only NFS 3 server. `Calls` has what the
-- models of the two servers share: runs that carry the calls made so far.
--
-- FAT/fat.c. `Fat.State` has the globals (superblock, table, disk file) as the record `Fs` and
-- the monad of commands over it; a run returns, fails an `assert` (aborted), leaves the bounds of
-- an object (fault) or runs out of fuel. `Fat.Bytes` is memory, `Fat.Cluster` the transfers of
-- clusters, `Fat.Table` the allocation table, `Fat.Free` the free list, `Fat.Path` the path
-- strings, `Fat.Entry` the directory entries in a buffer, `Fat.Dir` directories, `Fat.File`
-- update_file, `Fat.Init` mounting and `Fat.Ops` the FUSE operations, with `Fat.Reading` for the
-- theorems on fat_read; functions keep their names. A C loop is a function of its own over its
-- variables. A result -1 of a search is `none`, and out-parameters are returned. `Fat.Mounted`
-- states what a mounted file system is, with the constants that init_superblock sets, and chains
-- of clusters; `Fat.Durable` that the disk file holds what the memory holds; the modules below
-- the components hold their theorems.
--
-- Fuel. A walk along a chain gets one round for each cluster of the disk: a chain that ends
-- visits no cluster twice (`Fat.Table.Bound`), so this is enough. A loop over the entries of a
-- cluster has its number of rounds from its bounds. A cyclic chain, on which the code does not
-- return, runs out of fuel.
--
-- Environment. pread and pwrite transfer whole counts inside the file, or return -1 on a failing
-- device; calloc succeeds, and the heap bytes behind a cluster buffer, which the scans over
-- entries read, are a parameter of the state; time(NULL) is a field of it. A name that fills the
-- 22 bytes of its array without a NUL, which no operation writes, ends with the array. The
-- `filler` of FUSE is an argument. Not modelled: fat_destroy, main and the stdio calls.
--
-- FTP/ftp_server.c. `Ftp.System` has the system calls as a data type, and a monad whose state is
-- the history of the calls: the operating system is any function from a history to the answer of
-- its newest call. `Ftp.Data` has the listings, the data sockets and the transfers, `Ftp.Session`
-- a function for each command of handle_ftp_commands, and `Ftp.Dispatch` the choice of the
-- command, the loop and a round of main. A write outside of an array, and `free` of a literal, is
-- `fault`. The loops that read until the peer or the directory ends take fuel, since the system
-- decides how long they run: a round for each block or entry, and one for the end.
-- `Ftp.Words`, `Ftp.Transfers`, `Ftp.Replies` and `Ftp.Sockets` have theorems. Not modelled: the
-- start of the server, its signal handler and what it prints.
--
-- NFS/. `Nfs.Types` has the structures of NFS/nfs.h, a union being a record with a field for each
-- member: where the code writes to one member, the other is not read before it is written again.
-- A handle or another counted array is its length and the memory behind its pointer, and a string
-- is NULL, one that the program owns, or one in the buffer of a directory stream. uint32 is
-- u_long, of 64 bits. `Nfs.Xdr` has the routines of NFS/nfs_xdr.c over a record of the routines
-- of the RPC library, which return a Boolean, the object and the stream: `Nfs.Xdr.Basic`,
-- `Nfs.Xdr.Results` and `Nfs.Xdr.Listing` are the code, `Nfs.Xdr.Laws` what is relied on of the
-- library: a Boolean travels as 0 or 1, a string up to its NUL, and memory is allocated only
-- behind a pointer that is NULL, as the arguments of a request are after the memset of
-- NFS/nfs_svc.c. `Nfs.Xdr.Sends` has the rules for what a routine sends, and the modules beside
-- them the round trips; `Nfs.Memory` is a library with these laws. `Nfs.System` has the calls to the
-- system and to the transport, `Nfs.Tools`, `Nfs.Read` and `Nfs.Server` are NFS/tools.c,
-- NFS/read.c and NFS/nfs_server.c, and `Nfs.Dispatch` is NFS/nfs_svc.c. The static result of a
-- procedure is passed in and returned. A use of memory outside of an object is `fault`. The
-- routine of a linked list and the loop over a directory take fuel, a round for each entry and,
-- for the loop, one for the end. `Nfs.Handles`, `Nfs.Decoded`, `Nfs.Lookup`, `Nfs.Refused`,
-- `Nfs.Listing`, `Nfs.Reading`, `Nfs.Copies`, `Nfs.Encoding`, `Nfs.Serving`, `Nfs.Requests` and
-- `Nfs.Startup` have theorems. Not modelled: what is printed, free, and the loop of svc_run.
pub mod Base
pub mod Calls
pub mod Fat
pub mod Ftp
pub mod Nfs
