-- ===== src/Lib.antt =====
-- La Liga De La Justicia: a remote file system with a cache.
--
-- The repository has three programs. rfs is the server: it maps an ext2 volume into memory and
-- answers requests about its files. fsc is the client: a FUSE file system whose operations become
-- requests to the server. rc is a storage engine for memcached, with which the client caches. The client
-- and the server exchange messages of a type, a length and a payload.
--
-- Files and the code they model:
--   Base.antt and Base/: names of the libraries passed on, tests on numbers, lists over the native
--     numbers, arithmetic, signed counters.
--   Rfs/Geometry.antt and Rfs/Geometry/: rfs/source_RFS/ex2_block_types.c with
--     rfs/headers_RFS/ext2_block_types.h. The superblock's constants, sizes, sparse groups, and which
--     group an inode stands in. `Geometry` is the struct Superblock_constants.
--   Rfs/Coordinates.antt and Rfs/Coordinates/: find_block_coordinates of
--     rfs/source_RFS/file_operations.c, which says in which of an inode's pointers and indirect blocks
--     the n-th block of a file is found.
--   Rfs/DataBlocks.antt and Rfs/DataBlocks/: Inode_Get_Data_Adressess and the reading of indirect blocks
--     in ex2_block_types.c.
--   Rfs/Bitarray.antt: the bit arrays of the commons library as an interface with its laws.
--   Rfs/Image.antt: the mapped volume as the allocator sees it.
--   Rfs/Alloc.antt and Rfs/Alloc/: Get_Free_Blocks, Get_Free_Inodes, CleanBlocks, setFreeBlockBitmap and
--     setFreeInodeBitmap of rfs/source_RFS/server_threading.c, with the searches inside a group from
--     ex2_block_types.c. They call the bit arrays through the interface and the geometry as arguments.
--   Rfs/BlockCache.antt, Rfs/BlockCache/Keys.antt: the server's cache of file blocks in
--     rfs/source_RFS/file_operations.c, over memcached as an interface.
--   Rfs/ReadFile.antt, Rfs/WriteFile.antt and their children: read_file and write_file. Rfs/Inode.antt: the inodes of new
--     and deleted files. Rfs/Remove.antt and Rfs/Remove/: Remove_Block and Remove_Blocks. Rfs/Attach.antt and
--     Rfs/Attach/: Attach_Blocks. Rfs/Truncate.antt and Rfs/Truncate/: truncate_file. Rfs/Directory.antt and
--     Rfs/Directory/: the entries of a directory, in read_directory, attach_entry and delete_entry. Rfs/Paths.antt
--     and Rfs/Lookup.antt with their children: split_path, search_in_directory and inode_of_file.
--     Rfs/Operations.antt and Rfs/Operations/: delete_dir, delete_file, create_file_dir with the whole of
--     attach_entry, list_directory, getattr and open_file, from the inodes that were found on. All in
--     rfs/source_RFS/file_operations.c.
--   Server/Strings.antt, Server/ActiveFiles.antt and Server/ActiveFiles/: the list of files in use of
--     rfs/source_RFS/server_threading.c. Server/TaskQueue.antt, Server/TaskQueue/Order.antt: s_queue_t there.
--   Server/Tasks.antt, Server/Tasks/Requests.antt: the switch of rfs/main.c and the functions generar_task_… of
--     rfs/source_RFS/procesador_de_pedidos.c, on the messages of Wire. Server/Answers.antt: the functions
--     …_response there, by the type of the answer.
--   Client.antt: the requests of fsc/sources_FSC/operaciones_fuse.c. Client/Cache.antt, Client/Coherence.antt: what
--     its operations do with an answer, and the keys of fsc/sources_FSC/manejador_memcached.c. Client/Listing.antt,
--     Client/Session.antt: the operations that look into the cache first.
--   Rc/Store.antt: the nodes of rc/headers/diccionario.h on a heap, and the commands that read and write
--     them. Dereferencing NULL is an outcome, as is running out of fuel.
--   Rc/Dictionary.antt: rc/source/diccionario.c; Rc/Dynamic.antt: rc/source/diccionario_dinamicas.c;
--     Rc/Buddy.antt: rc/source/diccionario_buddy.c; Rc/Engine.antt: rc/source/justice_engine.c, which
--     calls one of the two schemes. The names are the code's, without `diccionario_` and
--     `justice_engine_`.
--   Rc/Chain.antt, Rc/Oldest.antt, Rc/Victim.antt: the list as it stands on the heap, and the searches
--     along it. Rc/Tiles.antt, Rc/Steps.antt, Rc/Split.antt: the elements as a division of the memory,
--     and the cut of an element in diccionario_obtenerDireccion. Rc/Halving.antt: agregarHijosDePadre.
--   Wire/Bytes.antt, Wire/Messages.antt, Wire/Replies.antt: fsc/sources_FSC/serializadores.c for what the
--     client writes and reads, and rfs/commons/serializadores.c for the server. Wire/Frames.antt,
--     Wire/Requests.antt, Wire/Answers.antt and Wire/Directory.antt: what one side writes, the other
--     reads.
--   Tests.antt and Tests/: the theorems at concrete inputs.
--
-- Numbers are natural numbers; the counters of the volume wrap at 2 ^ 16 and 2 ^ 32 where the code's
-- types do. The loops of the allocator are bounded by the number of groups and the size of a bitmap, and
-- recurse on what is left. The loops of the cache follow pointers, so they run on fuel; one more than
-- the number of listed elements is enough for the searches. Loops that allocate also retry, and their
-- fuel bounds the tries. The loops over the entries of a directory run on rounds, and a block that is a chain of
-- entries needs no more of them than it has bytes; attach_entry calls itself once for each block that it adds.
--
-- Each allocation of the server runs under the mutexes of its group and of the superblock, so it is
-- modelled as a single step. So are the operations of the cache: allocate, get, delete, flush and the
-- deletion in release hold its lock; store and get_item_info do not, and what may come between their
-- reads and writes is not modelled. The lists that the threads share are step relations: a step is what a
-- thread does while it holds the lock, and the steps of all threads come in any order. Counts of operations in
-- progress stay below 2 ^ 32, which is more than the threads that there can be.
--
-- CleanBlocks reads behind the array that it is given. The model has the word that stands there as a parameter and takes
-- the word after it to be 0: where it is not, the code wipes blocks that the heap happens to name, or leaves the
-- mapping. An operation of the client is one step, and so a session has one operation after the other. A block of a
-- directory is a function from offsets to entries, so that a copy between overlapping entries is that of memmove.
--
-- Not modelled: the sockets, the configuration and the logs, and the threads of the server that synchronise the
-- volume and watch the configuration file. The commons library and memcached are code of others.
mod Base
pub mod Rfs
pub mod Rc
pub mod Wire
pub mod Server
pub mod Client
mod Tests
