-- ===== src/Lib.antt =====
-- The workspace service: files, Git folders and notebook sessions of a tenant's workspace, over a
-- mounted file system. Requests carry an identity; the services check it, resolve the paths of the
-- request below the directory of the user, and call the storage and Git clients. A write to the
-- storage stands inside a write-ahead intent, and a scan at start-up settles what a crash left.
--
-- The files, and the code that they model (paths from the repository's root):
--   Base, Base/*      lists, texts and maps; the functions of package strings that are called
--   Errors            Go errors: the message, the sentinels that errors.Is finds, and APIError
--   FilePath          path/filepath on Unix (Clean, Join, Base, Dir, Rel) over lists of elements
--   Identity          internal/domain/identity/context.go
--   File              internal/domain/file: node types, intents, and the interfaces of the stores
--   FileInfo          internal/domain/fs/fs.go
--   Mount             cleanMountRoot and userRootAbs
--   Memory            internal/infra/persistence/memory
--   Calls, Os         calls of a client, and what is asked of the operating system's files
--   FsService         internal/usecase/fs: Resolve and Service (service.go), Recorder (recorder.go),
--                     Recovery (recovery.go), Operations (operations.go, recycle.go, tree.go); there
--                     Fence is a storage client that refuses paths outside of a directory, and new
--                     names that lead out of it when it is strict, and Scope compares the requests
--                     over it
--   InodeRecord       RecordInode of internal/infra/fs/inode_record.go
--   Storage           internal/infra/fs: the paths of the trash (trash.go), Enrich (enrich.go; Many has
--                     its lists), Writes, Trash, Reads and Emptying (workspace_fs.go, inspector.go);
--                     Atomic, Names, Places, Parents, Twice and Refusals, and Alike, Chain, Cage and
--                     Confined below them, are about them
--   GitClient         internal/domain/git/git.go
--   GitService        internal/usecase/git: Requests, Operations (service.go, operations.go, stage.go),
--                     Folder (clone_jobs.go, git_folder.go); Fence, Scope and Confinement as above
--   WorkspaceGit      internal/infra/git: git_meta_path.go, workspace_git_client.go, and DeleteRepo of
--                     operations.go; Places is about the paths
--   Gateway           internal/domain/gateway/gateway.go
--   GatewayClient     internal/infra/gateway/client.go: Paths, Operations, and Transport, which retries
--   Http              internal/adapter/http: responses, bodies (req/fs.go, req/git.go) and the identity
--                     of a request; FileHandlers, GitHandlers and GatewayHandlers (handler/fs.go,
--                     git.go, gateway.go); Router (router/router.go) has a request of a service by its
--                     route, and FileScope, GitScope, FileRefusals, GitRefusals and StorageFaults are
--                     about all routes
--   Sessions          internal/domain/session/session.go; Store (the session store of
--                     internal/infra/persistence/memory), Persisting
--                     (internal/infra/gateway/persisting_gateway.go)
--
-- Texts are lists of code points, of valid UTF-8. Numbers are natural numbers: the counters of the
-- source (seq, attempts, the totals of a scan) are int and int64 and are not wrapped around, since
-- each grows by one for a call; inodes are uint64 and are only compared and printed (20 digits are enough for 2 ^ 64). A method with a
-- receiver that it changes is a function from state to state. A store is a record of functions on a
-- state W, so that the recorder and the recovery scan are about every store; World is the state of a
-- process with the stores in memory, whose clock goes on with every change of an intent: the storage
-- and the context of a scan are functions of the time. What the program gets from outside (the time, a random id, the
-- home directory, the answers of the storage) are arguments.
--
-- The outer loop of Recover runs on fuel: one more than the number of pending intents is enough,
-- since a round that goes on has settled one.
--
-- The background clone of a Git folder is a list of goroutines beside the registry of jobs: Reached
-- is every machine that requests and single steps of goroutines lead to, in any order.
--
-- A request over HTTP is what gin has read of it: the decoded body or nothing, the headers, and its
-- id. The transport to the gateway retries on fuel, which is the configured number of retries.
-- The loop of GetFolderNodePath that climbs to the directory of the user runs on fuel, one more than
-- the length of the path: every round makes the path shorter.
--
-- Not modelled: wire formats, logging, locks (each operation of a store is one step), the database
-- driver, and the parts that PROJECT.json lists so.
pub mod Base
pub mod Errors
pub mod Calls
pub mod FilePath
pub mod Identity
pub mod File
pub mod Mount
pub mod FileInfo
pub mod Memory
pub mod FsService
pub mod Os
pub mod InodeRecord
pub mod GitClient
pub mod GitService
pub mod Storage
pub mod Gateway
pub mod GatewayClient
pub mod Http
pub mod WorkspaceGit
pub mod Sessions
