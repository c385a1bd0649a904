-- ===== src/Lib.antt =====
-- A verification of arcrelay-protocol, the server side of a remote-control protocol.
--
-- The program. Devices connect to a host over authenticated connections and send requests. A
-- command carries an idempotency key: its response is kept, and a repetition is answered from what
-- is kept or waits for the command that is running. One client at a time controls the keyboard and
-- the pointer, under a lease. Blobs are fetched and uploaded on streams of their own, and so are files
-- of the shares that a device was granted. Everything a device can make the host keep has a budget.
--
-- The files and the code they model, by its path from the repository's root:
--   Prelude       shared types and lemmas: maps, counters, lists, texts, machine integers
--   CommandCache  src/server/command_cache.rs, `CommandCache` and all its methods
--   Commands      src/server/proto_handler/requests/control.rs, the command arm of `handle_request`
--                 with `cached_command_frame`, `response_frame_for_request` and `response_error`
--   Status        the same file, `status` and `ok_status`
--   Text          src/server/proto_handler/requests/commands.rs, `truncate_utf8` and
--                 `bounded_action_output`
--   InputSession  src/server/input_session.rs, `InputSessionManager` and all its methods; the
--                 frames of a client in Frames, the events of a batch in Normalize; what the
--                 connections do with the manager and the host's input, in Host:
--                 src/server/proto_handler/input.rs (the begin of a session, the loop of a reliable
--                 stream), input/events.rs (`end_input_lease_locked`), src/server/proto_handler.rs (the
--                 tick of the lease, a lost workspace route, the end of a connection)
--   BlobStore     src/server/blob_store.rs, all of it; `insert`, `issue_ticket` and `redeem` stand
--                 in Operations
--   ClipboardUpload  src/server/clipboard_upload.rs, all of it
--   ConnectionRegistry  src/server/connection_registry.rs, all of it
--   Negotiation   src/server/proto_handler/requests/control.rs, `negotiate_features`,
--                 `protocol_limits` and `validate_receive_limits`
--   SyncRecord    the same file, `validate_clipboard_sync_record` and `valid_clipboard_blob_ref`
--   Authorization  the same file, `authorize_query`, `authorize_command` and their checks, and the arm
--                 of `handle_request` that issues blob tickets; src/clipboard_replication/collections.rs,
--                 `decode`. Needs is a table of what each request needs, apart from the
--                 code, which Refusals and Decisions compare with it
--   BlobStreams   src/server/proto_handler/input.rs, `handle_blob_stream` and
--                 `handle_clipboard_blob_upload`
--   RemoteFiles   src/remote_files.rs, all of it: grants, paths, requests, responses and their coding;
--                 src/server/proto_handler/input.rs, `handle_remote_file_stream`, in Server
--   StateQueue    src/server/proto_handler.rs, `LatestStateQueue`
--   ActionGap     the same file, `ActionGap`
-- The parts meet in Commands, which keeps a CommandCache and its running commands, and in
-- InputSession.Host, where all connections share one manager and the input of one host. A ticket that
-- Authorization.Blobs has BlobStore issue opens a download of BlobStreams, and an upload of BlobStreams
-- ends in ClipboardUpload. RemoteFiles.Server decodes a request, checks the grants and calls the provider.
-- ConnectionRegistry, StateQueue and ActionGap are called by the connections' tasks, one call at a
-- time.
-- In a component, the file of its name has the state and the operations, the files below it have the
-- proofs, and Examples has runs at concrete inputs. The functions keep the code's names.
--
-- How the code is read. A method on `&mut self` takes the state and returns it with its result; a
-- section under a lock is one function, and other sections may come between two of them. The
-- clock is an argument, in milliseconds, and so are random draws. A `Vec<u8>` or a `String` is the
-- list of its bytes. A `HashMap` is an association list with one entry for a key; where the code
-- walks over one, its order is that of the list. A `usize` sum that the code saturates or lets wrap
-- is written so, for 64 bits. Errors are values. `expect` that fails is `none`.
--
-- Fuel. The loop of `enforce_device_limits` over one device takes a key off the insertion order in
-- each round, so its fuel is the length of that order. The loop that sends a blob moves on by at least
-- one byte in each round, so its fuel is the length of the blob. The other loops are structural.
--
-- Parameters. The encoded length of a message (prost), SHA-256, the gestures (arcrelay_core), the
-- sizes of the wire format and the numbers of the features and enums (arcrelay_wire), the coding of
-- a message (prost), the input control and the workspace router of the host, the tokens of
-- capabilities, what serde reads as a collection, the outcome of a
-- command, and what the provider of remote files, the file system and the transport answer are
-- arguments.
--
-- Not modelled: sockets, QUIC and task start-up (src/server.rs, lifecycle.rs, wire.rs), the traits of
-- the host (types.rs), conversions to protobuf types (proto_msg.rs, snapshots.rs, queries.rs), the
-- prefaces of streams, the conversion of input events and the frames that answer them
-- (proto_handler/input.rs, events.rs), subscriptions but for the queue of latest states and the gaps,
-- clipboard replication but for the checks of a record and a collection, and manifests (src/product.rs).
-- A ticket's chunk size and wall-clock expiry are left out, and so are time limits of streams, log lines, the numbers in two
-- messages of an upload, and the notifications that wake a waiting task.
pub mod Prelude
pub mod CommandCache
pub mod InputSession
pub mod Text
pub mod RemoteFiles
pub mod StateQueue
pub mod Status
pub mod SyncRecord
pub mod Commands
pub mod ActionGap
pub mod Authorization
pub mod Negotiation
pub mod BlobStore
pub mod BlobStreams
pub mod ClipboardUpload
pub mod ConnectionRegistry
