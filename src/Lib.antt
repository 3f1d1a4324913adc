-- ===== src/Lib.antt =====
-- Verification of teldrive (a Telegram-backed file store written in Go).
--
-- The parts of the program that are modelled, and how they interact:
--
--   A file is stored as a sequence of parts, each a Telegram message, and each encrypted on its
--   own where encryption is on. Upload reads a part's content through the encrypter of
--   internal/crypt/cipher.go. Download is FilesStream of pkg/services/file.go: it makes the head of
--   the answer from the file and the request's Range (internal/http_range/range.go), chooses a bot,
--   gets the messages of the file's parts (pkg/services/common.go) and copies what the reader of
--   internal/reader/reader.go delivers. That reader turns the byte range into ranges of the parts and
--   opens each part with a reader of aligned chunks, sequential (internal/reader/tg_reader.go) or
--   parallel (internal/reader/tg_multi_reader.go), whose chunk size internal/tgc/helpers.go computes,
--   and decrypts an encrypted part on the way with the seeking decrypter of internal/crypt/cipher.go.
--   Both talk to Telegram as one of the user's bots: internal/tgc/workers.go hands the bots out
--   in turn, internal/tgc/clientcache.go keeps their clients connected, and the middlewares of
--   internal/tgc/auth_recovery.go and internal/retry/retry.go deal with the errors of their
--   requests. A request comes through internal/middleware/scan_detector.go. pkg/services/upload.go
--   rotates through the bots until one of them uploads the part. The jobs of pkg/cron/cron.go remove
--   what was deleted or never finished, the messages first (DeleteMessages of internal/tgc/helpers.go).
--
-- Files:
--
--   Base          the shared names: tests on native numbers, lists, chunks, and the int64 as an
--                 unbounded integer (Base/Int).
--   Crypt         internal/crypt/cipher.go. Size: encrypted_size is EncryptedSize, decrypted_size
--                 DecryptedSize, calculate_underlying calculateUnderlying. Nonce: increment, add and
--                 carry are the methods of nonce. Io: read_fill is readFill over an io.Reader. Encrypt
--                 and Decrypt: the records Encrypter and Decrypter with one function per method (read,
--                 finish, range_seek, seek, close, un_finish, fill_buffer) and the constructors
--                 new_encrypter, new_decrypter and new_decrypter_seek. Format states the encrypted
--                 stream of a content independently of the encrypter.
--   Reader        Ranges: calculate_part_byte_ranges is calculatePartByteRanges of
--                 internal/reader/reader.go. Linear: the record LinearReader and its methods are those of
--                 LinearReader, over an interface PartReader for what reads one part. Linear/Plain fills it
--                 for parts that are not encrypted and Linear/Encrypted for encrypted ones: the two
--                 branches of getPartReader. Linear/Whole states what both have in common. TgReader: the
--                 record and read and next are tgReader, Read and next of internal/reader/tg_reader.go.
--                 Multi: internal/reader/tg_multi_reader.go as a step relation. A state has the slots of
--                 the window of chunks, with the goroutines that fill them, the goroutine of fillBuffer,
--                 the buffer channel, the context's cause and the caller of Read; Multi/Pieces names the
--                 pieces in order, Multi/Invariant relates a state to them. Location: chunkSource of the
--                 same file, with the cache of the part's location and the retry when Telegram's
--                 reference has expired.
--   Tgc           internal/tgc. Helpers: calculate_chunk_size is CalculateChunkSize of helpers.go.
--                 Workers: the record BotWorker with the methods of workers.go, as functions of the
--                 time; next is Next. AuthRecovery: handle is the middleware of auth_recovery.go, with
--                 the lists of blocked datacenters and bots behind it. ClientCache: the cache of connected
--                 clients of clientcache.go, whose requests and goroutines are steps in any order.
--                 Run: RunWithAuth of run.go, with the bots that it remembers as authorized.
--                 Deletion: DeleteMessages of helpers.go, with the error that its goroutines share.
--   Middleware    internal/middleware/scan_detector.go. record_request is recordRequest, scan_detector the
--                 handler of ScanDetector, and is_actual_streaming its test for a video's range.
--   HttpRange     internal/http_range/range.go. parse is Parse.
--   Retry         internal/retry/retry.go. handle is the middleware's Handle, delay its delay.
--   Services      pkg/services. Upload: rotate is the loop of UploadsUpload in upload.go through a
--                 user's bots, which calls Tgc/Workers for the next bot and marks it blocked there. Bots:
--                 how FilesStream in file.go chooses a bot whose session is valid; Fallback: how it goes on
--                 with other bots when that turns out wrong in the middle (serve). Parts: getParts of
--                 common.go over GetMessages of internal/tgc/helpers.go, whose batches arrive in any order.
--                 Stream: the head of FilesStream's answer and the copy of its content. Failure: the tests
--                 on errors of internal/tgc/auth_recovery.go and file.go.
--   Cron          pkg/cron/cron.go. clean_files is cleanFiles and clean_uploads cleanUploads, over the rows
--                 that the database lists, the answers of Telegram, and the runs of Tgc/Deletion.
--
-- Conventions:
--
--   Numbers are natural numbers; an int64 that may be negative is the unbounded integer of Base/Int,
--   and the theorems that are about the arithmetic itself bound the arguments so that no int64 wraps. A byte is a number below
--   256. A Go error is a value of the module's own type. A loop runs on structural recursion or on
--   fuel: drain and fill run on fuel, and their theorems say how much is enough; halve has fuel 11, and
--   ten rounds lead from 1 MiB to 1 KiB, where the loop stops; the retry loop has as much fuel as it
--   may make attempts.
--
--   What goroutines share is changed by steps, one for each action on a channel, a context or a shared
--   variable, and a run is any sequence of steps. The steps of a goroutine that touch nothing shared are
--   part of the step before them.
--
--   A time is a number of nanoseconds, and each read of the clock is an argument; in the loops of
--   Services that try bots, one turn's reads after the bot was chosen share a time. A Go map is a
--   function of the key, with none for a missing key.
--
-- Parameters:
--
--   The secretbox of golang.org/x/crypto is a record with seal, unseal and the laws that its
--   documentation states (Crypt.Format). The chunk source (Telegram's upload.getFile) is a record of
--   functions, whose contract Reads says that it serves the bytes of one file. For the parallel reader the
--   contract MayFail also lets any chunk fail or be cut short. An io.Reader is the
--   sequence of the pieces that it delivers and the error at its end, which comes alone
--   or with the last piece. What the clients of Telegram,
--   the database and the clock answer is a record Environment of the module that asks them.
--
-- Not modelled: mutexes and buffer pools (a method is one step, also where it holds only a read lock,
-- as IsDCBlocked does), logging, metrics, the routing of HTTP, the queries of the database and the
-- Telegram protocol. Of pkg/services the files, folders, users, sessions and shares that a handler
-- reads or writes with one query each, and the look-up of a stream's session; of internal/tgc the
-- channel manager, whose decisions rest on Telegram's limits; of internal/cache the stores, which are
-- wrappers; and isMetadataRequest of the scan detector, which nothing calls.
pub mod Base
pub mod Cron
pub mod Crypt
pub mod HttpRange
pub mod Middleware
pub mod Reader
pub mod Retry
pub mod Services
pub mod Tgc
