-- ===== src/Lib.antt =====
-- sharm: a server that takes media uploads, converts them with ffmpeg and shares them.
--
-- The program. An upload becomes a row of the table of media, with a variant and a job for each codec
-- it is to be converted to (internal/service). Workers claim jobs from the queue in the database,
-- run ffmpeg on the file, record the variant, and once all variants of a media are done or failed
-- they settle the status of the media; progress is published on an event bus. Requests pass the
-- security headers and the tokens against forgery, most of them the login too; logins are throttled.
--
-- What models what.
-- - Domain: internal/domain. Structures are records, the string types with fixed values are data
--   types, a codec is its string. Domain.Variants has the methods of `Media` that read its variants,
--   Domain.Accept the choice by an Accept header, Domain.Extensions DetectMediaType, Domain.Probe
--   the result of ffprobe, Domain.Errors the errors and their texts.
-- - Store: internal/adapter/storage/sqlite and its sqlitedb. A table is a list of rows in the order
--   of insertion, a statement of the generated queries is a function on the tables (select_one,
--   select, update_where, delete_where, order_by are the forms of SQL it uses), and each method of
--   store.go and jobqueue.go is a function on `Db`, named as in Go. Errors of constraints carry one
--   generic text. `now` stands for datetime('now') and CURRENT_TIMESTAMP.
-- - World: what the services act on, and the monad of their steps. Calls that leave the process may
--   fail: `outcomes` lists how the next ones end, so a theorem over every world speaks of every
--   pattern of failures. Commands, removed files and published events are recorded in order.
-- - Converter: internal/adapter/converter/ffmpeg/converter.go.
-- - Worker: internal/service/worker.go. Worker has what the handlers share and the legacy
--   conversion, thumbnail and probe, Worker.Convert the conversion of one variant, Worker.Process
--   processJob. Worker.Kept says once what each step needs to keep for the worker to keep it.
-- - MediaService: internal/service/media.go. MediaService itself has what is read, deleted and
--   cleaned up, MediaService.Upload the way of a file to a media with its variants and jobs.
-- - EventBus: internal/service/eventbus.go, over numbered channels with buffers; the services and
--   the worker see the list of published events in `World` instead.
-- - Auth: internal/service/auth.go. Auth itself has the session tokens, Auth.Accounts the account
--   and its password. `Crypto` and `Unicode` are what they take from outside.
-- - RateLimit: internal/adapter/http/ratelimit. RateLimit.Login is login.go, with the histories of
--   its methods in RateLimit.Login.Events, RateLimit.Tracker the counter of backoff.go.
-- - Http: internal/adapter/http. A handler is a function of the request and an `Exchange`: the world of
--   the services, the limiter, the counter of failures, the files of chunks, and the calls that were
--   made on the response writer, in order (Http.Exchange). Http.Auth is auth.go, Http.Middleware
--   the middleware and Server.ServeHTTP, Http.Validation the checks of files and names; of
--   handler.go, Http.Media and Http.MediaTypes have the public files, Http.Pages the status and
--   the removal, Http.Chunks and Http.Chunks.Complete the upload in chunks, and Http.Upload that in
--   one request and the probe of a file. Http.Events is sse.go, Http.Events.Client and
--   Http.Events.Display what a client makes of its stream; its loop takes the list of what `select`
--   picks. A handler is written from its end to its beginning: each function is what follows one
--   call that may fail.
-- - Logger: internal/infrastructure/logger/sanitize.go.
-- - Common and Golang: lists, strings of bytes, maps as functions, and the functions of Go's
--   standard library that the code calls (path/filepath, strconv, strings and unicode/utf8).
--
-- Numbers. Sizes, dimensions, counts and times are natural numbers, times in nanoseconds since the
-- zero time of Go; the counters of Go's int are not bounded here, since reaching the bound takes more
-- attempts or jobs than a process can see. Loops are over lists; only the printing of a number runs
-- on fuel, one more than the number, which is at least the number of its digits.
--
-- The outside. What ffprobe prints, as it is parsed, and the sizes of files are parameters (`Files`),
-- and so are bcrypt and the signature of a token (`Crypto`) and the classes of runes (`Unicode`).
-- So are the texts that SQLite compares when it looks for expired media (`Times`): what the driver
-- stores for a time, and datetime('now'). What os.Remove does to a file is only recorded. A panic is
-- an outcome of its own, since nothing in a worker recovers from it.
--
-- Of the HTTP side: HMAC, base64 and random bytes (`Csrf`), DetectContentType, strconv.Quote, the
-- numbers of floating point (`Floats`), the calendar and random names of Upload (`Uploads`), the
-- backoff and the verb %.0f (`Settings`), and the text of a template in sse.go are parameters. A
-- panic in a handler ends its exchange.
--
-- Not modelled: that the loop of server-sent events subscribes before it and unsubscribes after it,
-- which the histories of EventBus stand for, and that it flushes what it has written; the table of
-- routes, the templates, configuration and logging, which hold no logic of their own; and what
-- computes in floating point (FormatDuration, Backoff.Duration).
pub mod Common
pub mod Golang
pub mod Domain
pub mod Store
pub mod World
pub mod Converter
pub mod Worker
pub mod Auth
pub mod EventBus
pub mod Http
pub mod Logger
pub mod MediaService
pub mod RateLimit
