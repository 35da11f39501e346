-- ===== src/Lib.antt =====
-- Content Fabric: a system that publishes videos to YouTube channels. The API takes tasks, users and
-- schedule templates; a scheduler polls the database for due tasks, and puts jobs into Redis queues;
-- workers take the jobs, upload the videos, and process audio; live streams run as systemd units.
-- Everything modelled here is Python code under prod/.
--
-- Base, Table and Text are the shared ground: Boolean tests and lists over the native numbers, a
-- database table as the list of its rows with the statements SELECT, UPDATE, DELETE and ORDER BY, and
-- Python's str as the list of its code points with decimal numbers. Json is a decoded JSON column.
--
-- Tasks: prod/shared/db/models.py and prod/shared/db/repositories/task_repo.py. Tasks.Repo and
--   Tasks.Insert have one function for each operation that writes, by the name in the source, from
--   the database to its result and the database after; Tasks.Queries has the queries; Tasks.Invariant
--   has all requests as one type, and what every sequence of them keeps.
-- Channels: channel_repo.py and console_repo.py. Channels.Repo adds and changes channels under the unique
--   key of the table; Channels.Credentials is credential_repo.py, with the store of logins that it
--   stands for in Channels.Credentials.Store.
-- Users: user_repo.py, with Users.Access for prod/app/core/auth.py.
-- Api: prod/app/schemas/task.py, and the handlers of prod/app/api/endpoints/tasks.py and of
--   channels.py that change tasks, over Tasks and Users. `Reply` is a response or an HTTPException.
--   Api.Channels: the other handlers of channels.py, with prod/app/schemas/channel.py,
--   prod/app/services/youtube_validator.py and prod/app/repositories/channel_repository.py.
-- Ingestion: prod/shared/ingestion/dle and prod/workers/dle_ingestion_worker.py. Xfields reads the extra
--   fields of a post, Client the rows of a source, Sources builds the URL of a cover, and Pipeline makes
--   a task and a job of each post that was not ingested before. That is looked up with LIKE in the JSON
--   text of the tasks, so Json.Dumps prints as json.dumps does, and Text.Like is LIKE.
-- Auth: prod/app/core/tokens.py and prod/app/api/endpoints/auth.py, over Users. The record Crypto
--   stands for passlib, pyotp and PyJWT.
-- Portal: the settings page of prod/app/views/app_portal.py, over Users and Auth.
-- Templates: template_repo.py and prod/app/api/endpoints/templates.py.
-- Queue: prod/shared/queue/types.py and publisher.py. Redis is a test that says which jobs it takes; a
--   job that it does not take is an exception.
-- Scheduler: prod/scheduler/jobs.py and run.py. Poll is enqueue_pending_tasks, Cron the timetable,
--   Tokens validate_channel_tokens, Reconcile reconcile_streams, and Run the main loop. Time is a
--   number of seconds, or a date with an hour and a minute for the timetable.
-- Youtube: prod/shared/youtube/upload.py, client.py and token_refresh.py. The record Google stands for
--   google-auth and googleapiclient; it answers each call of next_chunk with an id, a response that
--   has none, or an exception. Since the client uploads with chunksize=-1, no call returns with the
--   upload half done.
-- Workers: the voice worker, the DLE processor worker, the Sora worker and the shorts worker of
--   prod/workers. The voice changer, DleProcessor.process_task, the download of a video and the tools that
--   cut it are arguments. Workers.Shorts reads the answer of prod/shared/shorts/highlight.py as well.
-- Speech: _chunk_text of prod/shared/tts/openai_tts.py, with its regular expression as a scan of the
--   text, and its slices on the length of the sentence as fuel, which is enough as a slice is not
--   empty.
-- Streams: prod/shared/streams/lifecycle.py, systemd_manager.py and the handlers of
--   prod/app/api/endpoints/streams.py. The record Host stands for systemd and YouTube, whose answers
--   may depend on all that was run before; the calls made of them are kept as lists, the latest first.
--   Streams.Provision: provisioner.py and runner_template.py, over a disk that is a function from paths
--   to files. Streams.Create: the handler that creates a stream, under the unique key of the table
--   (database/DDL/streaming/live_stream_configurations.sql).
--   Streams.Worker: prod/workers/stream_worker.py.
-- Inbox: prod/shared/db/repositories/notification_repo.py, the table of notifications by itself.
-- Voice: prod/shared/voice/parallel.py. The order in which the worker processes finish is a relation
--   between the futures that were started and the list in which they complete; librosa's audio is the
--   list of its frames, and the record Pydub stands for pydub, whose lengths are named hypotheses.
-- Tests: concrete runs.
--
-- Two functions run on fuel: those slices, and the digits of a number n, with n + 1 steps, since every
-- digit makes n smaller until it is below ten. The other loops of the source go over lists, or have a
-- number of attempts, on which the model recurses (2 attempts of an upload, 3 retries of a request, 3 of the voice job).
-- What one operation reads and writes is one step: transactions that interleave within an operation
-- are not modelled, nor are errors of the database other than a broken unique key. MySQL compares
-- texts under a collation, which is a parameter for channels, streams and ingested posts; the
-- names, addresses and tokens of users, the logins and the ids of Sora posts are compared for
-- equality. Logs, metrics, audit entries, rate limits, trace ids of jobs, delays and the text of
-- HTTP errors are left out. So are the other pages (prod/app/views), the download and assembly of a
-- DLE book, the numeric work on voices, the browser driver of the re-authorization, and the command
-- line tools.
pub mod Base
pub mod Table
pub mod Text
pub mod Json
pub mod Channels
pub mod Tasks
pub mod Users
pub mod Api
pub mod Auth
pub mod Youtube
pub mod Queue
pub mod Scheduler
pub mod Workers
pub mod Speech
pub mod Ingestion
pub mod Templates
pub mod Voice
pub mod Inbox
pub mod Portal
pub mod Tests
pub mod Streams
