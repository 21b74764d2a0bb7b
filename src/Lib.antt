-- ===== src/Lib.antt =====
-- Morok Relay, the store-and-forward server of an encrypted messenger (morok_relay/).
--
-- The relay keeps envelopes for their recipients: metadata, queues and counters in Redis, and one
-- encrypted file for each envelope. This library models the components that carry its logic:
--
-- - morok_relay/queue.py is Queue. `Queue.Model` has the constants, the metadata and the events,
--   `Queue.Scripts` the two Lua scripts, `Queue.Enqueue` enqueue_envelope and
--   write_blob_then_enqueue, `Queue.Fanout` enqueue_envelope_for_recipients and the events to many
--   channels, `Queue.Inbox` the readers and mark_mail_seen, `Queue.Ack` acknowledge_envelope and
--   `Queue.Delete` the three deletions. The other modules under Queue are proofs.
-- - morok_relay/blob_storage.py is Blob.
-- - morok_relay/rate_limit.py is RateLimit: `RateLimit.Identifier` get_ip_from_request,
--   `RateLimit.Check` check_rate_limit with the in-process fallback and the layers for Tor,
--   `RateLimit.Depends` the dependencies of the routes, and `RateLimit.Slots` the connection slots of
--   the WebSocket.
-- - morok_relay/sensitive_action.py is SensitiveAction.
-- - morok_relay/sessions.py is Sessions, with the format of a session's value in `Sessions.Value`.
-- - morok_relay/burner_tokens.py is `Tokens.Burner` and invite_tokens.py is `Tokens.Invite`;
--   `Tokens.Shelf` has the loop over a set of tokens that both contain. api/burner.py is
--   `Tokens.Burner.Endpoints`.
-- - the dead man's switch is Dms: the rows of models.py and the transaction of db.py in Dms.antt,
--   the request of schemas.py in `Dms.Requests`, dms_liveness.py in `Dms.Liveness`,
--   get_current_session of deps.py in `Dms.Session`, api/dms.py in `Dms.Endpoints`, and
--   scripts/dms_reaper.py with reap_terminal_dms of cleanup.py in `Dms.Reaper`.
-- - the passes of scripts/reaper.py over the files are Reaper.
-- - relay to relay is Federation: the rows of models.py and the requests in Federation.antt, the
--   worker of the outbound queue (scripts/federation_worker.py) in `Federation.Worker`, and
--   federation_client.py in `Federation.Client`, with the pattern of its hosts in
--   `Federation.Hostname`. Of api/federation.py, `Federation.Peers` has the handshake and the checks
--   of a forwarding relay, `Federation.Events` the signed deletions with their guard against replays,
--   `Federation.Receipts` the read receipts, and `Federation.Forward` the whole of _forward_impl.
--   verify_envelope_signature of crypto.py is `Federation.Envelopes`, the checks of a group message
--   are `Federation.GroupEnvelopes`, and _cache_remote_user of api/users.py is
--   `Federation.Accounts`.
-- - api/messages.py is Messages: send_envelope in `Messages.Send`, the inbox in `Messages.Inbox`,
--   post_read_receipts in `Messages.Receipts` and delete_dm_message in `Messages.Delete`.
--   api/sealed.py is Sealed.
-- - api/auth.py is Auth: the login by a signed challenge in Auth.antt, and the log of logins with the
--   salt of the day in `Auth.Log`.
-- - the names of users in api/users.py are Users: the handlers in Users.antt, and the checks of
--   schemas.py in `Users.Name`.
--
-- The components meet in Redis and on the disk: the queue calls the blob storage, and the counters,
-- sessions and nonces are keys beside those of the queue. So all of them are actions on one world
-- (`Exec`): the Redis store, the blob directory, the clock, and the outcomes of the round trips to
-- Redis that are still to come. A round trip succeeds, or raises before or after the server has run
-- the command, so each exception handler of the source is exercised. Each Lua script, transaction
-- and pipeline is one round trip, hence atomic. Fields and functions keep the source's names, in
-- snake_case; a handler that is one function in the source is split into a few here, each of which
-- names in its comment what it stands for.
--
-- Redis is a parameter, the record `Redis` in Redis.antt: a store, what can be read from it, and for
-- each command the effect that its documentation gives, with times to live and the passing of time.
-- `Redis.Memory` is a server that meets these laws. Other parameters: SHA-256 (`Sha256` in
-- `Queue.Model`, no law is assumed of it), the texts of numbers (`Decimal` in `Sessions.Value`), and
-- Ed25519 with canonical JSON (`Ed25519` in SensitiveAction). The random texts of `secrets` are
-- arguments. JSON is kept as the dictionaries that the relay writes, `json.loads` after `json.dumps`
-- being the identity.
--
-- Times are whole seconds; an action reads the clock once, and time passes between actions. Nothing
-- runs on fuel: the loops are structural recursion over lists. Numbers do not overflow in Python.
-- The task that deletes a blob after the last acknowledgement runs at once. WRONGTYPE errors,
-- logging, and the overwriting of a file before its removal are left out. Calls run one after the
-- other: the round trips of two calls do not interleave.
--
-- The rows of the dead man's switch are a value (`Db`) that a handler passes on; a handler that
-- raises leaves the rows as they were, as the rollback does (`transact`), and what it wrote to Redis
-- stays. A transaction is one step: where the source takes row locks, this is what they are for, and
-- the rows that a run of the reaper skips as locked are an argument. The tasks that
-- get_current_session spawns run at once. Postgres itself does not fail. Base64, UUIDs, hex, the
-- digests of several byte strings and the relay's signatures are the parameter `Codec`, of which no
-- law is assumed.
--
-- In Federation, Messages, Sealed, Auth and Users a value of type bytes is a text with a character for each byte,
-- the tables and the identifiers of new rows are arguments, and an endpoint gives the rows as it
-- leaves them. The network is the parameter `Network`, Ed25519 with canonical JSON is `Signer`, and
-- the patterns and number ranges that a schema checks are not checked again. The numbers in JSON are
-- natural. A pass of the worker meets each row of its batch at times and with replies of its own
-- (`Visit`). The handlers of the group kinds are an argument of `forward_impl`. Two requests that
-- insert the same row at once are left out, and so are the push notifications.
--
-- Not modelled: the sockets of api/inbox.py; api/groups.py and what api/federation.py does for
-- groups, lookups and pulls; mail, push and administration; the lookup of names at other relays,
-- the deletion of accounts, and backups; the other workers under morok_relay/scripts/. They stand
-- on SQL, SMTP or sockets. Of scripts/reaper.py the temporary files and the groups are left out, and
-- of the rows of a switch the constraint that its recipients differ, which the validator of the
-- request gives.
pub mod Prelude
pub mod Redis
pub mod Exec
pub mod Blob
pub mod Queue
pub mod RateLimit
pub mod SensitiveAction
pub mod Sessions
pub mod Tokens
pub mod Dms
pub mod Reaper
pub mod Federation
pub mod Messages
pub mod Sealed
pub mod Auth
pub mod Users
mod Tests
