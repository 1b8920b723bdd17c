-- ===== src/Lib.antt =====
-- The Mattermost plugin for disappearing messages: its Go server, as functions over the states of
-- the server and its database.
--
-- What the program does. A user sets a TTL for a channel by a request or a command (server/api).
-- The TTL service (server/ttl) checks the bounds and the user's permission, and keeps the setting
-- in the plugin's key-value store. Each new post of a channel with a TTL gets a row in the table
-- mpmd_expire (server/expiry); a reply moves all rows of its thread. Every minute the sweeper
-- (server/sweeper) takes a batch of rows that have expired, has their posts deleted, and then
-- deletes the rows. The deletion goes through server/purger_switch.go, which decides by the
-- configuration (server/configuration.go), the license and the version of the server between the
-- transactional purge (server/purge), a soft delete, and an error.
--
-- Which file models which part.
--   Base, Int64, Float64   shared: texts, lists, results; Go's int64 with its wrap-around; the
--                          rounding of float64
--   Duration               time.Duration: Milliseconds, int64(d.Seconds()), seconds times time.Second
--   Ttl                    server/ttl/ttl.go: ValidateTTL, PresetForLabel; the errors of the package
--   TtlStore               server/ttl/store.go: kvStore.Get, Set, Clear; the contract of the KV API
--                          and of a TTLSettingStore are in TtlStore/Contract; TtlStore/Concurrent
--                          has concurrent calls of Set by their calls to the API
--   TtlService             server/ttl/service.go: SetTTL, GetTTL, GetSetting, ClearTTL,
--                          checkCanManage; TtlService/Participants has the rule D2 of its comment
--   Database               the database as the plugin sees it: mpmd_expire, the server's tables, and
--                          the outcomes of the calls to come
--   ExpireStore            server/expiry/store.go: the statements on mpmd_expire; the contract that
--                          its clients use is in ExpireStore/Contract
--   ExpiryService          server/expiry/service.go: OnPostCreated, OnPostUpdated, threadRoot;
--                          ExpiryService/Steps has OnPostCreated by its calls, and hooks that run at
--                          one time
--   Purge                  server/purge/purge.go: sqlPurger.Purge over the footprint
--   Configuration          server/configuration.go: PurgeSchemaAllowlist, versionAllowed,
--                          purgeDecision
--   PurgerSwitch           server/purger_switch.go: configPurger.Purge, softDelete
--   Sweeper                server/sweeper/sweeper.go: New, Run; Sweeper/Healthy puts the SQL store
--                          and the transactional purge under the sweeper; Sweeper/Steps has a tick by
--                          its calls, Sweeper/Interleaved and Sweeper/Races what comes between them
--   Handler                server/api/handler.go: handleSet, handleGet, handleDelete and their events;
--                          New and ServeHTTP are in Handler/Routes, over the router that
--                          Handler/Router describes
--   Command                server/api/command.go: ExecuteCommand, cmdSet, cmdOff, cmdStatus,
--                          parseTTLArg, userMessage; helpText and the other texts are in
--                          Command/Texts
--   Plugin                 server/plugin.go: OnActivate, OnDeactivate, OnConfigurationChange,
--                          MessageHasBeenPosted, disappearCommand
--   System                 how server/plugin.go puts the parts together, and the states of the server
--                          that requests, commands, posts and ticks reach; System/Live adds the
--                          plugin's own state, the hooks that set it, and the calls of a tick
--   Logs                   build/pluginctl/logs.go: logs, watchLogs, fetchLogs, filterLogEntries,
--                          checkOldestEntry, printLogEntries, checkJSONLogsSetting
--   Pluginctl              build/pluginctl/main.go: the commands, getClient, getUnixClient
--   Manifest               build/manifest/main.go: main, findManifest, applyManifest, distManifest
--   Tests                  concrete states, and the theorems at them
--
-- How the code is read. An operation is a function `W → Result E A × W` over the state `W` of the
-- server; an error keeps the changes that were made before it. A service takes its ports as records
-- of operations, as the code takes interfaces, and a theorem about a client assumes the contract
-- that the implementation's theorem gives. An error is a constructor for the format string of
-- `fmt.Errorf`, with its arguments. A text is the list of its code points, as of valid UTF-8. The
-- state `Db` holds the outcomes of the calls to come: a call is done, or refused, or it takes effect
-- and reports an error; every theorem holds for every list of outcomes.
--
-- In System/Live a tick is a query, a purge and a deletion of index rows, and each is a step; every
-- other call of the plugin is one step. What the server, its users and other nodes do between two
-- steps is a step of its own, of which a theorem assumes that it keeps the invariant. Other nodes may
-- also write to the key-value store at any point of a call. TtlStore/Concurrent lets the single
-- calls of several Sets interleave, and ExpiryService/Steps those of several OnPostCreated.
--
-- Bounds and fuel. An int64 wraps at 2 ^ 63. The loop of kvStore.Set runs max_retries = 20 rounds,
-- the constant of the code, and gives ErrTooManyRetries after them. The rounding to a float64
-- searches its shift with fuel 128 to the left and 64 to the right: the quotients that occur lie
-- between 2 ^ -40 and 2 ^ 64, and need at most 92 and 11. The inner loop of watchLogs runs on fuel:
-- where the server has no entries from the page `last` on, `last + 1` rounds are enough. Its outer
-- loop is given the number of ticks that come before its context ends.
--
-- Parameters. The key-value API and its contract, who participates in a channel,
-- encoding/json for a setting, a request and a log entry, time.ParseDuration and time.Parse, the
-- permission API, the calls of the plugin API in the hooks, the log, the clock, the websocket publisher, the router of net/http with its documented
-- matches, the order that ORDER BY gives to rows with one time, the columns of the server's tables,
-- and for the build tools the HTTP client of the server, the environment, the network, the files, the
-- standard output, time.Duration.String, and model.Manifest with its JSON.
--
-- Not modelled. The encoding of answers, contexts and their cancellation, the mutex of configHolder,
-- and the web client. The calls of OnPostCreated do not interleave with those of a tick.
pub mod Base
pub mod Int64
pub mod Float64
pub mod Duration
pub mod Ttl
pub mod TtlStore
pub mod TtlService
pub mod Database
pub mod ExpireStore
pub mod ExpiryService
pub mod Purge
pub mod Configuration
pub mod PurgerSwitch
pub mod Sweeper
pub mod Handler
pub mod Command
pub mod Plugin
pub mod System
pub mod Logs
pub mod Pluginctl
pub mod Manifest
pub mod Tests
