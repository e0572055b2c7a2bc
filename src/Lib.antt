-- ===== src/Lib.antt =====
-- Mafia Casefile: the game server of apps/api, its rooms, game sessions, commands and event log.
--
-- A room gathers players; START_GAME deals the roles and opens a session under the room's id. The
-- session goes round NIGHT, DAY_DISCUSSION, VOTING and RESULT until a team has won. Each command of
-- a player goes through `handleCommand` to a handler, which calls RoomsService and
-- GameSessionService, records what happened with GameEventRecorderService and returns effects for
-- the sockets; a timer advances phases through `advancePhaseAutomatically`.
--
-- Files:
-- - Shared: packages/shared/src/game.ts, and the channels of socket.ts.
-- - Session: apps/api/src/game-session/game-session.ts. Session/StateMachine is
--   game-state-machine.ts; Session/Players, Tally, Operations and Outcomes are the methods of
--   game-session.service.ts on a session that is loaded (`startGameSession`, `castVote`,
--   `selectNightAction`, `resolveNightOutcome`, `resolveVotingOutcome`, …), by the source's names.
-- - Sessions: the same methods on the store of in-memory-game-session.repository.ts.
-- - Rooms: apps/api/src/rooms/rooms.service.ts over in-memory-room.repository.ts.
-- - Events: apps/api/src/game-events (the recorder and the timeline).
-- - World: the three stores together, and a call that reads and writes them and may throw.
-- - Commands: apps/api/src/game-commands. Commands/RoomCommands, StartGame, Phases, Play and Chat
--   are the handlers of game-command.service.ts, Commands/Dispatch is `handleCommand`.
--   `handleNextPhase` and `advancePhaseAutomatically` repeat the same steps: these are
--   `change_phase`, with who asked for it.
-- - Realtime: apps/api/src/realtime. AvailableActions, Requests (request-idempotency.service.ts),
--   Locks (game-command-lock.service.ts), Connections, ChatCache, Timers (phase-timer.service.ts),
--   Envelope and ReconnectState are its services; Realtime/Gateway is realtime.gateway.ts: Effects is
--   `applyCommandEffects`, Handling the way of a command message, Timing that of a timer, Connecting
--   that of a socket which connects or is lost. A message is checked, its request is looked up or
--   begun, the lock of its game is waited for, the command runs, its effects are applied, the client
--   is answered, and the answer is recorded.
-- - Web: apps/web/app/play/lib, what the client works out: Web/Chat is chat.ts, Web/PlayUi the seats
--   and target actions of play-ui.ts, Web/Timeline the parser of apps/web/lib/timeline.ts.
-- - Session/Cycle, Lives, Ballots, Plurality, Invariant and Settling, Sessions/Laws and Found,
--   Rooms/Laws and Reachable, Events/Timeline, Commands/Roles/Deals, StartGame/Begins,
--   Phases/Expected to Running, Chat/Secrecy, Keeping, Echo and Reachable hold proofs, as do the
--   modules below those of Realtime and Web, and Gateway/Guards. A session is valid
--   (`IsValid`) when its players have distinct ids that are not empty, votes are by and for the
--   living, night choices are for the living, both stand in their own phase alone, and the game is
--   finished just when a team has won. Examples holds tests and instances.
--
-- Choices:
-- - An error is its message, since the handlers compare messages.
-- - `Date.now()` and `new Date()` within one call are one reading of the clock, an argument; dates
--   are milliseconds. Random draws, `randomUUID()`, the environment's phase durations and
--   `localeCompare` are arguments too (`Env`).
-- - A payload of type unknown is no object, or fields that are texts, flags or anything else.
-- - What a call wrote before it throws stays written. Failures of a database are not modelled.
-- - A command, or a change of phase by the timer, is one step: the gateway takes a lock for each game.
-- - Plain objects that serve as maps, such as votes and processedRequests, are association lists: a key
--   that JavaScript objects inherit, such as "constructor", counts as absent here.
-- - Redis is a parameter: interfaces for values with an expiry (`Redis`), lists (`RedisList`) and a
--   sorted set (`SortedSet`) state what its commands document, and an instance of each in memory
--   shows that they can hold. Each kind of key holds typed values: JSON that is written is read back.
--   The Redis key prefix is the same for all keys and left out. Of the gateway's calls of Redis, those
--   for locks and request records may fail; a delivery, tick or meeting says which do.
-- - `Date.parse` and `toISOString` are parameters (`Dates`).
-- - The gateway handles one message, timer or connection at a time, except that other commands may do
--   anything to the locks while one waits. `sent` is what went to the sockets, in order.
-- - Loops are recursion on lists. There is fuel in two places: the decimal digits in `player-N`, with
--   the number itself and one more, and the wait for a lock, with a round for each millisecond of the
--   wait and two more; a round sleeps for a millisecond or is the last.
-- - `Object.values` lists votes in the order of their first insertion; keys that look like array
--   indices come first in JavaScript, which only bears on ties of `localeCompare`.
--
-- Not modelled: the token check of the gateway's sockets, `ping` and `whoami`, the wakeups that poll
-- a timer before the next interval, the Redis repositories, Prisma, authentication, the HTTP
-- controllers but for the timeline, and of apps/web the pages and the texts shown.
pub mod Prelude
pub mod Shared
pub mod Session
pub mod Rooms
pub mod Events
pub mod World
pub mod Sessions
pub mod Commands
pub mod Realtime
pub mod Web
pub mod Examples
