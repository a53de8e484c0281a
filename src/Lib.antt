-- ===== src/Lib.antt =====
-- The authorization core of the league server xemu-cartographer, and its pure rules beside it.
--
-- The program's parts and the files that model them (paths from the repository's root):
-- + internal/authz/action.go, scope.go: Authz/Action.antt and Authz/Scope.antt. An action is a
--   string in the source; a known one is a constructor here, and `action_of` reads any text.
--   `parse_scope`, `match`, `canon`, `is_wildcard` and the others are ParseScope, Match and so on.
-- + internal/authz/principal.go, resource.go, ws.go: Authz/Principal.antt, Authz/Resource.antt and
--   Authz/Ws.antt. Maps from strings to strings are association lists (`Attrs`).
-- + internal/authz/rules.go, decision.go: Authz/Predicates.antt, Authz/Cells.antt (cells and rows),
--   Authz/Rules.antt (the table) and Authz/Decision.antt (CanWith). A map from kinds to cells is a
--   function into Option. internal/authz/deps.go is the record `Deps` of Authz/Deps.antt: its
--   answers are arguments, so what is shown holds for every adapter.
-- + internal/authz/token.go: Authz/Token.antt (kids, verification) and Authz/Mint.antt (principals
--   of keys, minting rules). The random bytes and the SHA-256 digest are arguments.
-- + internal/authz/seed.go: Authz/Seed.antt, the rows of the built-in roles and SeedRole.
-- + internal/bracket/bracket.go: Bracket.antt, with the slot order, the sizes and both formats in its
--   children. It is on its own: nothing else calls it yet.
-- + internal/reaper/reaper.go: Reaper.antt. The map of clocks is an association list, Tick a function
--   from clocks and snapshots to clocks and the instances to tear down, and Run a history of passes,
--   the latest first; what holds of histories is in Reaper/Runs.antt.
-- + internal/websocket/hub.go: Hub.antt. The hub's maps are lists, and each case of Run's select that
--   changes who is where is an event; addToRoom, removeFromRoom and removeClient answer the rooms
--   that they post to the observer too. Hub/Consistent.antt is about all runs of events, and
--   Hub/Recheck.antt about recheckRooms, which asks internal/authz for each room. Hub/Observer.antt has
--   the observer's goroutine and those that post to it as actions in any order.
-- + internal/xcclient/demand.go: Xcclient/Demand.antt. It is the observer's hook: what the observer
--   fires is what the demand is told, and Xcclient/Demand/Follows.antt puts the two together.
-- + internal/authz/pb/tokens.go: Pb/Ceiling.antt, the check that a key has no scope that its minter
--   lacks (checkMintCeiling, holdsScope, scopeCovers); Pb/Keys.antt, RevokeToken, ListTokens and
--   LookupToken. grant.go, with parts of deps.go and holds_role.go: Pb/Grants.antt, Grant and Revoke.
--   The database is a record of the calls that the code makes of it, on a state of any type, and what
--   the code relies on is the record `AppLaws` or `KeyLaws`; Tests/Stores.antt has lists for both.
-- + internal/halosave/bytes.go, digest.go, ce.go: Halosave/Bytes.antt (words and UTF-16 names in a
--   list of bytes), Halosave/Digest.antt (RecomputeDigest, with HMAC-SHA1 as an argument) and
--   Halosave/Ce.antt (CEParse and CEBuild).
-- A request runs through them in this order: a resolver builds a principal from a key
-- (`principal_from_token`), a room name is parsed (`parse_room`), and `can_with` looks up the rule,
-- checks the resource, the Deny predicates, the kind, the scopes and the predicate of the cell.
--
-- The helpers: Base.antt passes the libraries' names on and has tests, lists and predicates on
-- lists; Text.antt has the functions of Go's package strings that the program calls, on texts as
-- lists of code points. Tests.antt and its children run the model and instantiate the theorems.
--
-- Bounds: letters outside ASCII are taken to have no case, and texts are valid UTF-8. Levels of
-- roles and times are natural numbers, and so are durations, a negative one being read as zero.
-- Errors are the sentinel values, without their messages. The loops of internal/bracket that double
-- a size run on fuel, which is the size to reach; that it is enough is part of what is shown of them.
-- No other definition runs on fuel.
--
-- Not modelled: the rest of the PocketBase adapter (minting, resolving, caches), the HTTP routes and
-- the Discord bot, which call a database and libraries outside the repository; the rest of the
-- websocket hub (dispatch, sending, eviction and Stop); the other files of internal/halosave and of
-- internal/xcclient; internal/games, internal/podman and internal/leaguescraper; the frontend; the
-- generated migrations.
pub mod Base
pub mod Bracket
pub mod Reaper
pub mod Halosave
pub mod Hub
pub mod Pb
pub mod Text
pub mod Xcclient
pub mod Authz
pub mod Tests
