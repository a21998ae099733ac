-- ===== src/Lib.antt =====
-- Kirov server emulator: the parts of the game server emulator that carry state and protocols of
-- their own, modelled from app/, with what makes them correct.
--
-- The program lets old games play again: a NAT negotiation server brings two players into contact,
-- a UDP relay carries their packets where no direct contact is possible, a chat server holds the
-- lobbies where games are set up, and stream ciphers protect the chat, the server lists and the
-- statistics.
--
-- Relay: app/models/relay_types.py (Relay/Types), app/servers/port_pool.py (Relay/PortPool) and
-- app/servers/relay_server.py (Relay/Server, Relay/Datagram for RelayPortProtocol, and Relay/Reachable
-- for the relay as a state machine). A route
-- is two ports; a packet that comes in on one port leaves from the socket of the other one. The
-- state is the record RelayServer; calls on sockets are effects that an operation returns, and
-- binding a port is an argument, so that both sockets of a route can fail.
-- NatNeg: the packets of app/models/natneg_types.py and app/util/natneg_protocol.py
-- (NatNeg/Header, NatNeg/Packets, NatNeg/Protocol), its clients and sessions (NatNeg/Client),
-- NatNegSessionManager of app/servers/sessions.py (NatNeg/Manager, and NatNeg/Manager/Pairs for
-- the attempts of a pair and its relay ports) and app/servers/natneg_server.py (NatNeg/Server).
-- The server calls the manager, and the manager allocates routes of the relay server.
-- Cipher: app/util/peerchat_crypt.py (Cipher/Peerchat) and app/util/cipher.py (Cipher/EncTypeX,
-- and Cipher/GameStats for gs_xor and gs_chresp_num). The random bytes of salts and headers are arguments.
-- Chat: the IRC dialect of the lobbies. Chat/Message (with Chat/Message/RoundTrip) and Chat/Types
-- model the messages, clients and channels of app/models/irc_types.py, Chat/Channels the store of
-- app/models/peerchat_state.py, Chat/Handlers and its files the commands of
-- app/servers/peerchat_handlers.py, and Chat/Sending, Chat/Connection and Chat/Pings what
-- app/servers/peerchat_server.py does with a connection. Chat/Invariant is the well-formedness of
-- the store, and Chat/Reachable the server as a state machine. A connection is a number, a client is
-- looked up by its connection, and a set is a list in the order of insertion. A handler is one step,
-- its lines are the effects of its outcome, and an exception is the flag `raised` of the outcome;
-- `writable` says of each connection whether a write to it succeeds. The UTF-8 codec is an argument,
-- and `upper` is that of ASCII.
-- Master: the lists of rooms and games. app/servers/query_master_parsing.py is the TCP request of a
-- game (Master/Request), the responses (Master/Response), filters (Master/FilterParser,
-- Master/Filters) and the rooms of Red Alert 3 (Master/DefaultRooms);
-- app/servers/query_master_udp.py the heartbeats of hosts (Master/HeartbeatBody, Master/Heartbeat),
-- which fill GameSessionRegistry of app/servers/sessions.py (Master/Registry);
-- app/servers/query_master_tcp.py the handler that answers a request from this registry, encrypted by
-- EncTypeX (Master/Handler, with Master/Matching for the games that a filter admits), and a
-- connection with its buffer (Master/Connection). The UTF-8 codec, socket.inet_aton,
-- socket.inet_ntoa and float() are arguments. The loop over the packets of a buffer has so many turns
-- as an argument, since it need not end. A client's reader of the documented layout
-- (Master/Response/Reading) runs by the number of bytes, and an entry has more than one; the filter is
-- split in as many steps as it has characters, and a step takes at least one.
-- UserSessions: SessionManager of app/servers/sessions.py.
-- Prelude: numbers, texts, bytes, bit operations, and Python's lists, sets and dictionaries.
-- Tests: the properties at concrete inputs.
--
-- Functions have the names of the methods, without a leading underscore. A method that holds a lock
-- is one step from state to state. Times are milliseconds and arguments. Bytes and characters are
-- numbers, an address is a pair of a text and a port, and `none` is None or an exception, as each
-- file says. The loop of allocate_pair runs by the number of its rounds, which is the length of the
-- range; _func5 ends within twelve rounds, because from the twelfth on the drawn value is reduced
-- below the bound, and its first loop has as many rounds as the bound, since each widens the mask.
--
-- Not modelled: logging, the tasks and the sleep between two attempts, the creation of sockets, two
-- chat handlers interleaved at an await, the reading of lines before encryption, the start of the servers, the parser of match reports, and the
-- servers for login, presence, statistics, SOAP and the web, which mostly carry requests to the database.
pub mod Prelude
pub mod Relay
pub mod NatNeg
pub mod Cipher
pub mod Chat
pub mod Master
pub mod UserSessions
pub mod Tests
