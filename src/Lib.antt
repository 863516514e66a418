-- ===== src/Lib.antt =====
-- goadstc, a client of TwinCAT PLCs over ADS in Go: a model of its protocol code, its symbol tables
-- and its connection, with the properties that make them correct.
--
-- The program. internal/ams frames packets on a TCP stream: a TCP header of 6 bytes, an AMS header
-- of 32 and the data. internal/ads encodes the requests that go into the data, and decodes the
-- responses and the device notifications. internal/transport/conn.go keeps one connection: calls of
-- SendRequest register a channel under their invoke id and wait, readLoop reads packets,
-- dispatchLoop hands each to the channel of its invoke id or to the notification handler, and
-- CloseWithTimeout shuts all of it down. internal/symbols parses the symbol upload of a PLC into a
-- table that is looked up by name, and client.go finds the place of an array element or of a field
-- of one by the table and by type information that it caches. On top of these stand the methods of
-- the client: a method finds its place, sends a request by sendRequest, which tries again on a
-- failing connection and in the end starts a reconnection, decodes the answer and counts all of it
-- in metrics.go. reconnectLoop connects again with growing pauses and then renews the
-- subscriptions, to which handleNotification hands what dispatchLoop gives it. errors.go classifies
-- the errors that come out of all of these.
--
-- Base holds what all modules share. Go holds what the source uses of the language and its standard
-- library: a call returns, fails or panics (Result); a byte slice has its bytes and the spare
-- capacity behind them (Slice), as s[lo:hi] may reach into that; little-endian words; maps with
-- string keys, as lists of entries; texts as lists of bytes, with letter case and white space as in
-- ASCII.
--
-- Ams.Header is internal/ams/header.go and constants.go (MarshalBinary is marshal, UnmarshalBinary
-- unmarshal), Ams.Packet is internal/ams/packet.go. Ads.Requests and Ads.Responses are
-- internal/ads/commands.go, symbols.go and errors.go, and Ads.Notification is the decoder of
-- DeviceNotificationRequest, with its allocations. Symbols.Types and Symbols.Parser are internal/symbols/parser.go,
-- Symbols.Table is table.go and Symbols.Registry registry.go. Client.Access is the array access of
-- client.go with getOrFetchTypeInfo of client_structs.go, where what the PLC answers about a type
-- is an argument. Client.Values is what client_auto.go writes and reads for values of simple types;
-- floats are their bits, and what the machine computes with them is an argument; a time is its seconds
-- and nanoseconds. Client.Retry is
-- sendRequest and sendRequestWithRetry of client.go, with what happens around each round as an
-- argument, Client.Failure the texts of their errors, and Ads.Errors those of error codes.
-- Client.Reconnect is connect and reconnectLoop, with the call of reestablishSubscriptions, which the
-- surroundings of a round let through or keep waiting for a lock. Client.Reconnect.Supervisor the goroutines of
-- reconnectLoop and triggerReconnection that share a counter. Client.Operations is the request
-- methods of client.go, where what sendRequest returns is a function on the state of the PLC,
-- Client.Operations.Symbolic the methods that go by a symbol name, Client.Operations.Memory a PLC
-- that keeps a memory, as the ADS specification says it of Read and Write (Serves), and
-- Client.Operations.EndToEnd both together. Client.Typed is client_types.go, where utf16.Encode and
-- utf16.Decode are arguments. Client.Types is fetchTypeInfoFromPLC of client_structs.go, with the
-- ReadWrite of Client.Operations. Client.Structs is how client_structs.go reads the fields of a
-- struct, and Client.Structs.Write how WriteStructFields of client_auto.go changes them.
-- Client.Subscriptions is subscription.go, client_notifications.go and reestablishSubscriptions of
-- client.go, and Client.Subscriptions.Deadlock the locks that they take. Errors is errors.go and
-- Metrics metrics.go. A function has the name of its source in snake case; where a component has
-- several UnmarshalBinary methods, the type stands in the name (unmarshal_read_state). Each file
-- names the function of its source above the definition.
--
-- Transport.Conn is the state of internal/transport/conn.go with the blocks that a lock, an atomic
-- or a channel operation makes indivisible, Transport.Threads is where each of the four kinds of
-- thread stands and what its next block does, and Transport.World interleaves them: any number of
-- calls and closers, one reader and one dispatcher. What the network, a context, a timer or select
-- decides is an event of the step. setError's two writes are one block.
--
-- Bounds. Integers are natural numbers with the wrap-around of their width written out. The loop of
-- ParseSymbolTable runs on the length of the data as its fuel, which is enough since every entry
-- takes at least one byte, and that of parseArrayAccess on the length of the remainder, likewise.
-- The loop of indexString runs the rounds that its condition allows. reconnectLoop runs until it
-- connects or the client is closed: it is given a number of rounds, one more than the failing
-- attempts being enough (Client.Reconnect.Recovery). fetchTypeInfoFromPLC calls itself for nested
-- types without a limit: it is given a depth, whose end is an error of its own that the handling of
-- failed nested types does not swallow (Client.Types.Depth). The slices that the notification decoder
-- makes for the counts of a packet are given a room in bytes: Ads.Notification.Safety says how much is
-- enough, and elsewhere it is the 2^48 bytes of an amd64 machine. All other loops are recursions on a
-- list or a count.
--
-- Not modelled: arrays of values and nested maps of values in client_auto.go, the methods of
-- client_auto.go and client_structs.go around the functions above, the options of New and the
-- health check, the metrics of Subscribe and of the notification handler, the HTTP middleware,
-- logging, and the printing of states.
pub mod Base
pub mod Go
pub mod Ams
pub mod Ads
pub mod Symbols
pub mod Errors
pub mod Transport
pub mod Metrics
pub mod Client
pub mod Tests
