-- ===== src/Lib.antt =====
-- A model of packetd's core: services/dispatch, which turns the packets and connection events of
-- the kernel into calls of plugins; the services that keep state beside it (settings, dict, overseer,
-- logger, certcache, predicttrafficsvc); and three plugins: plugins/sni, which reads the server name of a TLS
-- connection, and plugins/revdns and plugins/dns, which find names for the addresses of a session.
--
-- The program. The kernel bridge calls one of three callbacks. nfqueueCallback gets a packet that
-- is queued for inspection, finds or creates its session, and calls the plugins that are subscribed
-- to the session. conntrackCallback gets NEW, UPDATE and DELETE events of the connection tracker,
-- keeps the table of conntrack entries, links an entry with the session of the same id, and calls
-- the subscribed plugins. netloggerCallback passes log messages on. A cleaner drops stale sessions
-- and entries once a minute. The kernel's dictionary (services/dict) mirrors what is known of a
-- session, and is told to let packets of a session pass once no plugin wants them. Plugins and the
-- caches attach what they learn to a session and write it to the dictionary as well. The settings are
-- one JSON document, which is changed along a path and saved once sync-settings accepts it.
--
-- The files. Base holds the Boolean tests, the lists, the association lists (Table) that stand for
-- Go maps, the loop of a cache's cleaner (Sweep), the heap of objects that pointers address, and
-- texts as code points with their numbers (Text, Decimal).
--   Overseer                     services/overseer/overseer.go
--   Dispatch/State               the structs and package variables of services/dispatch
--   Dispatch/Ip                  net.IP as the package uses it, and dupIP (dispatch.go)
--   Dispatch/Tuple               tuple.go: Equal, EqualReverse
--   Dispatch/Session             session.go: the methods of Session
--   Dispatch/SessionTable        session.go: the session table and nextSessionID
--   Dispatch/ConntrackTable      conntrack.go: the table, createConntrack, cleanConntrackTable
--   Dispatch/ConntrackStats      conntrack.go: updateStatsAndRates
--   Dispatch/ConntrackCallback   conntrack.go: conntrackCallback, one function per part
--   Dispatch/Subscriptions       dispatch.go, nfqueue.go: subscriptions and ReleaseSession
--   Dispatch/PriorityLoop        the loop over priorities of all three callbacks
--   Dispatch/Nfqueue             nfqueue.go: the messages and createSession
--   Dispatch/CallSubscribers     nfqueue.go: callSubscribers
--   Dispatch/NfqueueCallback     nfqueue.go: nfqueueCallback, one function per part
--   Dispatch/Netlogger           netlogger.go
--   Dispatch/Service             dispatch.go: Startup, the cleaner, the warehouse cleanup, and the
--                                service as a step relation
--   Dispatch/WellFormed          the invariant of the tables, kept by every operation
--   Sni                          plugins/sni/sni.go
--   Dispatch/Attachments         attachments that are also written to the dictionary
--   Dns                          plugins/dns/dns.go: the cache of names, and (Handler) the handler
--   Logger                       services/logger/logger.go
--   Settings                     services/settings/settings.go: paths in the document, and (File) the
--                                operations on the file
--   Dict                         services/dict/dict.go: cleanDictionary (Cleanup), the parsers of
--                                lines (Lines), the readers (Reading), and the writers (Writing)
--   CertCache                    services/certcache/certcache.go
--   PredictTraffic               services/predicttrafficsvc/predicttrafficsvc.go, with the abstract
--                                cache that it implements (Specification)
--   RevDns                       plugins/revdns/revdns.go
-- The theorems on a file stand in the files below it; concrete runs are in the Examples modules.
--
-- The state. A World holds every package variable, a heap of sessions, a heap of conntrack entries,
-- the calls made to the dictionary and the counters. A pointer is an address in a heap and nil is
-- none, so that two tables or an entry and a table can share a session, as in the program. An
-- operation is a function from a World to a World. Words wrap where Go's do: counters modulo 2^64,
-- interfaces modulo 2^8, the session index as a signed 64-bit number. A time is a number of
-- nanoseconds and all readings of the clock in one callback give one instant.
--
-- Bounds and fuel. The loop over priorities runs on 102 rounds of fuel: it ends by itself after the
-- priority 100 at the latest, so the fuel never runs out. The loop over TLS extensions gets one
-- round more than the buffer has bytes, which is enough since every round moves on by four bytes.
-- A number of n units is printed on n rounds of fuel, and each round divides it by ten. The other
-- loops are by recursion on a table, a text or a path.
--
-- What is an input. What a plugin's handler does with a message (it returns, with or without a
-- release, or is still running after the time limit), the layers that gopacket finds in a packet,
-- the clock, the text form of an address, the answers of the network to a reverse lookup and of the
-- cloud service to a request, the lines that the kernel's dictionary returns, what the system and
-- sync-settings do during a save (also what sync-settings leaves in the temporary file, and with which
-- capacities it is read back), what ParseMAC and ParseIP make of a text, the capacity of the slices
-- that are indexed, for each line of the dictionary its own (a packet's payload has none past its
-- length), the stack of frames that the logger sees, and the order of events.
--
-- What is not modelled. Locks, what each component logs, and the interleaving inside one callback: each callback is
-- one step, and the handlers of one priority are one batch whose results are read in the table's
-- order; a reverse lookup is two steps, so that the cleaner can come between them. A rate keeps the
-- two operands of its floating point division, and a confidence is the byte that it is rounded to.
-- services/kernel, restd, reports and certmanager are input and output; the configuration file of
-- services/logger and the other plugins are not part of this library yet.
pub mod Base
pub mod Overseer
pub mod Dispatch
pub mod Sni
pub mod Dns
pub mod Settings
pub mod Dict
pub mod Logger
pub mod CertCache
pub mod RevDns
pub mod PredictTraffic
