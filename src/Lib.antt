-- ===== src/Lib.antt =====
-- A model of Grapevine, a Matrix homeserver, and what is proved of it. Paths are from the
-- repository's root; a module A.B is the file A/B.antt beside this one.
--
-- The program keeps all lasting state in trees of a key-value store. Services (src/service) hold
-- what is in memory and call their data traits (src/database/key_value), which build keys of bytes
-- and read and write the trees. The parts that are modelled:
--
--   Prelude, HashMap, HashSet, LruCache: what the parts share; maps and sets of Rust's standard
--     library as lists, `Result` with the errors of src/utils/error.rs, and the cache of the crate
--     lru_cache as an interface.
--   Utils: numbers as bytes, increment and calculate_hash of src/utils.rs; the order of the bytes
--     of numbers (BigEndian); decimal text (Decimal).
--   Database: KvTree of src/database/abstraction.rs as an interface (Tree), a list that meets it
--     (ListTree), keys of parts with separators (Parts), the order of keys with what an iteration
--     from a key goes through (Order), and what is found in a page of it (Find).
--   Globals: next_count and current_count of src/database/key_value/globals.rs.
--   StateCompressor: src/service/rooms/state_compressor.rs and the file of the same name under
--     src/database/key_value/rooms. A state of a room is a set of compressed events, stored as a
--     stack of layers of differences. The parent module has the codec (save_statediff,
--     get_statediff) and save_state_from_diff; Service has load_shortstatehash_info (load) and
--     save_state, with get_or_create_shortstatehash (short.rs) and get_room_shortstatehash
--     (state.rs); Events has compress_state_event and parse_compressed_state_event, over Short. The
--     other children are about the codec, the merge of diffs, loading and saving.
--   Sending: src/service/sending.rs and src/database/key_value/sending.rs. Queue has the trees of
--     queued and active events, Handler handle_response, select_events and handle_receiver, System
--     the loop of the handler as a step relation between requests and responses.
--   OnDemandHashMap: src/utils/on_demand_hashmap.rs. Each critical section is a step of a relation
--     on the map, the channel of the cleanup task and the handles of all tasks (Steps); an Arc is
--     the number of its allocation and its strong count the number of handles that hold it. Rooms
--     and users are locked by its TokenSet.
--   Timeline: src/service/rooms/timeline.rs (PduCount, pagination tokens, ids of events) over
--     src/database/key_value/rooms/timeline.rs (Store: the trees and caches of events).
--   Short: the numbers of events, state keys and rooms, src/database/key_value/rooms/short.rs. The
--     methods for events and for state keys are one pair of functions over any keys.
--   StateCache: the memberships of src/database/key_value/rooms/state_cache.rs; Membership has the
--     one map that the six trees stand for, Servers update_joined_count, which keeps the servers, the
--     counts and our users of a room.
--   Users: accounts, devices, access tokens and to-device events of src/database/key_value/users.rs.
--   AccountData: src/database/key_value/account_data.rs.
--   ReadReceipts: src/database/key_value/rooms/edus/read_receipt.rs.
--   LazyLoading: src/service/rooms/lazy_loading.rs and src/database/key_value/rooms/lazy_load.rs.
--   KeyBackups: src/database/key_value/key_backups.rs.
--   Uiaa: src/service/uiaa.rs and src/database/key_value/uiaa.rs. Flows sets the loop over the
--     flows beside membership in lists, and Proves says what the data of a request proves.
--   TransactionIds: src/database/key_value/transaction_ids.rs.
--   AuthChain: the stored chains of src/database/key_value/rooms/auth_chain.rs; a chunk of eight
--     bytes is read by its pattern. Inner has get_auth_chain_inner of
--     src/service/rooms/auth_chain.rs, over the timeline and the short ids; Explore is its search on
--     event ids alone.
--   Tests: small runs, and each theorem at one input.
--
-- Parameters. A tree has the laws of a map from keys to values, with an iteration in the order of
-- the keys, byte by byte; a scan has the entries of it whose key starts with a prefix. A write is
-- one step, and an iteration sees one state of its tree. The cache may forget and never makes up
-- an entry. SHA-256 is a function; that two states have different digests is a hypothesis where it
-- is needed. ruma's checks of names, the Argon2 check, serde_json and the events that it reads
-- (Events) and JSON values of account data (Values) are functions; a registration token is given
-- as `trim` leaves it, and a random session as an argument.
--
-- Bounds. A number of the program is a natural number with u64's bound written out where bytes are
-- made of it; `increment` and the offsets of count_to_id wrap around, as in a release build. load
-- has fuel for the layers, and a stack has at most four, since save_state_from_diff merges from
-- four on; decode has fuel for each byte of the value. u64::to_string has fuel for the twenty
-- digits of 2 ^ 64. get_auth_chain_inner has fuel for the events that can be reached.
--
-- Not modelled: failures of the engines; the end of an Instant's or a Duration's
-- range; HTTP requests and select_edus, whose results are arguments; tracing and metrics; the end
-- of the cleanup task with its map; waits between the steps of one method that hold no lock.
pub mod Prelude
pub mod HashSet
pub mod HashMap
pub mod Utils
pub mod Database
pub mod Globals
pub mod LruCache
pub mod StateCompressor
pub mod Sending
pub mod OnDemandHashMap
pub mod Short
pub mod StateCache
pub mod Timeline
pub mod Users
pub mod AccountData
pub mod ReadReceipts
pub mod KeyBackups
pub mod LazyLoading
pub mod Uiaa
pub mod TransactionIds
pub mod AuthChain
mod Tests
