-- ===== src/Lib.antt =====
-- casper-contract-kit: the contract library and the binary port client of crates/contract-api, the
-- token, ownership and pause contracts of crates/contract-extras, what the macros of
-- crates/contract-macros make of a contract, the in-memory host of crates/casper-ffi-shim, and the
-- JSON-RPC client of crates/rust-sdk.
--
-- A contract calls the host functions of the Casper node. crates/contract-api wraps them: utils.rs
-- calls them, NamedKey caches the key under a name, and the collections keep their items in the
-- dictionary of a named key, under keys that dictionary_key.rs and base128.rs make. The contracts of
-- crates/contract-extras are entry points over these; the macros read a table of entry points and a
-- wrapper for each off their functions. A client asks a node over the binary port, and checks an
-- answer from the state with the hash of a proof.
--
--   Base          the monad of contract code (Base/Monad), lists, Boolean tests, masks and shifts
--   Casper        the values of casper_types; Casper/Codec is ToBytes with FromBytes
--   Shim          crates/casper-ffi-shim/src/lib.rs: EnvImpl is `Env`, each host function its namesake;
--                 Dispatch has EnvBuilder, the stack of environments and dispatch_with, and its
--                 Scoped contract code that dispatches other code
--   Host          the state of an execution: the host and the cache cell of every NamedKey; the host
--                 functions that the shim leaves open, and what they are documented to do
--   Utils         crates/contract-api/src/utils.rs; Utils/Caller has the caller, with error.rs
--   StateHash     the tries of utils.rs and compute_state_hash: Path is the trie along a path that a
--                 proof stands for, Encoding the lengths of serialized tries, Binding collisions
--   BinaryPort    crates/contract-api/src/binary_port.rs: Frames has the connection that a run needs,
--                 Ids the request ids, Exchange whole requests
--   Macros        crates/contract-macros/src/lib.rs: what it reads off a function; Calls runs the
--                 generated wrapper
--   JsonRpc       crates/rust-sdk/src/jsonrpc.rs: Missing says which errors mean that an account is
--                 missing, Balance what get_balance makes of them
--   NamedKey      crates/contract-api/src/named_key.rs and typed_uref.rs; Create is a dictionary that
--                 is made under a name, as the installation of the token does it
--   Collections   Base128 is base128.rs, DictionaryKey is dictionary_key.rs with the derive macro of
--                 crates/contract-macros, Vector is vector.rs, Mapping is mapping.rs and set.rs;
--                 Open is the dictionary that a collection stands on
--   Ownable       crates/contract-extras/src/ownable.rs
--   Pausable      crates/contract-extras/src/pausable.rs
--   Cep18         crates/contract-extras/src/cep18.rs and cep18/: Methods has the entry points over
--                 the interface TokenStore of Store, Token the token that they promise, Refinement
--                 that they run over any storage that implements it as on that token; Storage has
--                 the accessors of balances.rs and allowances.rs over named keys, Arguments
--                 the caller and the named arguments of cep18/utils.rs, EntryPoints the table of
--                 cep18/entry_points.rs. Contract is the instance of TokenStore that the contract
--                 has: its named keys, dictionaries and events over the in-memory host; its View is
--                 the token that such a storage stands for; Accessors, Changes, Events and
--                 OptionalArguments are the operations one by one, Faithful all entry points,
--                 Executions has sequences of calls by any accounts, Init is the entry point init,
--                 and Install has install_contract and upgrade
--   Runs          the theorems applied to concrete states
--
-- A function that returns `Result<A, E>` is a state transformer that ends with a value, with an
-- error, or with the stop of the execution: a revert or a panic. A revert undoes nothing here, so
-- what is said of a refused call is what the code itself leaves. Numbers are natural numbers: a U256
-- or a u64 has its bound written out, the bit buffer of base128 wraps at 2 ^ 32, and the length of a
-- vector wraps at 2 ^ 64.
--
-- Fuel: the inner loops of base128 take as many rounds at most as the buffer has bits, since every
-- round takes bits out. All other loops are structural.
--
-- Parameters, for code that is not in the repository: the serializers of casper_types (`Codec`, with
-- their round trip as the hypothesis `Lossless`), the length limit of dictionary keys, the host
-- functions that the shim leaves open (`IsDocumented` says what dictionary reads do, `IsCalledBy` who
-- calls). A CLValue is its inner bytes, a URef its address. The token's `Setting` adds base64, hex,
-- blake2b, JSON, the event library and the host's messages; `IsFaithful` says that the keys and hashes
-- do not collide and fit, that numbers are read back (also those beyond a U256, which no value is),
-- and that events are kept in order. The binary port has sockets and timers (`Network`) and the
-- message types (`Protocol`), the state hash has the hash function and the serializers of pointers
-- (`TrieHost`), the macros have the parsed functions of syn, the JSON-RPC client has the calls of
-- casper_client (`Node`) and TOML, the installation has what it calls of casper_contract (`Deployer`,
-- `Runtime`).
--
-- Not modelled: parsing and printing in the macros, the event streams of crates/rust-sdk, the log and
-- block helpers of utils.rs, the lock inside an environment (no code holds it over a call), and code
-- that only calls other libraries.
pub mod Base
pub mod BinaryPort
pub mod Collections
pub mod Casper
pub mod Shim
pub mod StateHash
pub mod Host
pub mod Macros
pub mod JsonRpc
pub mod Utils
pub mod NamedKey
pub mod Ownable
pub mod Pausable
pub mod Cep18
pub mod Runs
