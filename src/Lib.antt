-- ===== src/Lib.antt =====
-- swiyu-rs: the library crate swiyu-core, which holds what the command-line tool (swiyu-didtool) and the
-- registry clients (swiyu-registries) share. A DID (`did:tdw` or `did:webvh`) names where its log is
-- served; the log is a chain of entries, each with a DID document, linked by hashes and signed by keys
-- that the entries before announce; a status list says of each issued credential whether it is valid.
--
-- Which file models which code
--   Did            swiyu-core/src/did/mod.rs: `Did.Identifier` has `DID`, its validation, constructors
--                  and `Display` (`to_text`), `Did.Parse` has `from_str` (`from_text`), and `Did.Url`
--                  has `log_url` and `url_path_segment`.
--   DidDoc         swiyu-core/src/diddoc: `DidDoc.Jwk` and `DidDoc.Multibase` have public_keys.rs;
--                  `DidDoc.Document` the types, the builders and `new_genesis` of mod.rs, and
--                  `DidDoc.Fields`, `DidDoc.Wire` and `DidDoc.Doc` the JSON of mod.rs.
--   DidLog.Fields, DidLog.Parameters, DidLog.Entry
--                  swiyu-core/src/didlog/mod.rs: `try_from_json` and `to_json` of `LogParameters`,
--                  `DIDDocState` and `DIDLogEntry` are `…_try_from` and `…_to_value`; the wire format
--                  is an argument or a field, as in the source.
--   DidLog.Edits   swiyu-core/src/didlog/entry_edits.rs. An edit in place is a function that answers
--                  the edited JSON.
--   DidLog.Hash    swiyu-core/src/didlog/scid.rs (the hashes) and `eddsa_jcs_2022_hash`.
--   DidLog.VerifyError, DidLog.Proof, DidLog.Verify
--                  swiyu-core/src/didlog/verify.rs: `verify_log`, with its loop as `verify_entries`,
--                  `verify_entry` and `verify_proof`, in the order of the source's early returns. The
--                  loop's variables `effective_update_keys` and `prev_version_id` are arguments.
--   DataIntegrity  swiyu-core/src/proof.rs: the options of a proof and the signed proof, with their JSON;
--                  `DataIntegrity.Verifies` relates them to the verification of a log. The
--                  signing key is a function from messages to signatures.
--   DidLog.Final   `DIDLogEntry::new_deactivation`.
--   DidLog.Builders   `new_genesis` and `new_rotation` of the entry.
--   DidLog.Jsonl   `DIDLog::try_from_jsonl`.
--   StatusList     swiyu-core/src/statuslist/mod.rs: `StatusList.Slot` has `StatusValue`,
--                  `StatusList.Bitstring` the list of slots, `StatusList.Pointer`, `StatusList.Wire`
--                  and `StatusList.Jwt` the JSON of the pointer, the list and the JWT.
--   KeyStore       swiyu-didtool/src/keystore.rs, with the roles of swiyu-core/src/key_role.rs:
--                  `KeyStore.Entry` has `KeyStoreEntry` with its snapshots, `KeyStore.Store` has
--                  `KeyStore`. A directory is a list of named things (`KeyStore.Dir`), and an operation
--                  answers the directory that it leaves.
--   Jws            swiyu-core/src/jws.rs: the keys and the check of a signature, with the conversion
--                  of an ECKey of public_keys.rs.
--   DidJwk         swiyu-core/src/didjwk/mod.rs.
--   SdJwt          swiyu-core/src/sd_jwt.rs (`SdJwt.Disclosure`) and truststatement/mod.rs
--                  (`SdJwt.Statement`).
--   Tool           swiyu-didtool/src/cmd: `Tool.Log` has `verify_loaded_log`, `current_did` and the
--                  selectors of didlog.rs; `Tool.Update` has `cmd_deactivate` and `cmd_rotate` of did/,
--                  from the loaded log to the new line; `Tool.Written` has the text of the
--                  updated log; `Tool.PopVerify` and `Tool.PopCheck` have
--                  pop/verify.rs, from the text of the JWT on. The keys of the key store, the loaded log
--                  of a proof of possession, the clock and the new version time are arguments.
--   Tool.Http, Tool.Resolve
--                  swiyu-didtool/src/cmd/http.rs and cmd/mod.rs.
--   Tool.Load, Tool.Files
--                  `load_log` of swiyu-didtool/src/cmd/didlog.rs, and cmd/file.rs; the files are a
--                  directory, in which every write succeeds.
--   Tool.Create    swiyu-didtool/src/cmd/did/create.rs: `create_entry` is `cmd_create` from the DID's parts
--                  and the keys to the entry.
--   Tool.PopCreate, Tool.PopCommand
--                  swiyu-didtool/src/cmd/pop/create.rs: the JWT of `cmd_create_pop`.
--   Registries     swiyu-registries/src: the three clients, with one request each per operation.
--   Trust          swiyu-didtool/src/cmd/trust: `Trust.Issuer` has the documents of issuers and their
--                  keys, `Trust.StatusLists` the status lists, `Trust.Verify` the checks of a
--                  statement, and `Trust.Command` `cmd_verify` and `cmd_lookup`. The context with its
--                  caches is an argument and a result.
-- The other modules of these parts have lemmas, the specifications and the theorems; each `Runs` has
-- tests and the theorems at concrete inputs. `Prelude` has what all parts share.
--
-- How the code is modelled
--   A `Result` is `Prelude.Outcome.Result`, with `?` as its bind; text is a list of code points; a
--   vector is a list; an integer is a natural number with its wrap-around or its bound written out: the
--   sequence number of an entry is `(i as u32) + 1` modulo 2^32, and a slot is a byte with its masks
--   and shifts. No loop needs fuel but `decimal`, which is given one more than the number: more than
--   its digits; `pending_from` counts the 9999 rounds of its loop. PEM files and BLAKE3 are records of `KeyStore`.
--   The libraries are parameters, as records of operations and documented laws: serde_json
--   (`Json.Interface`), base64 and zlib (`Vendor.Encoding`), and bs58, SHA-256 with its multihash,
--   ed25519-dalek, p256, serde_jcs and the text form of JSON (`Vendor.Crypto`), and
--   reqwest and chrono (`Vendor.Web`), where the network answers by a function of the request.
--   `Json.Plain`, `Vendor.Plain` and `Vendor.Samples` have concrete ones, at which the tests run.
--   Nothing is assumed of the strength of a hash or a signature: what is stated is which equations
--   between hashes, and which checks of signatures, hold of what the code accepts.
--
-- Not modelled
--   Of swiyu-core: the type `SCID`, and `Display` of the errors but those of a proof, a document and a
--   verification. Of swiyu-didtool: the planning of a rotation and its keys, the requests and the
--   printed output of the commands on DIDs, and the command line; of the key store, the generation
--   of keys and the rights of files; failures of the file system other than a missing file. Of
--   swiyu-registries, the building of the HTTP clients.
--   These are mostly input and output around the parts above.
pub mod Prelude
pub mod Json
pub mod Vendor
pub mod DataIntegrity
pub mod Did
pub mod DidDoc
pub mod DidLog
pub mod StatusList
pub mod KeyStore
pub mod Jws
pub mod DidJwk
pub mod SdJwt
pub mod Registries
pub mod Tool
pub mod Trust
