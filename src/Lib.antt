-- ===== src/Lib.antt =====
-- Phasmid: local-only storage with two disclosure modes and four encrypted slots in one container, and
-- the guards in front of it.
--
-- The vault. `Storage` is what the code sees of the machine: the container file as an optional list of
-- bytes, the access key file, a counter of the draws from os.urandom, and a clock. `Platform` gathers
-- what the repository takes from outside: AES-GCM, Argon2id, the JSON codec and the secrets of the
-- providers, as parameters with the laws that are documented of them; `Platform/Sample.antt` has a
-- platform in which the laws hold. On these stand
--   Container      src/phasmid/container_layout.py, ContainerLayout
--   RecordCipher   src/phasmid/record_cypher.py, RecordCipher
--   KdfEngine      src/phasmid/kdf_engine.py, KDFEngine
--   Vault          src/phasmid/vault_core.py, PhasmidVault, which calls the three
-- A method of these is a function from a world to a result or an error, and the world after it: what was
-- written before an error stays written. Function names are the source's without leading underscores.
--
-- The guards.
--   AttemptLimiter     src/phasmid/attempt_limiter.py, AttemptLimiter
--   Standby            src/phasmid/standby_state.py, StandbyStateMachine
--   Approval           src/phasmid/approval_flow.py, DualApprovalGate
--   Capabilities       src/phasmid/capabilities.py
--   RestrictedActions  src/phasmid/restricted_actions.py
--   Web                src/phasmid/web_server.py: the sessions, the roles, the rate limit and the routes
--                      /unlock, /lock and /restricted/confirm; it uses the three of AttemptLimiter,
--                      Capabilities and RestrictedActions
--   WebStore           src/phasmid/web_server.py: the choice of an entry and the route /store
--   WebRetrieve        src/phasmid/web_server.py: the route /retrieve and its destroy passwords
--   WebEmergency       src/phasmid/web_server.py: the routes /purge_other, /emergency/brick and
--                      /emergency/initialize
--   CuePolicyGate      src/phasmid/object_cue_policy_gate.py
--   ObjectGatePolicy   src/phasmid/object_gate_policy.py
--   StateStore         src/phasmid/state_store.py
--   PassphrasePolicy   src/phasmid/passphrase_policy.py
--   Metadata           src/phasmid/metadata.py, with the walks over JPEG and PNG in files of their own
--   Luks               src/phasmid/luks_layer.py and luks_key_store.py
--
-- The small encrypted files beside the vault. `LocalState` is the key file and the cipher that they share,
-- over `Platform`; a store is one key file and one encrypted file.
--   LocalState          src/phasmid/local_state_crypto.py, LocalStateCipher
--   Roles               src/phasmid/roles.py, RoleStore; Roles/Signing fills the role store of Approval
--   AccessTokens        src/phasmid/services/access_token_service.py; AccessTokens/Bootstrap fills the token
--                       service of Web
--   RegistrySeal        src/phasmid/services/vessel_registry_seal.py
--   Audit               src/phasmid/audit.py: its log is a list of lines of a type that is a parameter
--   FileAttemptLimiter  src/phasmid/attempt_limiter.py, FileAttemptLimiter, over StateStore
--
-- The vessels. The workflows run over the vault and the registry at once; their state is the world of the vault,
-- the registry, and whether there are references of objects. The camera, the object matcher and scrypt are fields
-- of a record of services (`FaceWorkflow/Inputs.antt`), and each is read as it is when the call begins.
--   VesselRegistry  src/phasmid/services/vessel_service.py: the records of vessels and faces after a load; a
--                   store and a load, which merge the faces with their seals by id, are taken to give back the
--                   records, as they do where no two faces of a vessel have one id
--   FaceNamespace   src/phasmid/services/vessel_workflow_service.py: the document of the files of a face
--   FaceWorkflow    src/phasmid/services/vessel_workflow_service.py: the calls on a face, in Files and Destroy,
--                   over object binding and destroy passphrase (Binding, Credentials), the waits of Camera, the
--                   filler files of Filler, and the creation of a vessel in Lifecycle
--
-- Where a function reads the clock or draws a nonce, the reading is an argument, one for each call, in the
-- order of the calls; so a theorem holds for every clock that its hypotheses allow.
--
-- `Base` has the shared types, tests and lemmas. Loops are structural recursions on lists; the loop that
-- writes random chunks has the length to write as its fuel, which is enough since each round writes at least
-- one byte.
--
-- The walk over an image has the length of the file as its fuel, which is enough since each round passes a
-- byte at least.
--
-- The waits for the camera have as fuel one turn more than fit into the timeout, which is enough since each turn
-- sleeps for a tenth of a second at least.
--
-- Not modelled: errors of the file system other than a missing file, except where a method takes them as an
-- argument (Roles, Luks), permissions of files, threads (each method is one step), logging,
-- the pages of the web interface and the other routes that work on entries, the command line and terminal interfaces, the image matchers, the size arguments of a new vessel, the scoring of its filler files, the JSON form of the registry, and the scripts.
pub mod Base
pub mod Storage
pub mod Container
pub mod Platform
pub mod RecordCipher
pub mod KdfEngine
pub mod Vault
pub mod VesselRegistry
pub mod FaceNamespace
pub mod FaceWorkflow
pub mod AttemptLimiter
pub mod Standby
pub mod Approval
pub mod Capabilities
pub mod RestrictedActions
pub mod Web
pub mod CuePolicyGate
pub mod ObjectGatePolicy
pub mod StateStore
pub mod PassphrasePolicy
pub mod LocalState
pub mod Roles
pub mod AccessTokens
pub mod Audit
pub mod RegistrySeal
pub mod FileAttemptLimiter
pub mod Luks
pub mod WebStore
pub mod WebRetrieve
pub mod WebEmergency
pub mod Metadata
