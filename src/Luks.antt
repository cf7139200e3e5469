-- ===== src/Luks.antt =====
-- luks_layer.py and luks_key_store.py: mounting and unmounting the encrypted volume by a wrapper command,
-- and the key file that is handed to it. What the commands and the file system answer is an argument of
-- the methods.
pub mod Session
use phantasm.Base.{
  ℕ, suc, ◌≡◌, String, Bool, true, false, not, ◌&&◌, Option, none, some, List, [], ◌∷◌, Bytes,
  length, ltb, leb, max, str_eq, ◌==◌, if◌then◌else◌,
}
use phantasm.Base.Except.{Result, ok, err}
use phantasm.Storage.{Error, os_error}

pub data LuksMode : Type 0 where
  file_container : LuksMode
  partition : LuksMode
  disabled : LuksMode

-- The text is stripped and in lower case already.
unfoldable pub from_text : String → LuksMode
from_text normalized =
    if str_eq normalized "file"
    then file_container
    else if str_eq normalized "partition"
    then partition
    else disabled

abbrev pub is_disabled : LuksMode → Bool
is_disabled disabled = true
is_disabled _ = false

pub record LuksConfig : Type 0 where
  pub mode : LuksMode
  pub container_path : String
  pub mount_point : String
  pub iter_time_ms : ℕ

pub record LuksMountResult : Type 0 where
  pub success : Bool
  pub mounted : Bool
  pub mode : LuksMode
  pub mount_point : String
  pub error_message : String

-- The key file, the variable `PHASMID_STATE_DIR` of the process, and the calls of os.urandom
pub record Luks : Type 0 where
  pub key : Option Bytes
  pub state_dir : Option String
  pub draws : ℕ

-- The answers of the system during one method
pub record Host : Type 0 where
  -- the directory of the key is there, and the key file can be written, or written and then removed
  pub key_writable : Bool
  pub key_removable : Bool
  pub has_cryptsetup : Bool
  -- the return codes; `none` where the command cannot be started
  pub mountpoint_code : Option ℕ
  pub wrapper_code : Option ℕ
  -- the bytes of the k-th call, as many as were asked for
  pub urandom : ℕ → ℕ → Bytes
  pub utf8 : String → Bytes

abbrev result : LuksConfig → Bool → Bool → String → LuksMountResult
result cfg success mounted message = record {
  success = success;
  mounted = mounted;
  mode = cfg.mode;
  mount_point = cfg.mount_point;
  error_message = message;
}

unfoldable pub is_available : Host → LuksConfig → Bool
is_available host cfg = if is_disabled cfg.mode then false else host.has_cryptsetup

unfoldable pub status : Host → LuksConfig → Result Error LuksMountResult
status host cfg =
    if is_disabled cfg.mode
    then ok (result cfg true false "")
    else if not (is_available host cfg)
    then ok (result cfg false false "cryptsetup not available")
    else elim host.mountpoint_code [
      | none ↦ err os_error
      | some code ↦ ok (result cfg true (code == 0) "")
    ]

-- `generate_and_store`, where the file system allows it
unfoldable pub generate_and_store : Host → Luks → Luks
generate_and_store host s = record s { key = some (host.urandom s.draws 32); draws = suc s.draws }

abbrev noise_written : Bool → Bytes → Luks → Bool × Luks
noise_written true noise s = (true, record s { key = none; draws = suc s.draws })
noise_written false noise s = (false, record s { key = some noise; draws = suc s.draws })

unfoldable pub destroy : Host → Luks → Bool × Luks
destroy host s = elim s.key [
  | none ↦ (true, s)
  | some k ↦
      if host.key_writable
      then noise_written host.key_removable (host.urandom s.draws (max (length k) 32)) s
      else (false, s)
]

abbrev store_key : Host → String → Luks → Luks
store_key host passphrase s =
    if str_eq passphrase ""
    then generate_and_store host s
    else record s { key = some (host.utf8 passphrase) }

abbrev run_mount : LuksConfig → Option ℕ → Luks → LuksMountResult × Luks
run_mount cfg none s = (result cfg false false "mount operation failed", s)
run_mount cfg (some code) s =
    if not (code == 0)
    then (result cfg false false "mount wrapper failed", s)
    else (result cfg true true "", record s { state_dir = some cfg.mount_point })

unfoldable pub mount : Host → LuksConfig → String → Luks → LuksMountResult × Luks
mount host cfg passphrase s =
    if is_disabled cfg.mode
    then (result cfg false false "luks mode disabled", s)
    else if not (is_available host cfg)
    then (result cfg false false "cryptsetup not available", s)
    else if not host.key_writable
    then (result cfg false false "mount operation failed", s)
    else run_mount cfg host.wrapper_code (store_key host passphrase s)

abbrev is_at : Option String → String → Bool
is_at none path = str_eq "" path
is_at (some dir) path = str_eq dir path

unfoldable pub unmount : Host → LuksConfig → Luks → Result Error Bool × Luks
unmount host cfg s = if is_disabled cfg.mode then (ok true, s) else elim host.wrapper_code [
  | none ↦ (err os_error, s)
  | some code ↦
      if not (code == 0)
      then (ok false, s)
      else (ok true, if is_at s.state_dir cfg.mount_point then record s { state_dir = none } else s)
]

-- The key is destroyed before the volume.
unfoldable pub restricted_clear : Host → Luks → Result Error Bool × Luks
restricted_clear host s =
    let (cleared, after) = destroy host s in
    elim host.wrapper_code [
      | none ↦ (err os_error, after)
      | some code ↦ (ok (cleared && (code == 0)), after)
    ]
