-- ===== src/Capabilities.antt =====
-- capabilities.py: what each deployment profile lets the program do.
use phantasm.Base.{ℕ, String, Bool, true, false, ◌||◌, Option, none, some, List, [], ◌∷◌, ◌==◌}
use phantasm.Base.Dict.{Dict, lookup}

pub data Capability : Type 0 where
  metadata_check : Capability
  metadata_reduce : Capability
  face_enroll : Capability
  face_verify : Capability
  entry_maintenance : Capability
  audit_export : Capability
  token_rotation : Capability
  session_reset : Capability
  diagnostics_detail : Capability
  restricted_action : Capability
  rapid_local_clear : Capability

abbrev number : Capability → ℕ
number metadata_check = 0
number metadata_reduce = 1
number face_enroll = 2
number face_verify = 3
number entry_maintenance = 4
number audit_export = 5
number token_rotation = 6
number session_reset = 7
number diagnostics_detail = 8
number restricted_action = 9
number rapid_local_clear = 10

abbrev includes : List Capability → Capability → Bool
includes [] c = false
includes (b ∷ bs) c = number b == number c || includes bs c

pub record DeploymentPolicy : Type 0 where
  pub name : String
  pub enabled : List Capability
  pub quiet_maintenance : Bool

unfoldable pub allows : DeploymentPolicy → Capability → Bool
allows p c = includes p.enabled c

abbrev standard_capabilities : List Capability
standard_capabilities =
    metadata_check ∷ metadata_reduce ∷ face_enroll ∷ face_verify ∷ entry_maintenance ∷ audit_export
    ∷ token_rotation ∷ session_reset ∷ diagnostics_detail ∷ restricted_action ∷ rapid_local_clear
    ∷ []

abbrev field_capabilities : List Capability
field_capabilities =
    metadata_check ∷ metadata_reduce ∷ face_verify ∷ entry_maintenance ∷ audit_export
    ∷ diagnostics_detail ∷ restricted_action ∷ []

abbrev maintenance_capabilities : List Capability
maintenance_capabilities =
    face_verify ∷ entry_maintenance ∷ audit_export ∷ token_rotation ∷ session_reset
    ∷ diagnostics_detail ∷ []

abbrev standard : DeploymentPolicy
standard = record { name = "standard"; enabled = standard_capabilities; quiet_maintenance = false }

abbrev policies : Dict DeploymentPolicy
policies =
    ("standard", standard)
    ∷ ("field", record { name = "field"; enabled = field_capabilities; quiet_maintenance = true })
    ∷ (
      "maintenance",
      record {
        name = "maintenance";
        enabled = maintenance_capabilities;
        quiet_maintenance = false;
      },
    )
    ∷ []

abbrev or_standard : Option DeploymentPolicy → DeploymentPolicy
or_standard none = standard
or_standard (some p) = p

-- The argument is the profile's name that the configuration gives.
unfoldable pub active_policy : String → DeploymentPolicy
unfolding lookup
active_policy selected = or_standard (lookup selected policies)

unfoldable pub capability_enabled : String → Capability → Bool
unfolding active_policy allows
capability_enabled selected c = allows (active_policy selected) c
