-- ===== src/ControlPlane/Rows.antt =====
-- The tables of control_plane/db/models/, with their columns. Times are microseconds.
use docker_interface.Prelude.{ℕ, String, Option, Bool}
use docker_interface.Py.Dict.{Dict}
use docker_interface.Prelude.Int.{ℤ}
use docker_interface.Py.Value.{Value}

pub data LifetimeType : Type 0 where
  persistent ephemeral single_use session : LifetimeType

pub data ContainerStatus : Type 0 where
  created started stopped paused : ContainerStatus

pub data ProjectDesiredState : Type 0 where
  running stopped : ProjectDesiredState

pub data HostStatus : Type 0 where
  online offline draining : HostStatus

pub data LabStatus : Type 0 where
  lab_running lab_stopped lab_failed : LabStatus

pub data ComposeSourceType : Type 0 where
  git archive inline : ComposeSourceType

pub data ProjectNetworkMode : Type 0 where
  internal_private internal_exposed external_private external_exposed : ProjectNetworkMode

pub data NetworkDriver : Type 0 where
  bridge overlay : NetworkDriver

pub record Network : Type 0 where
  pub id : ℤ
  pub network_id : String
  pub name : String
  pub lab_id : ℤ
  pub driver : NetworkDriver
  pub created_at_utc : ℤ

pub record Container : Type 0 where
  pub id : ℤ
  pub container_id : String
  pub name : String
  pub image : String
  pub lab_id : ℤ
  pub status : ContainerStatus
  pub cpu_limit : Option ℤ
  pub memory_limit_mb : Option ℤ
  pub lifetime_type : LifetimeType
  pub time_to_live_seconds : Option ℤ
  pub created_at_utc : ℤ
  pub last_seen_utc : ℤ

-- `cpu_limit` is a `float`, as its bit pattern.
pub record Project : Type 0 where
  pub id : ℤ
  pub lab_id : ℤ
  pub project_name : String
  pub source_type : ComposeSourceType
  pub source_url : Option String
  pub ref : Option String
  pub compose_file : String
  pub compose_content : Option String
  pub env : Option (Dict String String)
  pub pull : Bool
  pub build : Bool
  pub network_mode : ProjectNetworkMode
  pub desired_state : ProjectDesiredState
  pub exposed_services : Value
  pub lifetime_type : LifetimeType
  pub time_to_live_seconds : Option ℤ
  pub cpu_limit : Option ℕ
  pub memory_limit_mb : Option ℤ
  pub created_at_utc : ℤ
  pub updated_at_utc : ℤ

pub record Host : Type 0 where
  pub id : ℤ
  pub hostname : String
  pub ip_address : String
  pub port : ℤ
  pub scheme : String
  pub api_key_secret_path : Option String
  pub status : HostStatus
  pub base_domain : Option String
  pub dns_zone : Option String
  pub ingress_target : Option String
  pub cpu_total : ℤ
  pub memory_total_mb : ℤ
  pub created_at_utc : ℤ
  pub last_heartbeat_utc : ℤ

pub record Lab : Type 0 where
  pub id : ℤ
  pub name : String
  pub host_id : ℤ
  pub status : LabStatus
  pub default_internal_network_id : Option ℤ
  pub default_external_network_id : Option ℤ
  pub cpu_limit : Option ℤ
  pub memory_limit_mb : Option ℤ
  pub created_at_utc : ℤ
