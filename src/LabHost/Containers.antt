-- ===== src/LabHost/Containers.antt =====
-- What the lab host passes to Docker for a container (lab_host/mappings.py; the models of
-- lab_host/models.py).
pub mod Create
pub mod Runs
pub mod Attempts
pub mod Quiet
pub mod Created
pub mod Published
mod Tests
use docker_interface.Prelude.{
  String, Bool, List, [], ◌∷◌, ◌++◌, map, Option, none, some, str_eq, if◌then◌else◌, not, ◌*◌, ◌+◌,
}
use docker_interface.Prelude.Int.{ℤ, pos, negsuc, ◌-ℤ◌}
use docker_interface.Py.Chars.{chars, to_text}
use docker_interface.Py.Chars.Digits.{str_ℤ}
use docker_interface.Py.Dict.{Dict, string_eq, insert}
use docker_interface.Py.Result.{format}
use docker_interface.LabHost.Ports.{PortMapping}

pub data StorageType : Type 0 where
  bind volume tmpfs : StorageType

pub data NetworkDriver : Type 0 where
  bridge overlay macvlan no_driver : NetworkDriver

pub record ContainerResourceArgs : Type 0 where
  pub cpu_count : Option ℤ
  pub memory_limit : Option String
  pub process_limit : Option ℤ

pub record ContainerNetworkArgs : Type 0 where
  pub name : String
  pub external : Option Bool
  pub driver : Option NetworkDriver
  pub aliases : Option (List String)

pub record ContainerStorageMount : Type 0 where
  pub source : String
  pub target : String
  pub type : StorageType
  pub read_only_mount : Bool

pub record ContainerSecurityArgs : Type 0 where
  pub user : Option String
  pub read_only_root_fs : Option Bool
  pub no_new_privileges : Option Bool
  pub capabilities_drop : Option (List String)
  pub capabilities_add : Option (List String)
  pub privileged : Option Bool
  pub devices : Option (List String)
  pub seccomp_profile : Option String
  pub apparmor_profile : Option String

pub record RestartPolicy : Type 0 where
  pub name : Option String
  pub retries : Option ℤ
  pub delay : Option ℤ

pub record ContainerArgs : Type 0 where
  pub image : String
  pub name : String
  pub command : Option String
  pub env : Option (Dict String String)
  pub ports : Option (List PortMapping)
  pub resources : Option ContainerResourceArgs
  pub security : Option ContainerSecurityArgs
  pub network : Option (List ContainerNetworkArgs)
  pub storage : Option (List ContainerStorageMount)
  pub labels : Option (Dict String String)
  pub restart_policy : Option RestartPolicy

-- `docker.types.Mount`, by the arguments that it is made with.
pub record Mount : Type 0 where
  pub type : String
  pub source : String
  pub target : String
  pub read_only : Bool

-- `ContainerRunKwargs`: `none` is an argument that is left out.
pub record RunKwargs : Type 0 where
  pub image : String
  pub name : String
  pub network : Option String
  pub network_mode : Option String
  pub command : Option String
  pub environment : Option (Dict String String)
  pub ports : Option (Dict String ℤ)
  pub cpu_quota : Option ℤ
  pub mem_limit : Option String
  pub user : Option String
  pub read_only : Option Bool
  pub privileged : Option Bool
  pub cap_drop : Option (List String)
  pub cap_add : Option (List String)
  pub devices : Option (List String)
  pub security_opt : Option (List String)
  pub labels : Option (Dict String String)
  pub mounts : Option (List Mount)

unfoldable pub port_key : PortMapping → String
port_key p = format (to_text (str_ℤ p.container) ∷ "/" ∷ p.protocol ∷ [])

abbrev pub add_ports : Dict String ℤ → List PortMapping → Dict String ℤ
add_ports port_dict [] = port_dict
add_ports port_dict (p ∷ ps) = add_ports (insert (port_key p) p.host port_dict) ps

unfoldable pub build_ports : Option (List PortMapping) → Option (Dict String ℤ)
build_ports none = none
build_ports (some []) = none
build_ports (some (p ∷ ps)) = some (add_ports [] (p ∷ ps))

abbrev seccomp_opt : Option String → List String
seccomp_opt none = []
seccomp_opt (some profile) =
    if str_eq profile "default" then [] else format ("seccomp=" ∷ profile ∷ []) ∷ []

abbrev apparmor_opt : Option String → List String
apparmor_opt none = []
apparmor_opt (some profile) = format ("apparmor=" ∷ profile ∷ []) ∷ []

-- `xs or None`
abbrev pub or_none : {A : Type 0} → List A → Option (List A)
or_none [] = none
or_none (x ∷ xs) = some (x ∷ xs)

unfoldable pub build_security_opts : Option String → Option String → Option (List String)
build_security_opts seccomp_profile apparmor_profile =
    or_none (seccomp_opt seccomp_profile ++ apparmor_opt apparmor_profile)

abbrev storage_value : StorageType → String
storage_value bind = "bind"
storage_value volume = "volume"
storage_value tmpfs = "tmpfs"

abbrev build_mount : ContainerStorageMount → Mount
build_mount m = record {
  type = storage_value m.type;
  source = m.source;
  target = m.target;
  read_only = m.read_only_mount;
}

unfoldable pub build_mounts : Option (List ContainerStorageMount) → Option (List Mount)
build_mounts none = none
build_mounts (some storage) = or_none (map build_mount storage)

-- The network that a container starts in, and its `network_mode`.
abbrev pub first_network : Option (List ContainerNetworkArgs) → Option String
first_network (some (net ∷ nets)) = some net.name
first_network _ = none

abbrev pub is_none : String → Bool
is_none name = str_eq name "none"

abbrev start_network : Option String → Option String
start_network none = none
start_network (some name) = if is_none name then none else some name

abbrev start_mode : Option String → Option String
start_mode none = none
start_mode (some name) = if is_none name then some "none" else none

abbrev bind_option : {A B : Type 0} → Option A → (A → Option B) → Option B
bind_option none f = none
bind_option (some a) f = f a

-- `cpu_count * 100000`
abbrev quota : ℤ → ℤ
quota (pos n) = pos (n * 100000)
quota (negsuc n) = pos 0 -ℤ pos ((n + 1) * 100000)

abbrev map_option : {A B : Type 0} → Option A → (A → B) → Option B
map_option none f = none
map_option (some a) f = some (f a)

unfoldable pub build_container_kwargs : ContainerArgs → RunKwargs
build_container_kwargs args = record {
  image = args.image;
  name = args.name;
  network = start_network (first_network args.network);
  network_mode = start_mode (first_network args.network);
  command = args.command;
  environment = args.env;
  ports = build_ports args.ports;
  cpu_quota = bind_option args.resources (λ r. map_option r.cpu_count quota);
  mem_limit = bind_option args.resources (λ r. r.memory_limit);
  user = bind_option args.security (λ s. s.user);
  read_only = bind_option args.security (λ s. s.read_only_root_fs);
  privileged = bind_option args.security (λ s. s.privileged);
  cap_drop = bind_option args.security (λ s. s.capabilities_drop);
  cap_add = bind_option args.security (λ s. s.capabilities_add);
  devices = bind_option args.security (λ s. s.devices);
  security_opt =
      bind_option args.security (λ s. build_security_opts s.seccomp_profile s.apparmor_profile);
  labels = args.labels;
  mounts = build_mounts args.storage;
}
