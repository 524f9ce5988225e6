-- ===== src/LabHost.antt =====
-- The lab host service: lab_host/docker_interface.py, lab_host/mappings.py and the models they use.
pub mod Errors
pub mod Ports
pub mod ShortPort
pub mod Limits
pub mod Ingress
pub mod ComposePorts
pub mod Projects
pub mod Containers
