-- ===== src/Lib.antt =====
-- The lab host and the control plane of docker-interface: a platform that runs lab environments as
-- Docker containers on remote hosts.
--
-- A lab host (lab_host/) is an HTTP service beside one Docker daemon: it creates containers,
-- deploys compose projects, and runs a reverse proxy (Traefik) whose routes it keeps in files. The
-- control plane (control_plane/) stores hosts, labs, containers and projects in a database and
-- drives the lab hosts over HTTP; a reconciliation thread removes what has expired. A command line
-- tool (cli/) installs both.
--
-- The files:
-- - Prelude and its children: the names that all modules share, tests into Bool, list lemmas,
--   integers.
-- - Py: what the source uses of Python. Chars: texts as lists of characters, with `strip`,
--   `split`, `rsplit`, `isdigit`, `int`, `str`. Dict: dictionaries in insertion order. Value: JSON
--   and YAML documents, and the attributes that the Docker client returns. Result: exceptions as
--   values. Float: the operations on `float`, as a parameter. Memory: the pattern and the units of
--   memory limits.
-- - ControlPlane.Rows, Session, Helpers: the tables of control_plane/db/models/, a request handler
--   as a function on a session (the rows, and the requests made to lab hosts so far), and the
--   helpers of control_plane/controller_helpers.py that call a lab host and read its answers.
-- - ControlPlane.Connection: `resolve_lab_host_connection`; Keys compares it with what the
--   reconciliation uses.
-- - ControlPlane.Secrets: the store in memory of control_plane/secret_store.py, and
--   `build_host_api_key_secret_path`.
-- - ControlPlane.Capacity: `enforce_resource_capacity` and what it sums up; MemoryLimit:
--   `parse_memory_limit_to_mb`, beside the lab host's reading of the same texts.
-- - ControlPlane.Scheduling: `_select_target_lab` and `_select_target_host_for_lab` of
--   control_plane/controller.py; Eligible: which labs are candidates; Order: the orders that the
--   candidates are sorted in.
-- - ControlPlane.Labs: the labs of control_plane/controller.py; Create: `create_lab`,
--   `create_lab_scheduled` and `_create_lab_on_host`; Delete: `delete_lab`; Steps, Triples: what
--   holds after a step that returns or raises; Undone, Created, Whole, Deleted: their laws.
-- - ControlPlane.Reconcile: control_plane/reconciliation/service.py; Run: its steps, for a
--   container, a project, a lab and a host; Heartbeat: a whole run, with the lookups of
--   control_plane/db/repos/host.py.
-- - LabHost.Ports: `_used_host_ports`, `_next_available_host_port` and
--   `_remap_requested_ports_if_needed` of lab_host/docker_interface.py.
-- - LabHost.ShortPort: `_parse_short_port_mapping` and `_render_short_port_mapping`.
-- - LabHost.ComposePorts: `_remap_compose_ports_in_payload` and `_remap_compose_ports_if_needed`.
-- - LabHost.Projects: `_project_dir`.
-- - LabHost.Containers: the arguments that lab_host/mappings.py builds for Docker; Create:
--   `create_container`, with the daemon as a parameter that may answer anything after the events
--   so far; Runs: the runs in its log; Attempts, Quiet, Created, Published: their laws.
-- - LabHost.Limits: `_parse_memory_limit_to_bytes` and `_apply_compose_project_limits`, whose
--   result is the list of the calls of `container.update`.
-- - LabHost.Ingress: the route state file; Render: the two configuration files; Ops:
--   `upsert_ingress_route` and `remove_ingress_route` on the files; Proxy: `ensure_ingress_proxy`
--   on the files and the containers.
-- - Cli.Infra: `InfraState` of cli/core/infra/state.py: the devices and how one is found or
--   changed; Schema: `_ensure_schema` and `_migrate_legacy_payload`; Ops: the operations; Kept,
--   Reached, Migrated, Devices: their laws.
--
-- Modelling. A function that may raise returns a `Result` (LabHost.Errors). Letters, digits and
-- blanks are those of ASCII: other characters count as neither, though Python's `isalnum`,
-- `isdigit`, `lower` and `strip` know those of all scripts. Keys of documents are texts, and the
-- order in which `json.dumps(sort_keys=True)` writes keys is left out, since only lookups read the
-- file back. `True` and `False` are integers, as `isinstance(x, int)` says. A set of ports is the
-- list of what was added. The Docker daemon is given by its containers, each with its attributes
-- and whether it runs; what it answers to a run, a removal or a reload of a container is a
-- parameter, and so are SHA-1 and `float`. ControlPlane.Reconcile.Settled writes out which status
-- Docker documents behind a start, a stop and a pause, and from which statuses it refuses them.
--
-- A session commits each change of the database at once, as every method of the repositories does,
-- so an exception undoes nothing. What a lab host answers, or that the request raises an error of
-- HTTP or another exception, and the time, are parameters that may depend on all requests made so
-- far; the secret store is a parameter too, which gives a secret or raises. Times are integers of
-- microseconds. Ids are unique in the database; the model does not need it. The reconciliation
-- lock is an argument that says whether another run holds it. A `float` column holds the 64 bits.
--
-- Fuel. The search for a free port makes a round only at a port up to 65535, so 65536 less the
-- first port is enough rounds; the proofs show that the loop ends by its test. `create_container`
-- makes the source's own five attempts.
--
-- Not modelled: an error of the database (a unique constraint that is violated between a check and
-- an insert, a lost connection); the id of a new row is a parameter, and rows that refer to a lab
-- go with it. HTTP, RabbitMQ, the database, Ansible and prompts are I/O. The container summary in
-- the response is left out of `ensure_ingress_proxy`, and so is a failure of Docker's list of
-- containers. The timeout of a request to a lab host is left out: a request that takes too long is
-- one that fails.
pub mod Prelude
pub mod Py
pub mod LabHost
pub mod ControlPlane
pub mod Cli
