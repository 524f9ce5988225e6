-- ===== src/ControlPlane/Connection/Keys.antt =====
-- The request handlers and the reconciliation use the same key for a host.
use docker_interface.Py.Value.{Value}
use docker_interface.Py.Result.{Result}
use docker_interface.ControlPlane.Session.{Session}
