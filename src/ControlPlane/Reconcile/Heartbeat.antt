-- ===== src/ControlPlane/Reconcile/Heartbeat.antt =====
-- A heartbeat of a lab host (`reconcile_heartbeat_payload` of
-- control_plane/reconciliation/service.py, and the lookups of control_plane/db/repos/host.py).
use docker_interface.Prelude.{
  String, Bool, true, false, List, [], ◌∷◌, Option, none, some, str_eq, if◌then◌else◌,
}
use docker_interface.Prelude.Int.{pos, eqb_ℤ}
use docker_interface.Py.Dict.{Dict, string_eq, insert}
use docker_interface.Py.Value.{Value, str, int, dict, fields, as_str, get, list_or_empty, bool}
use docker_interface.ControlPlane.Rows.{Host}
use docker_interface.ControlPlane.Session.{
  Session, Outside, Step, ◌>>=◌, return, read, for_each, select, first, mark_online,
}
use docker_interface.ControlPlane.Reconcile.Run.{reconcile_for_host}

module _ (outside : Outside) where
  -- `runtime_by_id`: the reports of the heartbeat, by container id.
  unfoldable pub add_report :
      Dict String (Dict String Value) → Value → Dict String (Dict String Value)
  add_report known (dict fs) = elim (as_str (get "id" (fields fs))) [
    | none ↦ known
    | some cid ↦ if str_eq cid "" then known else insert cid (fields fs) known
  ]
  add_report known _ = known

  unfoldable pub add_reports :
      Dict String (Dict String Value) → List Value → Dict String (Dict String Value)
  add_reports known [] = known
  add_reports known (item ∷ rest) = add_reports (add_report known item) rest

  unfoldable pub reports : Dict String Value → Dict String (Dict String Value)
  reports payload = add_reports [] (list_or_empty (get "containers" payload))

  abbrev host_by : (Host → Bool) → Session → Option Host
  host_by p s = first (select p s.hosts)

  -- `by_hostname`, and then `by_ip`.
  unfoldable pub host_by_ip : Value → Session → Option Host
  host_by_ip (str ip) s = if str_eq ip "" then none else host_by (λ h. str_eq h.ip_address ip) s
  host_by_ip _ s = none

  abbrev or_else : {A : Type 0} → Option A → Option A → Option A
  or_else none other = other
  or_else (some a) other = some a

  unfoldable pub host_by_id : Value → Value → Session → Option Host
  host_by_id (int n) ip s = host_by (λ h. eqb_ℤ h.id n) s
  host_by_id (bool true) ip s = host_by (λ h. eqb_ℤ h.id (pos 1)) s
  host_by_id (bool false) ip s = host_by (λ h. eqb_ℤ h.id (pos 0)) s
  host_by_id (str name) ip s =
      if str_eq name ""
      then host_by_ip ip s
      else or_else (host_by (λ h. str_eq h.hostname name) s) (host_by_ip ip s)
  host_by_id _ ip s = host_by_ip ip s

  unfoldable pub resolve_from_heartbeat_payload : Dict String Value → Session → Option Host
  resolve_from_heartbeat_payload payload s =
      host_by_id (get "host_id" payload) (get "ip_address" payload) s

  unfoldable pub reconcile_resolved : Dict String Value → Option Host → Step (Unit {0})
  reconcile_resolved payload (some host) = do
    now ← read (λ s. outside.now s.calls)
    online ← mark_online now host
    reconcile_for_host outside (reports payload) online
  reconcile_resolved payload none = do
    hosts ← read (λ s. s.hosts)
    for_each hosts (reconcile_for_host outside [])

  -- The argument says whether another run holds the lock.
  unfoldable pub reconcile_heartbeat_payload : Bool → Dict String Value → Step (Unit {0})
  reconcile_heartbeat_payload true payload = return tt
  reconcile_heartbeat_payload false payload = do
    host ← read (resolve_from_heartbeat_payload payload)
    reconcile_resolved payload host
