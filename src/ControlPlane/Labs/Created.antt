-- ===== src/ControlPlane/Labs/Created.antt =====
-- `_create_lab_on_host` creates a lab with two networks, or leaves no row of it.
use docker_interface.Prelude.{
  String, ◌≡◌, refl, ap, ◌∙◌, Bool, true, false, List, [], ◌∷◌, ◌++◌, Option, none, some,
}
use docker_interface.Prelude.Int.{ℤ}
use docker_interface.Py.Float.{Float}
use docker_interface.Py.Result.{Result, ok, err, format}
use docker_interface.ControlPlane.Rows.{Network, Host, Lab}
use docker_interface.ControlPlane.Session.{
  HttpError, Session, Outside, Step, raise, for_each, post, delete,
}
use docker_interface.ControlPlane.Reconcile.Invariant.{Keeps, Keeps-bind}
use docker_interface.ControlPlane.Labs.{
  delete_lab_row, write, CreatedNetwork, extract_network_from_result,
}
use docker_interface.ControlPlane.Labs.Create.{
  insert_lab, insert_network, put_lab, new_network, network_body, request_network, delete_network,
  undo, after_try, guarded, with_default_networks, create_networks, keep_external, store_external,
  keep_internal, store_internal, created_response, insert_and_create,
}
use docker_interface.ControlPlane.Labs.Steps.{
  SameRows, call-Keeps, call_with-Keeps, raise_for-Keeps, check-Keeps,
}
use docker_interface.ControlPlane.Labs.Undone.{IsUnused, undone_lab, undone_network, put_lab-last}
use docker_interface.ControlPlane.Labs.Triples.{
  After, Triple, Triple-bind, Triple-return, Triple-write, Triple-read,
}

-- The rows after the creation of a lab: its own, and those of its two networks, behind those of the start.
pub record IsCreated (base : Session) (name : String) (host_id : ℤ) (c : Lab) (s : Session)
    : Type 0 where
  pub internal : Network
  pub external : Network
  pub its_internal : c.default_internal_network_id ≡ some internal.id
  pub its_external : c.default_external_network_id ≡ some external.id
  pub of_lab : (internal.lab_id ≡ c.id) × (external.lab_id ≡ c.id)
  pub of_host : (c.name ≡ name) × (c.host_id ≡ host_id)
  pub rows :
      SameRows
        (record base {
          labs = base.labs ++ c ∷ [];
          networks = (base.networks ++ internal ∷ []) ++ external ∷ [];
        })
        s

module _ (fl : Float) (new_id : List ℤ → ℤ) (outside : Outside) (base : Session) where
  abbrev Unchanged : HttpError → Session → Type 0
  Unchanged e s = SameRows base s

  module _ (host : Host) (api_key : String) (lab : Lab) where
    request-Keeps :
        (b : Session) (role : String) (internal : Bool)
        → Keeps (SameRows b) (request_network fl new_id outside host api_key lab role internal)
    request-Keeps b role internal =
        let body = network_body fl new_id outside host api_key lab role internal in
        Keeps-bind (SameRows b) _ _ (call_with-Keeps b outside host api_key post "/networks" body)
          λ result.
            Keeps-bind (SameRows b) _ _ (raise_for-Keeps (SameRows b) result _ none)
              λ _. check-Keeps (SameRows b) (λ s. extract_network_from_result result)

    -- A removal that fails is passed over.
    delete_networks-rows :
        (b : Session) (ids : List String)
        → Triple Unchanged
            (SameRows b)
            (for_each ids (delete_network fl new_id outside host api_key))
            (λ _. SameRows b)
    delete_networks-rows b [] = Triple-return Unchanged tt _ (λ s h. h)
    delete_networks-rows b (id ∷ ids) =
        let path = format ("/networks/" ∷ id ∷ []) in
        Triple-bind Unchanged (delete_network fl new_id outside host api_key id) _ (λ _. SameRows b)
          _ (record { holds = λ s h. (call-Keeps b outside host api_key delete path []).keeps s h })
          λ _. delete_networks-rows b ids

    undo-rows :
        {B : Type 0} (b : Session) (ids : List String) (e : HttpError) (R : B → Session → Type 0)
        → delete_lab_row lab.id b ≡ base
        → Triple Unchanged (SameRows b) (undo fl new_id outside host api_key lab ids e) R
    undo-rows b ids e R undone =
        let row = write (delete_lab_row lab.id) in
        let deleted : Triple Unchanged (SameRows b) row (λ _. SameRows base) = record {
          holds = λ s h.
              ap (delete_lab_row lab.id) h
              ∙ ap (λ (x : Session). record x { calls = s.calls }) undone;
        } in
        Triple-bind Unchanged _ _ (λ _. SameRows b) R (delete_networks-rows b ids)
          λ _.
            Triple-bind Unchanged row (λ _. raise e) (λ _. SameRows base) R deleted
              λ _. record { holds = λ s h. h }

    after_try-rows :
        {A B : Type 0} (b : Session) (ids : List String) (k : A → Step B) (R : B → Session → Type 0)
        (r : Result HttpError A × Session)
        → delete_lab_row lab.id b ≡ base
        → ((a : A) → Triple Unchanged (SameRows b) (k a) R)
        → SameRows b r.1
        → After R Unchanged (after_try fl new_id outside host api_key lab ids k r)
    after_try-rows b ids k R (ok a, s) undone h same = (h a).holds s same
    after_try-rows b ids k R (err e, s) undone h same = (undo-rows b ids e R undone).holds s same

    -- A step of the `try` that only makes requests: if it raises, the rows of the start are left.
    guarded-rows :
        {A B : Type 0} (b : Session) (ids : List String) (m : Step A) (k : A → Step B)
        (R : B → Session → Type 0)
        → Keeps (SameRows b) m
        → delete_lab_row lab.id b ≡ base
        → ((a : A) → Triple Unchanged (SameRows b) (k a) R)
        → Triple Unchanged (SameRows b) (guarded fl new_id outside host api_key lab ids m k) R
    guarded-rows b ids m k R keep undone h = record {
      holds = λ s same. after_try-rows b ids k R (m s) undone h (keep.keeps s same);
    }

    abbrev Done : Lab → Session → Type 0
    Done c s = IsCreated base lab.name lab.host_id c s

    module _ (unused : IsUnused lab.id base) where
      abbrev b1 : Session
      b1 = insert_lab fl new_id outside lab base

      module _ (n1 : Network) (of_n1 : n1.lab_id ≡ lab.id) where
        abbrev b2 : Session
        b2 = insert_network fl new_id outside n1 b1

        keep_external-rows :
            (n2 : Network)
            → n2.lab_id ≡ lab.id
            → Triple Unchanged
                (SameRows b2)
                (keep_external fl new_id outside host api_key lab n1 n2)
                Done
        keep_external-rows n2 of_n2 =
            let c = with_default_networks fl new_id outside host api_key lab n1 n2 in
            record {
              holds = λ s h.
                  let put =
                    put_lab-last fl new_id outside base lab unused c base.labs refl unused.labs in
                  record {
                    internal = n1;
                    external = n2;
                    its_internal = refl;
                    its_external = refl;
                    of_lab = (of_n1, of_n2);
                    of_host = (refl, refl);
                    rows =
                        ap
                          (λ (x : Session). record x {
                            networks = x.networks ++ n2 ∷ [];
                            labs = put_lab fl new_id outside c x.labs;
                          })
                          h
                        ∙ ap
                            (λ ls. record base {
                              labs = ls;
                              networks = (base.networks ++ n1 ∷ []) ++ n2 ∷ [];
                              calls = s.calls;
                            })
                            put;
                  };
            }

        store_external-rows :
            (external : CreatedNetwork)
            → Triple Unchanged
                (SameRows b2)
                (store_external fl new_id outside host api_key lab n1 external)
                Done
        store_external-rows external =
            Triple-read Unchanged (SameRows b2) (new_network fl new_id outside lab external)
              (keep_external fl new_id outside host api_key lab n1) Done
              λ s h. keep_external-rows (new_network fl new_id outside lab external s) refl

        keep_internal-rows :
            (internal : CreatedNetwork)
            → Triple Unchanged
                (SameRows b1)
                (keep_internal fl new_id outside host api_key lab internal n1)
                Done
        keep_internal-rows internal =
            Triple-bind Unchanged (write (insert_network fl new_id outside n1)) _ (λ _. SameRows b2)
              Done
              (Triple-write Unchanged b1 (insert_network fl new_id outside n1)
                (λ s h. ap (insert_network fl new_id outside n1) h))
              λ _.
                guarded-rows b2 (internal.network_id ∷ [])
                  (request_network fl new_id outside host api_key lab "external" false)
                  (store_external fl new_id outside host api_key lab n1) Done
                  (request-Keeps b2 "external" false)
                  (undone_network fl new_id outside base lab unused n1 of_n1) store_external-rows

      store_internal-rows :
          (internal : CreatedNetwork)
          → Triple Unchanged
              (SameRows b1)
              (store_internal fl new_id outside host api_key lab internal)
              Done
      store_internal-rows internal =
          Triple-read Unchanged (SameRows b1) (new_network fl new_id outside lab internal)
            (keep_internal fl new_id outside host api_key lab internal) Done
            λ s h. keep_internal-rows (new_network fl new_id outside lab internal s) refl internal

      pub create_networks-rows :
          Triple Unchanged (SameRows b1) (create_networks fl new_id outside host api_key lab) Done
      create_networks-rows =
          guarded-rows b1 [] (request_network fl new_id outside host api_key lab "internal" true)
            (store_internal fl new_id outside host api_key lab) Done
            (request-Keeps b1 "internal" true) (undone_lab fl new_id outside base lab unused)
            store_internal-rows

      pub insert_and_create-rows :
          (limit_warning : Option String)
          → Triple Unchanged
              (SameRows base)
              (insert_and_create fl new_id outside host api_key limit_warning lab)
              (λ r. Done r.lab)
      insert_and_create-rows limit_warning =
          Triple-bind Unchanged (write (insert_lab fl new_id outside lab)) _ (λ _. SameRows b1)
            (λ r. Done r.lab)
            (Triple-write Unchanged base (insert_lab fl new_id outside lab)
              (λ s h. ap (insert_lab fl new_id outside lab) h))
            λ _.
              Triple-bind Unchanged (create_networks fl new_id outside host api_key lab)
                (created_response fl new_id outside host api_key limit_warning) Done
                (λ r. Done r.lab) create_networks-rows λ c. record { holds = λ s h. h }
