-- ===== src/Http/BaseTypes.antt =====
-- The base types of internal/authz/engine/model.json under the grants route of internal/authz/http.go,
-- whose model comes from internal/authz/fragment.
use kiban.Shared.{
  ℕ, String, true, false, none, some, List, [], ◌∷◌, lookup, string_eq, ◌≡◌, ◌⊎◌, inl, inr, All,
}
use kiban.Store.Tables.{Tuple, Op, Db}
use kiban.Engine.Model.{Model}
use kiban.Fragment.Load.{Row, Known, Loaded, loaded, is_in, load}
use kiban.Fragment.Effective.{load-IsEffective}
use kiban.Http.Replies.{accepted}
use kiban.Http.Grants.{Claims, GrantsRequest, Service, Served, appoints}
use kiban.Http.Handle.{handle_grants}
use kiban.Http.Permits.{IsPermitted, appointment, module_object, owned_object}
use kiban.Http.Covers.{handle_grants-All}

-- An administrator's appointment, a company module, or an object of no base type.
abbrev pub SparesBase : Model → String → Tuple → Type 0
SparesBase base company_id t =
    (appoints company_id t ≡ true)
    ⊎ (t.object_type ≡ "company_module")
    ⊎ (is_in t.object_type base ≡ false)

module _ (svc : Service) (l : Loaded) (base : Model) (known : Known) (rows : List Row)
    (from : load base known rows ≡ loaded l) where
  spares :
      (db : Db) (claims : Claims) (company_id : String) (op : Op) (ts : List Tuple) (t : Tuple)
      → IsPermitted svc l db claims company_id op ts t
      → SparesBase base company_id t
  spares db claims company_id op ts t (appointment a d) = inl a
  spares db claims company_id op ts t (module_object m adm typ id hold) = inr (inl typ)
  spares db claims company_id op ts t (owned_object m adm owned anch) =
      inr (inr ((load-IsEffective base known rows l from).base_unowned t.object_type m owned))

  spares-All :
      (db : Db) (claims : Claims) (company_id : String) (op : Op) (ts us : List Tuple)
      → All (IsPermitted svc l db claims company_id op ts) us
      → All (SparesBase base company_id) us
  spares-All db claims company_id op ts [] h = tt
  spares-All db claims company_id op ts (t ∷ us) h =
      (spares db claims company_id op ts t h.0, spares-All db claims company_id op ts us h.1)

-- Over a model that Load returned, and a registry that knows no module with an empty key, a
-- grants request that is written names no object of a base type, but for company modules and for
-- the appointment of administrators of the request's company.
pub handle_grants-SparesBase :
    (svc : Service) (l : Loaded) (base : Model) (known : Known) (rows : List Row)
    → load base known rows ≡ loaded l
    → (claims : Claims) (req : GrantsRequest) (s s2 : Served) (n : ℕ) → svc.effective ≡ some l
    → lookup "" l.known_enabled ≡ none
    → handle_grants svc claims req s ≡ (accepted n, s2)
    → All (SparesBase base req.company_id) req.tuples
handle_grants-SparesBase svc l base known rows from claims req s s2 n effective named h =
    let (op, _, permitted) = handle_grants-All svc l claims req s s2 n effective named h in
    spares-All svc l base known rows from s.db claims req.company_id op req.tuples req.tuples
      permitted
