-- ===== src/Store/Lookup.antt =====
-- What a successful `Flows.get` answers: the flow of that tenant and ID, pending flows only before
-- they expire, with nothing written.
use enterprise_kratos.Base.{suc, Uuid, ◌≡◌, false, ◌&&◌, ltb, arith, find, find-satisfies, some}
use enterprise_kratos.Flow.{Flow, is_pending}
use enterprise_kratos.Store.{Env, World, ok, effects}
use enterprise_kratos.Store.Flows
use enterprise_kratos.Store.Flows.{is_flow}

module _ ⦃env : Env⦄ (tenant id : Uuid) (w : World) where
  -- A flow that `get` answers stands in the table, has not expired, and nothing was written.
  pub record Got (f : Flow) (w' : World) : Type 0 where
    pub stands : find (is_flow tenant id) w.db.flows ≡ some f
    pub same_tenant : f.tenant_id ≡ tenant
    pub same_id : f.id ≡ id
    pub unwritten : w'.db ≡ w.db
    pub calls : w'.calls ≡ suc w.calls
    pub alive : (is_pending f.state && ltb f.expires_at (env.now (suc w.calls))) ≡ false

  pub get-Got : (f : Flow) → (Flows.get tenant id w).0 ≡ ok f → Got f (Flows.get tenant id w).1
  unfolding Flows.get Flows.check_expiry effects
  get-Got f h = ground (arith, find-satisfies (is_flow tenant id) w.db.flows f)
