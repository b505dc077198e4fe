-- ===== src/Store/Flows.antt =====
-- internal/flow/store.go, over the table self_service_flows.
pub mod Expiry
use enterprise_kratos.Base.{
  ℕ, Bool, ◌&&◌, Option, none, some, [], ◌∷◌, ◌++◌, Uuid, ltb, ◌==◌, if◌then◌else◌, find,
  update as update_rows, any,
}
use enterprise_kratos.Flow.{Flow, FlowType, State, Ui, pending, expired, is_pending}
use enterprise_kratos.Errors.{db_failure, flow_not_found, flow_expired}
use enterprise_kratos.Store.{
  Tables, Env, M, done, fail, ignore, found_or, run, query, time_now, next_uuid, ◌>>=◌, ◌>>◌,
}

-- WHERE tenant_id = $1 AND id = $2.
abbrev pub is_flow : Uuid → Uuid → Flow → Bool
is_flow tenant id f = f.tenant_id == tenant && f.id == id

abbrev pub new_flow : Uuid → Uuid → FlowType → Ui → ℕ → Flow
new_flow id tenant kind ui expires_at = record {
  id = id;
  tenant_id = tenant;
  kind = kind;
  state = pending;
  identity_id = none;
  ui = ui;
  expires_at = expires_at;
}

-- INSERT, which the primary key (tenant_id, id) can refuse.
abbrev inserted : Flow → Tables → Option Flow
inserted f db = if any (is_flow f.tenant_id f.id) db.flows then none else some f

abbrev pub with_inserted : Flow → Tables → Tables
with_inserted f db =
    if any (is_flow f.tenant_id f.id) db.flows then db else record db { flows = db.flows ++ f ∷ [] }

abbrev pub set_columns : State → Option Uuid → Ui → Flow → Flow
set_columns state identity ui f = record f { state = state; identity_id = identity; ui = ui }

abbrev pub set_state : State → Flow → Flow
set_state state f = record f { state = state }

abbrev pub with_update : Uuid → Uuid → (Flow → Flow) → Tables → Tables
with_update tenant id g db = record db { flows = update_rows (is_flow tenant id) g db.flows }

module _ ⦃env : Env⦄ where
  unfoldable pub create : Uuid → FlowType → Ui → ℕ → M Flow
  create tenant kind ui expires_at = do
    id ← next_uuid
    row ←
        run (inserted (new_flow id tenant kind ui expires_at))
          (with_inserted (new_flow id tenant kind ui expires_at))
    found_or db_failure row

  unfoldable pub update_state : Uuid → Uuid → State → M (Unit {0})
  update_state tenant id state = run (λ db. tt) (with_update tenant id (set_state state))

  unfoldable pub check_expiry : Uuid → Uuid → Flow → ℕ → M Flow
  check_expiry tenant id f now =
      if is_pending f.state && ltb f.expires_at now
      then (do ignore (update_state tenant id expired); fail flow_expired)
      else done f

  unfoldable pub get : Uuid → Uuid → M Flow
  get tenant id = do
    row ← query (λ db. find (is_flow tenant id) db.flows)
    f ← found_or flow_not_found row
    now ← time_now
    check_expiry tenant id f now

  unfoldable pub affected : Bool → M (Unit {0})
  affected hit = if hit then done tt else fail flow_not_found

  unfoldable pub update : Uuid → Uuid → State → Option Uuid → Ui → M (Unit {0})
  update tenant id state identity ui = do
    hit ←
        run (λ db. any (is_flow tenant id) db.flows)
          (with_update tenant id (set_columns state identity ui))
    affected hit
