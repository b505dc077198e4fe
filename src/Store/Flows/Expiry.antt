-- ===== src/Store/Flows/Expiry.antt =====
-- What `Get` answers for a flow that has expired.
use enterprise_kratos.Base.{
  suc, ◌<◌, Uuid, true, false, some, ◌≡◌, refl, arith, find, find-update, ap, ◌∙◌,
}
use mathlib.Core.Option
use enterprise_kratos.Flow.{Flow, expired, is_pending}
use enterprise_kratos.Errors.{flow_expired}
use enterprise_kratos.Store.{Env, World, ok, err, effects, Tables}
use enterprise_kratos.Store.Calm.{IsCalm}
use enterprise_kratos.Store.Flows

-- Marking a flow as expired keeps its key.
find-set_state :
    (tenant id : Uuid) (f : Flow) (db : Tables)
    → find (Flows.is_flow tenant id) db.flows ≡ some f
    → find
        (Flows.is_flow tenant id)
        (Flows.with_update tenant id (Flows.set_state expired) db).flows
      ≡ some (Flows.set_state expired f)
find-set_state tenant id f db h =
    find-update (Flows.is_flow tenant id) (Flows.set_state expired) (λ x. refl) db.flows
    ∙ ap (Option.map (Flows.set_state expired)) h

get-finished :
    ⦃env : Env⦄ (tenant id : Uuid) (w : World) (f : Flow)
    → IsCalm env
    → find (Flows.is_flow tenant id) w.db.flows ≡ some f
    → is_pending f.state ≡ false
    → Flows.get tenant id w ≡ (ok f, record w { calls = suc w.calls })
unfolding Flows.get Flows.check_expiry effects
get-finished tenant id w f calm stands h = ground (arith, calm w.calls)

module _ ⦃env : Env⦄ (tenant id : Uuid) (w : World) (calm : IsCalm env) (f : Flow)
    (stands : find (Flows.is_flow tenant id) w.db.flows ≡ some f) where
  get-late :
      is_pending f.state ≡ true
      → f.expires_at < env.now (suc w.calls)
      → Flows.get tenant id w ≡ (
        err flow_expired,
        record w {
          db = Flows.with_update tenant id (Flows.set_state expired) w.db;
          calls = suc (suc w.calls);
        },
      )
  unfolding Flows.get Flows.check_expiry Flows.update_state effects
  get-late waiting over = ground (arith, calm w.calls, calm (suc w.calls))

  -- A pending flow that is read after it has expired, where the database does not fail: the first
  -- read reports that it has expired and marks the row; the next read of the same flow answers it
  -- without an error, in the state expired.
  pub get-expired_twice :
      is_pending f.state ≡ true
      → f.expires_at < env.now (suc w.calls)
      → ((Flows.get tenant id w).0 ≡ err flow_expired)
        × ((Flows.get tenant id (Flows.get tenant id w).1).0 ≡ ok (Flows.set_state expired f))
  get-expired_twice waiting over =
      let first = get-late waiting over in
      (
        ap (λ x. x.0) first,
        ap (λ x. (Flows.get tenant id x.1).0) first
            ∙ ap (λ x. x.0)
                (get-finished tenant id _ (Flows.set_state expired f) calm
                  (find-set_state tenant id f w.db stands) refl),
      )
