-- ===== src/Requests/Keeping.antt =====
-- Any history of calls keeps a relation that contains the writes of each tenant that takes part.
use enterprise_kratos.Base.{Uuid, List, [], ◌∷◌}
use enterprise_kratos.External.{External}
use enterprise_kratos.Store.{Tables, Env, World}
use enterprise_kratos.Store.Frame.{IsOrder}
use enterprise_kratos.Store.Writes.{HasWrites}
use enterprise_kratos.Store.Keeping as StoreKeeping
use enterprise_kratos.Authenticator.Registry.{Registry}
use enterprise_kratos.Authenticator.Keeping.{EachKeeps}
use enterprise_kratos.Login.Keeping as LoginKeeping
use enterprise_kratos.Registration.Keeping as RegistrationKeeping
use enterprise_kratos.Recovery.Keeping as RecoveryKeeping
use enterprise_kratos.Settings.Keeping as SettingsKeeping
use enterprise_kratos.Verification.Keeping as VerificationKeeping
use enterprise_kratos.Oidc.Client.{OidcClient}
use enterprise_kratos.Oidc.Keeping as OidcKeeping
use enterprise_kratos.Store.Providers.Keeping as ProvidersKeeping
use enterprise_kratos.Requests.{
  Request, login_init, registration_init, recovery_init, get_flow, login_submit,
  registration_submit, recovery_request, recovery_use_token, verification_submit, settings_init,
  settings_submit, session_create, session_get, session_logout, session_revoke, oidc_initiate,
  oidc_callback, provider_create, provider_delete, provider_set_enabled, serve, serve_all,
}

module _ ⦃env : Env⦄ {S : Tables → Tables → Type 0} (o : IsOrder S) (ext : External)
    (client : OidcClient) (reg : Registry) (each : EachKeeps S reg) where
  pub serve-keeps :
      {t : Uuid}
      → HasWrites S t
      → (r : Request) (w : World) → S w.db (serve ext client reg t r w).db
  unfolding serve
  serve-keeps h login_init w = (LoginKeeping.init_flow-keeps o ext reg each h).keeps w
  serve-keeps h registration_init w = (RegistrationKeeping.init_flow-keeps o h ext reg each).keeps w
  serve-keeps h recovery_init w = (RecoveryKeeping.init_flow-keeps o h).keeps w
  serve-keeps h (get_flow id) w = (StoreKeeping.flows-get o h id).keeps w
  serve-keeps h (login_submit id method values) w =
      (LoginKeeping.submit_flow-keeps o ext reg each h id method values).keeps w
  serve-keeps h (registration_submit id method values) w =
      (RegistrationKeeping.submit_flow-keeps o h ext reg each id method values).keeps w
  serve-keeps h (recovery_request id email) w =
      (RecoveryKeeping.request_recovery-keeps o h ext id email).keeps w
  serve-keeps h (recovery_use_token id token) w =
      (RecoveryKeeping.use_token-keeps o h ext id token).keeps w
  serve-keeps h (verification_submit id token) w =
      (VerificationKeeping.submit_flow-keeps o h id token).keeps w
  serve-keeps h (settings_init identity) w = (SettingsKeeping.init_flow-keeps o h identity).keeps w
  serve-keeps h (settings_submit id identity method values) w =
      (SettingsKeeping.submit_flow-keeps o h reg each id identity method values).keeps w
  serve-keeps h (session_create identity aal amr ttl) w =
      (StoreKeeping.sessions-create o h identity aal amr ttl).keeps w
  serve-keeps h (session_get token) w = (StoreKeeping.sessions-get_by_token o h token).keeps w
  serve-keeps h (session_logout token) w = (StoreKeeping.sessions-revoke_by_token o h token).keeps w
  serve-keeps h (session_revoke id) w = (StoreKeeping.sessions-revoke o h id).keeps w
  serve-keeps h (oidc_initiate id provider) w =
      (OidcKeeping.initiate_login-keeps o h ext client id provider).keeps w
  serve-keeps h (oidc_callback state code) w =
      (OidcKeeping.handle_callback-keeps o h ext client state code).keeps w
  serve-keeps h (provider_create kind name config) w =
      (ProvidersKeeping.create-keeps o h kind name config).keeps w
  serve-keeps h (provider_delete id) w = (ProvidersKeeping.delete-keeps o h id).keeps w
  serve-keeps h (provider_set_enabled id enabled) w =
      (ProvidersKeeping.set_enabled-keeps o h id enabled).keeps w

  abbrev pub EachHasWrites : List (Uuid × Request) → Type 0
  EachHasWrites [] = Unit
  EachHasWrites ((t, r) ∷ rs) = HasWrites S t × EachHasWrites rs

  pub serve_all-keeps :
      (rs : List (Uuid × Request))
      → EachHasWrites rs
      → (w : World) → S w.db (serve_all ext client reg rs w).db
  unfolding serve_all
  serve_all-keeps [] h w = o.same w.db
  serve_all-keeps ((t, r) ∷ rs) (h, hs) w =
      o.then_ (serve-keeps h r w) (serve_all-keeps rs hs (serve ext client reg t r w))
