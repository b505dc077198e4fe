-- ===== src/Authenticator/Rest/Soundness.antt =====
-- What an accepted login behind a REST service rests on.
use enterprise_kratos.Base.{suc, String, true, Option, none, some, Json, ◌≡◌, refl, arith}
use Prim.Native.String.{◌++◌ as text_append}
use enterprise_kratos.External.{External}
use enterprise_kratos.Store.{Tables, World, ok, effects}
use enterprise_kratos.Store.Frame.{
  IsOrder, Unwritten-IsOrder, Keeps, Keeps-fail, Keeps-done, keeping,
}
use enterprise_kratos.Authenticator.{CompleteFlowRequest, AuthResult}
use enterprise_kratos.Authenticator.Keeping.{KeepsAll}
use enterprise_kratos.Authenticator.Rest
use enterprise_kratos.Authenticator.Rest.{
  Service, Adapter, Reply, CompleteFlowResp, decode_complete, is_success,
}

module _ {S : Tables → Tables → Type 0} (o : IsOrder S) (ext : External) (service : Service)
    (a : Adapter) where
  received-keeps : (reply : Option Reply) → Keeps S (Rest.received reply)
  unfolding Rest.received
  received-keeps none = Keeps-fail o _
  received-keeps (some r) = search (keeping, o)

  post-keeps : (path : String) (body : Json) → Keeps S (Rest.post ext service a path body)
  unfolding Rest.post
  post-keeps path body = record {
    keeps = λ w.
        (received-keeps (service.post w.calls _ body)).keeps (record w { calls = suc w.calls });
  }

  decoded-keeps {ℓ} : {A : Type ℓ} (x : Option A) → Keeps S (Rest.decoded x)
  unfolding Rest.decoded
  decoded-keeps none = Keeps-fail o _
  decoded-keeps (some x) = Keeps-done o x

  accepted-keeps :
      (r : CompleteFlowRequest) (resp : CompleteFlowResp)
      → Keeps S (Rest.accepted ext service a r resp)
  unfolding Rest.accepted
  accepted-keeps r resp = search (keeping, o)

  -- A REST authenticator keeps every relation: it writes to no table.
  pub rest-KeepsAll : KeepsAll S (Rest.adapter ext service a)
  unfolding Rest.adapter Rest.start_flow Rest.complete_flow Rest.enroll Rest.unenroll
  rest-KeepsAll = record {
    start_flow = λ r. search (keeping, o, post-keeps, decoded-keeps);
    complete_flow = λ r. search (keeping, o, post-keeps, decoded-keeps, accepted-keeps) depth 12;
    enroll = λ r. search (keeping, o, post-keeps, decoded-keeps);
    unenroll = λ r. search (keeping, o, post-keeps);
  }

module _ (ext : External) (service : Service) (a : Adapter) (r : CompleteFlowRequest)
    (w : World) where
  abbrev asked : Option Reply
  asked =
      service.post w.calls (text_append a.base_url "/flows/complete")
        (Rest.complete_body ext service a r)

  -- The answer that an accepted login rests on.
  pub record Accepted (result : AuthResult) : Type 0 where
    pub reply : Reply
    pub body : Json
    pub resp : CompleteFlowResp
    pub answered : asked ≡ some reply
    pub is_2xx : is_success reply.status ≡ true
    pub is_json : reply.body ≡ some body
    pub decodes : decode_complete body ≡ some resp
    pub succeeded : resp.success ≡ true
    pub identity : result.identity_id ≡ r.identity_id
    pub aal : result.aal ≡ resp.aal
    pub amr : result.amr ≡ resp.amr

  from_resp :
      (result : AuthResult) (reply : Reply) (body : Json) (x : Option CompleteFlowResp)
      → asked ≡ some reply
      → is_success reply.status ≡ true
      → reply.body ≡ some body
      → decode_complete body ≡ x
      → (Rest.complete_flow ext service a r w).0 ≡ ok result
      → Accepted result
  unfolding Rest.complete_flow Rest.post Rest.received Rest.decoded Rest.accepted effects
  from_resp result reply body none q s b d h = ground arith
  from_resp result reply body (some resp) q s b d h = record {
    reply = reply;
    body = body;
    resp = resp;
    answered = q;
    is_2xx = s;
    is_json = b;
    decodes = d;
    succeeded = ground arith;
    identity = ground arith;
    aal = ground arith;
    amr = ground arith;
  }

  from_body :
      (result : AuthResult) (reply : Reply) (x : Option Json)
      → asked ≡ some reply
      → is_success reply.status ≡ true
      → reply.body ≡ x
      → (Rest.complete_flow ext service a r w).0 ≡ ok result
      → Accepted result
  unfolding Rest.complete_flow Rest.post Rest.received Rest.decoded effects
  from_body result reply none q s b h = ground arith
  from_body result reply (some body) q s b h =
      from_resp result reply body (decode_complete body) q s b refl h

  from_reply :
      (result : AuthResult) (x : Option Reply)
      → asked ≡ x
      → (Rest.complete_flow ext service a r w).0 ≡ ok result
      → Accepted result
  unfolding Rest.complete_flow Rest.post Rest.received effects
  from_reply result none q h = ground arith
  from_reply result (some reply) q h = from_body result reply reply.body q (ground arith) refl h

  asked_once :
      (result : AuthResult)
      → (Rest.complete_flow ext service a r w).0 ≡ ok result
      → (Rest.complete_flow ext service a r w).1.calls ≡ suc w.calls
  unfolding Rest.complete_flow Rest.post Rest.received Rest.decoded Rest.accepted effects
  asked_once result h = ground arith

  -- For every service: where a REST authenticator accepts a login, the service was asked in one
  -- call, at the path of its base URL for completed flows with the tenant, the identity, the flow
  -- and the values of the request, and answered with a 2xx status, a JSON body that decodes, and
  -- success true. The identity is that of the request, the level and the methods are what the
  -- service says, and nothing is written.
  pub complete_flow-Accepted :
      (result : AuthResult)
      → (Rest.complete_flow ext service a r w).0 ≡ ok result
      → Accepted result
        × ((Rest.complete_flow ext service a r w).1.calls ≡ suc w.calls)
        × ((Rest.complete_flow ext service a r w).1.db ≡ w.db)
  unfolding Rest.adapter
  complete_flow-Accepted result h = (
    from_reply result asked refl h,
    asked_once result h,
    ((rest-KeepsAll Unwritten-IsOrder ext service a).complete_flow r).keeps w,
  )
