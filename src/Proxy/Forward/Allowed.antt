-- ===== src/Proxy/Forward/Allowed.antt =====
-- The flows that daemon/proxy/tcp.go and udp.go open, with the changes of the index in between.
use lightscale.Prelude.{
  Map, Distinct, Distinct-put, Distinct-delete, Distinct-keep, ◌+◌, ◌%◌, ◌^◌, ℕ, ◌≡◌, ap, ◌∙◌, inl,
  inr, true, some, none, String, get, put, nat_eq, string_eq, All, All-delete, keep_passes, arith,
  Option-cases,
}
use lightscale.Prelude.Result.{Result, ok, err}
use lightscale.Policy.{UserSnapshot, ServiceSnapshot, Index}
use lightscale.Policy.FlowTable.{Flow, FlowTable, add, remove, reap, allowed, is_allow}
use lightscale.Policy.FlowTable.Laws.{delete_condemned}
use lightscale.Policy.Resolver.{ServiceVerdict, allow, deny, check_service}
use lightscale.Proxy.{World, Target, BackendResolver, ResolveError}
use lightscale.Proxy.Forward.Consistent.{Consistent}
use lightscale.Proxy.Forward.{
  Dialled, connected, refused, unresolved, Dial, State, accepted, flow_of, dialled, resolved,
  open_flow,
}

accepted_lem :
    (v : ServiceVerdict) (u : UserSnapshot) (t : ServiceSnapshot)
    → accepted v ≡ some (u, t)
    → v ≡ (allow, some u, some t)
accepted_lem (deny, o, p) u t h = cc
accepted_lem (allow, none, p) u t h = cc
accepted_lem (allow, some v, none) u t h = cc
accepted_lem (allow, some v, some w) u t h =
    let same : (v, w) ≡ (u, t) = ground arith in
    ap (λ (x : UserSnapshot × ServiceSnapshot). (allow, some x.0, some x.1)) same

checked :
    (idx : Index) (src dst : String) (port : ℕ) (proto : String) (u : UserSnapshot)
    (t : ServiceSnapshot)
    → check_service idx src dst port proto ≡ (allow, some u, some t)
    → (get src idx.peer_by_ip ≡ some u) × (get dst idx.service_by_vip ≡ some t)
unfolding check_service
checked idx src dst port proto u t h = elim (Option-cases (get src idx.peer_by_ip)) [
  | inl e ↦ ground arith
  | inr (x, e) ↦ elim (Option-cases (get dst idx.service_by_vip)) [
    | inl d ↦ ground arith
    | inr (y, d) ↦ (ground arith, ground arith)
  ]
]

pub flow_of-allowed :
    (idx : Index) (src dst : String) (port : ℕ) (proto text : String) (backend : String × ℕ)
    (u : UserSnapshot) (t : ServiceSnapshot)
    → Consistent idx
    → accepted (check_service idx src dst port proto) ≡ some (u, t)
    → allowed idx (flow_of u t port proto text backend) ≡ true
unfolding allowed
flow_of-allowed idx src dst port proto text backend u t c h =
    let (eu, et) = checked idx src dst port proto u t (accepted_lem _ u t h) in
    let (pu, iu) = c.user src u eu in
    let (pt, it) = c.service dst t et in
    let a : is_allow (check_service idx u.ip_address t.ip_address port proto).0 ≡ true =
      ap (λ ip. is_allow (check_service idx ip t.ip_address port proto).0) pu
      ∙ ap (λ ip. is_allow (check_service idx src ip port proto).0) pt
      ∙ ap (λ (v : ServiceVerdict). is_allow v.0) (accepted_lem _ u t h) in
    ground arith

-- The ids of the open flows are distinct, and the index allows each of the flows.
abbrev pub Sound : Index → Map ℕ Flow → Type 0
Sound idx flows = Distinct (λ e. e.0) flows × All (λ e. allowed idx e.1 ≡ true) flows

module _ (idx : Index) where
  Sound-add :
      (t : FlowTable) (f : Flow)
      → Sound idx t.flows
      → allowed idx f ≡ true
      → Sound idx (add t f).0.flows
  unfolding add put
  Sound-add t f (d, a) h =
      let id = (t.next + 1) % 2 ^ 64 in
      (Distinct-put id f t.flows d, (h, All-delete _ id t.flows a))

  pub Sound-remove : (t : FlowTable) (id : ℕ) → Sound idx t.flows → Sound idx (remove t id).flows
  unfolding remove
  Sound-remove t id (d, a) = (Distinct-delete id t.flows d, All-delete _ id t.flows a)

  pub Sound-reap : (t : FlowTable) → Distinct (λ e. e.0) t.flows → Sound idx (reap t idx).0.flows
  unfolding reap
  Sound-reap t d =
      rw (delete_condemned idx t.flows d) (Distinct-keep _ _ t.flows d, keep_passes _ t.flows)

  module _ (u : UserSnapshot) (t : ServiceSnapshot) (port : ℕ) (proto src : String)
      (h : (backend : String × ℕ) → allowed idx (flow_of u t port proto src backend) ≡ true) where
    Sound-dialled :
        (o : Dialled) (s : State)
        → Sound idx s.flows.flows
        → Sound idx (dialled u t port proto src o s).1.flows.flows
    Sound-dialled unresolved s v = v
    Sound-dialled refused s v = v
    Sound-dialled (connected backend) s v = Sound-add s.flows _ v (h backend)

    Sound-resolved :
        (dial : Dial) (s : State) (o : Result ResolveError Target × BackendResolver)
        → Sound idx s.flows.flows
        → Sound idx (resolved dial u t port proto src s o).1.flows.flows
    Sound-resolved dial s (err e, r) v = v
    Sound-resolved dial s (ok target, r) v = Sound-dialled (dial target.dial_host port) _ v

    pub Sound-open_flow :
        (w : World) (dial : Dial) (s : State)
        → Sound idx s.flows.flows
        → Sound idx (open_flow w dial u t port proto src s).1.flows.flows
    unfolding open_flow
    Sound-open_flow w dial s v = Sound-resolved dial s _ v
