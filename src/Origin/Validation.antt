-- ===== src/Origin/Validation.antt =====
-- What `Validate` of shared/origin/origin.go accepts and returns.
use mathlib.Core.Path.{subst}
use lightscale.Prelude.{
  String, ◌≡◌, ◌≢◌, refl, sym, ap, ◌∙◌, Option-cases, ◌⊎◌, inl, inr, ◌↔◌, true, false, some, arith,
  ◌==◌, string_eq, ==_of_eq, eq_of_==, eq_iff,
}
use lightscale.Prelude.Result.{ok}
use lightscale.Netip.{Addr}
use lightscale.Netip.Parse.{parse_addr}
use lightscale.Origin.Text.{trim_space, to_lower, trim_space_idem}
use lightscale.Origin.{Spec, valid, safe_backend_addr, check_spec, validate}

-- A spec that the checks accept, by the kind of backend.
pub data WellFormed (s : Spec) : Type 0 where
  host : s.kind ≡ "host" → s.value ≡ "" → s.network ≡ "" → WellFormed s
  container : s.kind ≡ "container" → s.value ≢ "" → WellFormed s
  ip :
      (addr : Addr)
      → s.kind ≡ "ip"
      → s.network ≡ ""
      → s.value ≢ ""
      → parse_addr s.value ≡ some addr
      → safe_backend_addr addr ≡ ok tt
      → WellFormed s
  hostname : s.kind ≡ "hostname" → s.value ≢ "" → s.network ≡ "" → WellFormed s

eq_of_check_spec : (s t : Spec) → check_spec s ≡ ok t → t ≡ s
unfolding check_spec
eq_of_check_spec s t h = ground arith

ne_of_== : (a b : String) → (a == b) ≡ false → a ≢ b
ne_of_== a b h p = cc (==_of_eq a b p)

abbrev of_kind : String → String → String → Spec
of_kind k v n = record { kind = k; value = v; network = n }

module _ (v n : String) (t : Spec) where
  checked_host : check_spec (of_kind "host" v n) ≡ ok t → WellFormed (of_kind "host" v n)
  unfolding check_spec valid
  checked_host h =
      WellFormed.host refl (eq_of_== v "" (ground arith)) (eq_of_== n "" (ground arith))

  checked_container :
      check_spec (of_kind "container" v n) ≡ ok t → WellFormed (of_kind "container" v n)
  unfolding check_spec valid
  checked_container h = WellFormed.container refl (ne_of_== v "" (ground arith))

  checked_ip : check_spec (of_kind "ip" v n) ≡ ok t → WellFormed (of_kind "ip" v n)
  unfolding check_spec valid
  checked_ip h = elim (Option-cases (parse_addr v)) [
    | inl bad ↦ ground arith
    | inr (addr, good) ↦
        WellFormed.ip addr refl (eq_of_== n "" (ground arith)) (ne_of_== v "" (ground arith)) good
          (ground arith)
  ]

  checked_hostname :
      check_spec (of_kind "hostname" v n) ≡ ok t → WellFormed (of_kind "hostname" v n)
  unfolding check_spec valid
  checked_hostname h =
      WellFormed.hostname refl (ne_of_== v "" (ground arith)) (eq_of_== n "" (ground arith))

check_spec-valid : (s t : Spec) → check_spec s ≡ ok t → valid s.kind ≡ true
unfolding check_spec
check_spec-valid s t h = ground arith

kind_cases :
    (k : String)
    → valid k ≡ true
    → (k ≡ "host") ⊎ ((k ≡ "container") ⊎ ((k ≡ "ip") ⊎ (k ≡ "hostname")))
unfolding valid
kind_cases k h =
    ground (arith, eq_iff k "host", eq_iff k "container", eq_iff k "ip", eq_iff k "hostname")

check_spec-WellFormed : (s t : Spec) → check_spec s ≡ ok t → WellFormed s
check_spec-WellFormed s t h = elim (kind_cases s.kind (check_spec-valid s t h)) [
  | inl e ↦ rw e (checked_host s.value s.network t (rw e at h))
  | inr (inl e) ↦ rw e (checked_container s.value s.network t (rw e at h))
  | inr (inr (inl e)) ↦ rw e (checked_ip s.value s.network t (rw e at h))
  | inr (inr (inr e)) ↦ rw e (checked_hostname s.value s.network t (rw e at h))
]

check_spec_accepts : (s : Spec) → WellFormed s → check_spec s ≡ ok s
unfolding check_spec valid
check_spec_accepts s (WellFormed.host k v n) = rw (k, v, n)
check_spec_accepts s (WellFormed.container k v) = rw k (ground (arith, eq_iff s.value ""))
check_spec_accepts s (WellFormed.ip addr k n v p safe) =
    rw (k, n, p, safe) (ground (arith, eq_iff s.value ""))
check_spec_accepts s (WellFormed.hostname k v n) = rw (k, n) (ground (arith, eq_iff s.value ""))

-- What `Validate` does to a spec before it checks it.
abbrev pub normal : Spec → Spec
normal s = record {
  kind = to_lower (trim_space s.kind);
  value = trim_space s.value;
  network = trim_space s.network;
}

-- Validate accepts a spec exactly when the trimmed spec, its kind in lower case, is well formed, and
-- then returns that spec: no value for kind host, a value for the others, a network for containers
-- only, and for kind ip an address that parses and that SafeBackendAddr lets pass.
pub validate_iff : (s t : Spec) → (validate s ≡ ok t) ↔ ((t ≡ normal s) × WellFormed (normal s))
unfolding validate
validate_iff s t = (
  λ h. (eq_of_check_spec (normal s) t h, check_spec-WellFormed (normal s) t h),
  λ (e, w). rw e (check_spec_accepts (normal s) w),
)

lower_kind : (k : String) → valid k ≡ true → to_lower (trim_space k) ≡ k
unfolding to_lower trim_space
lower_kind k h = elim (kind_cases k h) [
  | inl e ↦ rw e
  | inr (inl e) ↦ rw e
  | inr (inr (inl e)) ↦ rw e
  | inr (inr (inr e)) ↦ rw e
]

normal_idem : (s : Spec) → valid (normal s).kind ≡ true → normal (normal s) ≡ normal s
normal_idem s v = λ i. record {
  kind = lower_kind (normal s).kind v i;
  value = trim_space_idem s.value i;
  network = trim_space_idem s.network i;
}

-- A spec that Validate returned, such as one that the store kept, passes it again unchanged.
pub validate_idem : (s t : Spec) → validate s ≡ ok t → validate t ≡ ok t
validate_idem s t h =
    let (e, w) = (validate_iff s t).0 h in
    let v : valid (normal s).kind ≡ true = (unfold validate in check_spec-valid (normal s) t h) in
    let same : normal t ≡ normal s = ap normal e ∙ normal_idem s v in
    (validate_iff t t).1 (e ∙ sym same, subst WellFormed (sym same) w)
