-- ===== src/Policy/FlowTable/Laws.antt =====
-- Reap, Add and Remove of daemon/policy/flowtable.go.
use lightscale.Prelude.{
  ℕ, ◌≡◌, refl, sym, ◌∙◌, ap, ◌↔◌, inl, inr, false, not, some, List, [], ◌∷◌, map, arith,
  Bool-cases, Option-cases, In-cons, Map, delete, nat_eq, keep, All_at, In, here, there, In-keep_of,
  In_of_In-keep, keep_passes, has, Distinct, delete_absent, any, ◌==◌,
}
use lightscale.Policy.{Index}
use lightscale.Policy.FlowTable.{
  Flow, FlowTable, IsValid, allowed, condemned, delete_all, close_all, reap,
}

module _ (idx : Index) where
  condemned-flows :
      (flows : Map ℕ Flow)
      → (condemned idx flows).0 ≡ map (λ e. e.1) (keep (λ e. not (allowed idx e.1)) flows)
  unfolding condemned keep
  condemned-flows [] = refl
  condemned-flows ((id, f) ∷ flows) = ground (arith, condemned-flows flows)

  condemned-ids :
      (flows : Map ℕ Flow)
      → (condemned idx flows).1 ≡ map (λ e. e.0) (keep (λ e. not (allowed idx e.1)) flows)
  unfolding condemned keep
  condemned-ids [] = refl
  condemned-ids ((id, f) ∷ flows) = ground (arith, condemned-ids flows)

  absent_ids :
      (id : ℕ) (flows : Map ℕ Flow)
      → has (λ e. e.0) id flows ≡ false
      → any (λ i. i == id) (condemned idx flows).1 ≡ false
  unfolding condemned any has
  absent_ids id [] h = refl
  absent_ids id ((j, f) ∷ flows) h = ground (arith, absent_ids id flows)

delete_all_cons :
    (ids : List ℕ) (id : ℕ) (f : Flow) (flows : Map ℕ Flow)
    → any (λ i. i == id) ids ≡ false
    → delete_all ids ((id, f) ∷ flows) ≡ (id, f) ∷ delete_all ids flows
unfolding delete_all any delete
delete_all_cons [] id f flows h = refl
delete_all_cons (i ∷ ids) id f flows h = ground (arith, delete_all_cons ids id f (delete i flows))

delete_all_head :
    (ids : List ℕ) (id : ℕ) (f : Flow) (flows : Map ℕ Flow)
    → has (λ e. e.0) id flows ≡ false
    → delete_all (id ∷ ids) ((id, f) ∷ flows) ≡ delete_all ids flows
unfolding delete_all delete
delete_all_head ids id f flows h = ground (arith, delete_absent id flows)

pub delete_condemned :
    (idx : Index) (flows : Map ℕ Flow)
    → Distinct (λ e. e.0) flows
    → delete_all (condemned idx flows).1 flows ≡ keep (λ e. allowed idx e.1) flows
unfolding condemned keep
delete_condemned idx [] d = (unfold delete_all in refl)
delete_condemned idx ((id, f) ∷ flows) d = elim (Bool-cases (allowed idx f)) [
  | inl e ↦ rw (
    e,
    delete_all_cons _ id f flows (absent_ids idx id flows d.0),
    delete_condemned idx flows d.1,
  )
  | inr e ↦ rw (e, delete_all_head _ id f flows d.0) (delete_condemned idx flows d.1)
]

-- What Reap leaves: the flows that the new index still allows, as they were and in their order.
pub flows-reap :
    (t : FlowTable) (idx : Index)
    → IsValid t
    → (reap t idx).0.flows ≡ keep (λ e. allowed idx e.1) t.flows
unfolding reap
flows-reap t idx v = delete_condemned idx t.flows v.distinct

close_all-close :
    (fs : List Flow) {c : ℕ} → In c (close_all fs) → (f : Flow) × In f fs × (f.close ≡ some c)
unfolding close_all
close_all-close [] m = elim m [ ]
close_all-close (f ∷ fs) {c} m = elim (Option-cases f.close) [
  | inl e ↦ later (close_all-close fs (rw (e, close_all) at m))
  | inr (k, e) ↦ elim (In-cons (rw (e, close_all) at m)) [
    | inl same ↦ (f, here refl, rw same e)
    | inr n ↦ later (close_all-close fs n)
  ]
]
  where
    later :
        ((g : Flow) × In g fs × (g.close ≡ some c))
        → (g : Flow) × In g (f ∷ fs) × (g.close ≡ some c)
    later (g, n, e) = (g, there n, e)

close-close_all :
    (fs : List Flow) {f : Flow} {c : ℕ} → In f fs → f.close ≡ some c → In c (close_all fs)
unfolding close_all
close-close_all [] m e = elim m [ ]
close-close_all (g ∷ fs) {f} (here p) e =
    let q : g.close ≡ _ = ap (λ (h : Flow). h.close) (sym p) ∙ e in rw (q, close_all) (here refl)
close-close_all (g ∷ fs) (there m) e = elim (Option-cases g.close) [
  | inl none_left ↦ rw (none_left, close_all) (close-close_all fs m e)
  | inr (k, first) ↦ rw (first, close_all) (there (close-close_all fs m e))
]

In_of_In-map : (es : Map ℕ Flow) {f : Flow} → In f (map (λ e. e.1) es) → (id : ℕ) × In (id, f) es
In_of_In-map [] m = elim m [ ]
In_of_In-map ((id, g) ∷ es) {f} m = elim (In-cons m) [
  | inl e ↦ (id, here (ap (λ h. (id, h)) e))
  | inr n ↦ let (i, k) = In_of_In-map es n in (i, there k)
]

In-map_of_In : (es : Map ℕ Flow) {id : ℕ} {f : Flow} → In (id, f) es → In f (map (λ e. e.1) es)
In-map_of_In [] m = elim m [ ]
In-map_of_In (e ∷ es) (here p) = here (ap (λ (x : ℕ × Flow). x.1) p)
In-map_of_In (e ∷ es) (there m) = there (In-map_of_In es m)

-- The connections that Reap closes are those of the flows that the new index no longer allows.
pub closes-reap_iff :
    (t : FlowTable) (idx : Index) (c : ℕ)
    → In c (reap t idx).1
      ↔ ((id : ℕ) × (f : Flow) × In (id, f) t.flows × (allowed idx f ≡ false) × (f.close ≡ some c))
unfolding reap
closes-reap_iff t idx c = (to, from)
  where
    barred : Map ℕ Flow
    barred = keep (λ e. not (allowed idx e.1)) t.flows

    same : (condemned idx t.flows).0 ≡ map (λ e. e.1) barred
    same = condemned-flows idx t.flows

    to :
        In c (close_all (condemned idx t.flows).0)
        → (id : ℕ) × (f : Flow) × In (id, f) t.flows × (allowed idx f ≡ false) × (f.close ≡ some c)
    to m =
        let (f, n, e) = close_all-close _ (rw same at m) in
        let (id, k) = In_of_In-map barred n in
        (
          id,
          f,
          In_of_In-keep _ t.flows k,
          ground (arith, All_at _ barred (keep_passes _ t.flows) k),
          e,
        )

    from :
        ((id : ℕ) × (f : Flow) × In (id, f) t.flows × (allowed idx f ≡ false) × (f.close ≡ some c))
        → In c (close_all (condemned idx t.flows).0)
    from (id, f, m, a, e) =
        rw same (close-close_all _ (In-map_of_In barred (In-keep_of _ t.flows m (rw a))) e)
