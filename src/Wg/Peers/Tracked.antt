-- ===== src/Wg/Peers/Tracked.antt =====
-- Which peers the server has after `ApplyPeers` of daemon/wg/server.go.
use lightscale.Prelude.{
  ℕ, ◌≡◌, ◌≢◌, ◌↔◌, refl, sym, ap, ◌∙◌, String, Bool, true, ◌&&◌, ◌||◌, Option, none, some, List,
  [], ◌∷◌, arith, Bool-cases, Option-cases, inl, inr, Map, has, any, All, ==_of_eq, eq_of_==, ◌==◌,
  nat_eq, string_eq,
}
use lightscale.Policy.{Index, UserSnapshot}
use lightscale.Wg.Peers.Wanted.{wants, Owner, wanted-Owner}
use lightscale.Wg.Peers.{Line, wanted, drop_gone, psk, add_new, configured, apply_peers}

abbrev pub tracks : String → List String → Bool
tracks k peers = has (λ k. k) k peers

All-keys :
    {A : Type 0} (key : A → String) (P : String → Type 0) (xs : List A)
    → ((k : String) → has key k xs ≡ true → P k)
    → All (λ x. P (key x)) xs
unfolding has any
All-keys key P [] f = tt
All-keys key P (x ∷ xs) f = (
  f (key x) (rw (==_of_eq (key x) (key x) refl) refl),
  All-keys key P xs (λ k h. f k (ground (arith, h))),
)

module _ (decode : String → Option (List ℕ)) (encode : List ℕ → String) where
  -- The preshared keys of the users of the map can be decoded.
  abbrev pub Usable : Map String UserSnapshot → Type 0
  Usable want = All (λ (x : String × UserSnapshot). psk decode encode x.1 ≢ none) want

  tracks-drop_gone :
      (want : Map String UserSnapshot) (peers : List String) (k : String)
      → tracks k (drop_gone decode encode want peers).0 ≡ (tracks k peers && wants k want)
  unfolding drop_gone has any
  tracks-drop_gone want [] k = refl
  tracks-drop_gone want (j ∷ peers) k = elim (Bool-cases (j == k)) [
    | inl e ↦
        let same = ap (λ x. wants x want) (eq_of_== j k e) in
        ground (arith, tracks-drop_gone want peers k, same, e)
    | inr e ↦ ground (arith, tracks-drop_gone want peers k, e)
  ]

  tracks-add_new :
      (want : Map String UserSnapshot) (peers : List String) (k : String)
      → Usable want
      → tracks k (add_new decode encode want peers).0 ≡ (tracks k peers || wants k want)
  unfolding add_new has any
  tracks-add_new [] peers k h = ground arith
  tracks-add_new ((j, u) ∷ want) peers k h = elim (Option-cases (psk decode encode u)) [
    | inl e ↦ elim (h.0 e) [ ]
    | inr (key, e) ↦
        let skipped = tracks-add_new want peers k h.1 in
        let tracked = tracks-add_new want (j ∷ peers) k h.1 in
        let known : (j == k) ≡ true → tracks j peers ≡ tracks k peers =
          λ q. ap (λ x. tracks x peers) (eq_of_== j k q) in
        elim (Bool-cases (tracks j peers)) [
          | inl t ↦ rw t (ground (arith, skipped, known))
          | inr t ↦ rw (t, e) (ground (arith, tracked))
        ]
  ]

  quiet_drop :
      (want : Map String UserSnapshot) (peers : List String)
      → All (λ k. wants k want ≡ true) peers
      → drop_gone decode encode want peers ≡ (peers, [])
  unfolding drop_gone
  quiet_drop want [] h = refl
  quiet_drop want (k ∷ peers) h = rw (h.0, quiet_drop want peers h.1) refl

  quiet_add :
      (want : Map String UserSnapshot) (peers : List String)
      → All (λ (x : String × UserSnapshot). tracks x.0 peers ≡ true) want
      → add_new decode encode want peers ≡ (peers, [])
  unfolding add_new
  quiet_add [] peers h = refl
  quiet_add ((k, u) ∷ want) peers h = rw h.0 (quiet_add want peers h.1)

  module _ {D : Type 0} (ipc_set : List Line → D → Bool × D) where
    -- the peers after a call
    abbrev pub peers_after : Index → List String → D → List String
    peers_after idx peers dev = (apply_peers decode encode ipc_set (some idx) peers dev).1

    peers-configured :
        (peers : List String) (lines : List Line) (dev : D)
        → (configured decode encode ipc_set peers lines dev).1 ≡ peers
    peers-configured peers [] dev = refl
    peers-configured peers (line ∷ lines) dev = refl

    tracks-apply_peers :
        (k : String) (idx : Index) (peers : List String) (dev : D)
        → Usable (wanted decode encode idx)
        → tracks k (peers_after idx peers dev) ≡ wants k (wanted decode encode idx)
    unfolding apply_peers
    tracks-apply_peers k idx peers dev h =
        let want = wanted decode encode idx in
        let left = (drop_gone decode encode want peers).0 in
        let dropped = tracks-drop_gone want peers k in
        let all = tracks-add_new want left k h in
        ap (λ now. tracks k now) (peers-configured (add_new decode encode want left).0 _ dev)
        ∙ all
        ∙ ground (arith, dropped)

    -- If the preshared keys can be decoded, then after ApplyPeers the server has exactly the peers
    -- whose key is that of a user of the index, in hexadecimal, whatever peers it had before, and
    -- whether or not the device took the configuration.
    pub apply_peers-Owner :
        (k : String) (idx : Index) (peers : List String) (dev : D)
        → Usable (wanted decode encode idx)
        → (tracks k (peers_after idx peers dev) ≡ true) ↔ Owner decode encode k idx.user_by_id
    apply_peers-Owner k idx peers dev h =
        rw (tracks-apply_peers k idx peers dev h) (wanted-Owner decode encode k idx)

    -- If the preshared keys of the users of the index can be decoded, a second ApplyPeers with the same
    -- index gives the device no configuration and keeps the peers, even if the device refused the first
    -- one.
    pub apply_peers_again :
        (idx : Index) (peers : List String) (dev dev' : D)
        → Usable (wanted decode encode idx)
        → apply_peers decode encode ipc_set (some idx) (peers_after idx peers dev) dev'
          ≡ (true, peers_after idx peers dev, dev')
    unfolding apply_peers
    apply_peers_again idx peers dev dev' h =
        let want = wanted decode encode idx in
        let now = peers_after idx peers dev in
        let same : (k : String) → tracks k now ≡ wants k want =
          λ k. tracks-apply_peers k idx peers dev h in
        let kept =
          quiet_drop want now
            (All-keys (λ k. k) (λ k. wants k want ≡ true) now (λ k t. sym (same k) ∙ t)) in
        let known =
          quiet_add want now
            (All-keys (λ x. x.0) (λ k. tracks k now ≡ true) want (λ k w. same k ∙ w)) in
        rw (kept, known) refl
