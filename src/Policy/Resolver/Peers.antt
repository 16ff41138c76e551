-- ===== src/Policy/Resolver/Peers.antt =====
-- When CheckPeer and shareLANGroup (daemon/policy/resolver.go) answer allow.
use lightscale.Prelude.{
  ℕ, ◌≡◌, refl, ◌↔◌, ◌⊎◌, inl, inr, String, true, ◌&&◌, some, List, [], ◌∷◌, ap, arith, Bool-cases,
  Option-cases, Map, get, All, In, here, there, In_of_any, any, any_of_In, Distinct, nat_eq,
  string_eq, ◌==◌, ==_of_eq, eq_of_==,
}
use lightscale.Policy.{Index, UserSnapshot, UserGroupSnapshot, RuleSnapshot}
use lightscale.Policy.Resolver.{
  allow, slice_at, subject_set, user_object_set, lan_member, share_lan_group, check_peer,
}
use lightscale.Policy.Resolver.Involved.{
  Between, LastBetween, Decides-LastBetween, LastBetween-Decides, quiet-Between, quiet_of,
}
use lightscale.Policy.Resolver.Evaluate.{
  evaluate_explicit-cases, evaluate_explicit-Decides, evaluate_explicit_quiet,
}

-- The group is one of the source's, is in LAN mode, and has the destination as a member.
pub record LanGroup (idx : Index) (src_id dst_id gid : ℕ) : Type 0 where
  pub group : UserGroupSnapshot
  pub joined : In gid (slice_at src_id idx.groups_by_user)
  pub known : get gid idx.user_groups ≡ some group
  pub lan : group.lan_mode ≡ true
  pub member : In dst_id group.members

lan_group_of_member :
    (groups : Map ℕ UserGroupSnapshot) (gids : List ℕ) (dst_id : ℕ)
    → lan_member groups gids dst_id ≡ true
    → (gid : ℕ) × (g : UserGroupSnapshot) × In gid gids
      × (get gid groups ≡ some g)
      × (g.lan_mode ≡ true)
      × In dst_id g.members
unfolding lan_member
lan_group_of_member groups [] dst_id h = cc
lan_group_of_member groups (gid ∷ gids) dst_id h = elim (Option-cases (get gid groups)) [
  | inl e ↦ later (lan_group_of_member groups gids dst_id (ground arith))
  | inr (g, e) ↦ elim (Bool-cases (g.lan_mode && any (λ m. m == dst_id) g.members)) [
    | inl t ↦
        let (m, member, q) = In_of_any (λ m. m == dst_id) g.members (ground arith) in
        let same : m ≡ dst_id = eq_of_== m dst_id q in
        (gid, g, here refl, e, ground arith, rw (← same) member)
    | inr f ↦ later (lan_group_of_member groups gids dst_id (ground arith))
  ]
]
  where
    later :
        ((i : ℕ) × (g : UserGroupSnapshot) × In i gids
          × (get i groups ≡ some g)
          × (g.lan_mode ≡ true)
          × In dst_id g.members)
        → (i : ℕ) × (g : UserGroupSnapshot) × In i (gid ∷ gids)
          × (get i groups ≡ some g)
          × (g.lan_mode ≡ true)
          × In dst_id g.members
    later (i, g, m, known, lan, member) = (i, g, there m, known, lan, member)

lan_member_of_group :
    (groups : Map ℕ UserGroupSnapshot) (gids : List ℕ) (dst_id gid : ℕ) (g : UserGroupSnapshot)
    → In gid gids
    → get gid groups ≡ some g
    → g.lan_mode ≡ true
    → In dst_id g.members
    → lan_member groups gids dst_id ≡ true
unfolding lan_member
lan_member_of_group groups [] dst_id gid g m e lan member = elim m [ ]
lan_member_of_group groups (i ∷ gids) dst_id gid g (here p) e lan member = ground (
  arith,
  any_of_In (λ m. m == dst_id) g.members member (==_of_eq dst_id dst_id refl),
  ap (λ j. get j groups) p,
)
lan_member_of_group groups (i ∷ gids) dst_id gid g (there m) e lan member =
    ground (arith, lan_member_of_group groups gids dst_id gid g m e lan member)

-- shareLANGroup holds exactly when the source is in a group that is known, in LAN mode, and has the
-- destination as a member.
pub share_lan_group_iff :
    (idx : Index) (src_id dst_id : ℕ)
    → (share_lan_group idx src_id dst_id ≡ true) ↔ ((gid : ℕ) × LanGroup idx src_id dst_id gid)
unfolding share_lan_group
share_lan_group_iff idx src_id dst_id = (to, from)
  where
    gids : List ℕ
    gids = slice_at src_id idx.groups_by_user

    to : lan_member idx.user_groups gids dst_id ≡ true → (gid : ℕ) × LanGroup idx src_id dst_id gid
    to h =
        let (gid, g, m, e, lan, member) = lan_group_of_member idx.user_groups gids dst_id h in
        (gid, record { group = g; joined = m; known = e; lan = lan; member = member })

    from :
        ((gid : ℕ) × LanGroup idx src_id dst_id gid) → lan_member idx.user_groups gids dst_id ≡ true
    from (gid, l) =
        lan_member_of_group idx.user_groups gids dst_id gid l.group l.joined l.known l.lan l.member

-- Why a peer may reach another: the last rule between them says so, or no rule is between them and
-- they share a group in LAN mode.
abbrev pub PeerGrant : Index → UserSnapshot → UserSnapshot → Type 0
PeerGrant idx src dst =
    ((r : RuleSnapshot) × LastBetween idx src.id dst.id r × (r.action ≡ "allow"))
    ⊎ (All (λ q. Between idx src.id dst.id q → ⊥) idx.rules
        × ((gid : ℕ) × LanGroup idx src.id dst.id gid))

pub record PeerAccess (idx : Index) (src_ip dst_ip : String) : Type 0 where
  pub src : UserSnapshot
  pub dst : UserSnapshot
  pub known_src : get src_ip idx.peer_by_ip ≡ some src
  pub known_dst : get dst_ip idx.peer_by_ip ≡ some dst
  pub grant : PeerGrant idx src dst

module _ (idx : Index) (src_ip dst_ip : String) where
  granted :
      (src dst : UserSnapshot)
      → get src_ip idx.peer_by_ip ≡ some src
      → get dst_ip idx.peer_by_ip ≡ some dst
      → (check_peer idx src_ip dst_ip).0 ≡ allow
      → PeerGrant idx src dst
  unfolding check_peer
  granted src dst es ed h =
      elim (evaluate_explicit-cases (subject_set idx src.id) (user_object_set idx dst.id) idx) [
        | inl (e, quiet) ↦ inr (
          quiet-Between idx src.id dst.id quiet,
          (share_lan_group_iff idx src.id dst.id).0 (ground arith),
        )
        | inr (r, d, e) ↦
            inl (
              r,
              Decides-LastBetween idx src.id dst.id r d,
              eq_of_== r.action "allow" (ground arith),
            )
      ]

  pub peer_access : (check_peer idx src_ip dst_ip).0 ≡ allow → PeerAccess idx src_ip dst_ip
  peer_access h = elim (Option-cases (get src_ip idx.peer_by_ip)) [
    | inl e ↦ (unfold check_peer in ground arith)
    | inr (src, es) ↦ elim (Option-cases (get dst_ip idx.peer_by_ip)) [
      | inl e ↦ (unfold check_peer in ground arith)
      | inr (dst, ed) ↦ record {
        src = src;
        dst = dst;
        known_src = es;
        known_dst = ed;
        grant = granted src dst es ed h;
      }
    ]
  ]

  allow_peer :
      Distinct (λ r. r.id) idx.rules
      → (src dst : UserSnapshot) → get src_ip idx.peer_by_ip ≡ some src
      → get dst_ip idx.peer_by_ip ≡ some dst
      → PeerGrant idx src dst
      → (check_peer idx src_ip dst_ip).0 ≡ allow
  unfolding check_peer
  allow_peer distinct src dst es ed (inl (r, d, a)) = ground (
    arith,
    evaluate_explicit-Decides (subject_set idx src.id) (user_object_set idx dst.id) idx r distinct
        (LastBetween-Decides idx src.id dst.id r d),
    ==_of_eq r.action "allow" a,
  )
  allow_peer distinct src dst es ed (inr (quiet, lan)) = ground (
    arith,
    evaluate_explicit_quiet (subject_set idx src.id) (user_object_set idx dst.id) idx
        (quiet_of idx src.id dst.id quiet),
    (share_lan_group_iff idx src.id dst.id).1 lan,
  )

  -- With distinct rule ids, a peer may reach another exactly when both addresses are users' and
  -- either the rule between them with the largest id says "allow", or no rule is between them and the
  -- destination is a member of a LAN-mode group of the source. A rule is between them if its subject
  -- is the source user or a group that the index lists for that user, and its object is the
  -- destination user or a group listed for that one.
  pub check_peer-allow_iff :
      Distinct (λ r. r.id) idx.rules
      → ((check_peer idx src_ip dst_ip).0 ≡ allow) ↔ PeerAccess idx src_ip dst_ip
  check_peer-allow_iff distinct =
      (peer_access, λ a. allow_peer distinct a.src a.dst a.known_src a.known_dst a.grant)
