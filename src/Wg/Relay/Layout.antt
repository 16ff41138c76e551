-- ===== src/Wg/Relay/Layout.antt =====
-- Where the addresses of an IPv4 packet stand, which parseIPv4 (daemon/wg/relay.go) reads.
use mathlib.Core.Path.{subst}
use lightscale.Prelude.{
  ℕ, zero, suc, ltb, false, ◌+◌, ◌*◌, ◌^◌, ◌≡◌, ◌≤◌, refl, sym, ◌∙◌, ap, some, List, [], ◌∷◌, ◌++◌,
  arith, length,
}
use lightscale.Netip.{Addr, v4}
use lightscale.Wg.Relay.{from, parse_ipv4}

-- The address with the four bytes, the most significant first.
abbrev pub of_bytes : ℕ → ℕ → ℕ → ℕ → Addr
of_bytes a b c d = v4 (a * 2 ^ 24 + b * 2 ^ 16 + c * 2 ^ 8 + d)

-- After twelve bytes come the four of the source and then the four of the destination.
pub record Layout (packet : List ℕ) (src dst : Addr) : Type 0 where
  pub before : List ℕ
  pub after : List ℕ
  pub s0 : ℕ
  pub s1 : ℕ
  pub s2 : ℕ
  pub s3 : ℕ
  pub d0 : ℕ
  pub d1 : ℕ
  pub d2 : ℕ
  pub d3 : ℕ
  pub bytes : packet ≡ before ++ (s0 ∷ s1 ∷ s2 ∷ s3 ∷ d0 ∷ d1 ∷ d2 ∷ d3 ∷ after)
  pub offset : length before ≡ 12
  pub source : src ≡ of_bytes s0 s1 s2 s3
  pub destination : dst ≡ of_bytes d0 d1 d2 d3

from-append : (n : ℕ) (before ys : List ℕ) → length before ≡ n → from n (before ++ ys) ≡ ys
unfolding from
from-append zero [] ys e = refl
from-append zero (b ∷ before) ys e = absurd (omega arith)
from-append (suc n) [] ys e = absurd (omega arith)
from-append (suc n) (b ∷ before) ys e = from-append n before ys (omega arith)

from-four_more :
    (n a b c d : ℕ) (before ys : List ℕ)
    → length before ≡ n
    → from (suc (suc (suc (suc n)))) (before ++ (a ∷ b ∷ c ∷ d ∷ ys)) ≡ ys
unfolding from
from-four_more zero a b c d [] ys e = refl
from-four_more zero a b c d (x ∷ before) ys e = absurd (omega arith)
from-four_more (suc n) a b c d [] ys e = absurd (omega arith)
from-four_more (suc n) a b c d (x ∷ before) ys e = from-four_more n a b c d before ys (omega arith)

split_at :
    (n : ℕ) (packet : List ℕ)
    → n ≤ length packet
    → (before : List ℕ) × (packet ≡ before ++ from n packet)
      × (length before ≡ n)
      × (n + length (from n packet) ≡ length packet)
unfolding from
split_at zero packet h = ([], refl, refl, omega arith)
split_at (suc n) [] h = absurd (omega arith)
split_at (suc n) (b ∷ packet) h =
    let (before, e, l, k) = split_at n packet (omega arith) in
    (b ∷ before, ap (λ xs. b ∷ xs) e, omega arith, omega arith)

-- A list of eight bytes or more.
record Eight (xs : List ℕ) : Type 0 where
  s0 : ℕ
  s1 : ℕ
  s2 : ℕ
  s3 : ℕ
  d0 : ℕ
  d1 : ℕ
  d2 : ℕ
  d3 : ℕ
  after : List ℕ
  is : xs ≡ s0 ∷ s1 ∷ s2 ∷ s3 ∷ d0 ∷ d1 ∷ d2 ∷ d3 ∷ after

eight : (xs : List ℕ) → 8 ≤ length xs → Eight xs
eight (a ∷ b ∷ c ∷ d ∷ e ∷ f ∷ g ∷ h ∷ rest) l = record {
  s0 = a;
  s1 = b;
  s2 = c;
  s3 = d;
  d0 = e;
  d1 = f;
  d2 = g;
  d3 = h;
  after = rest;
  is = refl;
}
eight (a ∷ b ∷ c ∷ d ∷ e ∷ f ∷ g ∷ []) l = absurd (omega arith)
eight (a ∷ b ∷ c ∷ d ∷ e ∷ f ∷ []) l = absurd (omega arith)
eight (a ∷ b ∷ c ∷ d ∷ e ∷ []) l = absurd (omega arith)
eight (a ∷ b ∷ c ∷ d ∷ []) l = absurd (omega arith)
eight (a ∷ b ∷ c ∷ []) l = absurd (omega arith)
eight (a ∷ b ∷ []) l = absurd (omega arith)
eight (a ∷ []) l = absurd (omega arith)
eight [] l = absurd (omega arith)

joined :
    (a b c d : ℕ) → ((a * 256 + b) * 256 + c) * 256 + d ≡ a * 2 ^ 24 + b * 2 ^ 16 + c * 2 ^ 8 + d
joined a b c d = omega arith

parse_bytes :
    (before after : List ℕ) (a b c d e f g h : ℕ)
    → length before ≡ 12
    → 20 ≤ length (before ++ (a ∷ b ∷ c ∷ d ∷ e ∷ f ∷ g ∷ h ∷ after))
    → parse_ipv4 (before ++ (a ∷ b ∷ c ∷ d ∷ e ∷ f ∷ g ∷ h ∷ after))
      ≡ some (of_bytes a b c d, of_bytes e f g h)
unfolding parse_ipv4 from
parse_bytes before after a b c d e f g h l long =
    let ys = a ∷ b ∷ c ∷ d ∷ e ∷ f ∷ g ∷ h ∷ after in
    let p : from 12 (before ++ ys) ≡ ys = from-append 12 before ys l in
    let q : from 16 (before ++ ys) ≡ e ∷ f ∷ g ∷ h ∷ after =
      from-four_more 12 a b c d before (e ∷ f ∷ g ∷ h ∷ after) l in
    let o : ltb (length (before ++ ys)) 20 ≡ false = ground arith in
    rw (o, p, q) (λ i. some (v4 (joined a b c d i), v4 (joined e f g h i)))

-- parseIPv4 has the addresses that stand at their places.
pub Layout-parse_ipv4 :
    (packet : List ℕ) (src dst : Addr)
    → 20 ≤ length packet
    → Layout packet src dst
    → parse_ipv4 packet ≡ some (src, dst)
Layout-parse_ipv4 packet src dst long l = rw l.bytes (
    parse_bytes l.before l.after l.s0 l.s1 l.s2 l.s3 l.d0 l.d1 l.d2 l.d3 l.offset
      (rw l.bytes at long)
    ∙ (λ i. some (sym l.source i, sym l.destination i)))

bytes-Layout :
    (packet : List ℕ) → 20 ≤ length packet → (src : Addr) × (dst : Addr) × Layout packet src dst
bytes-Layout packet long =
    let (before, e, l, k) = split_at 12 packet (omega arith) in
    let w = eight (from 12 packet) (omega arith) in
    (
      of_bytes w.s0 w.s1 w.s2 w.s3,
      of_bytes w.d0 w.d1 w.d2 w.d3,
      record {
        before = before;
        after = w.after;
        s0 = w.s0;
        s1 = w.s1;
        s2 = w.s2;
        s3 = w.s3;
        d0 = w.d0;
        d1 = w.d1;
        d2 = w.d2;
        d3 = w.d3;
        bytes = e ∙ ap (λ xs. before ++ xs) w.is;
        offset = l;
        source = refl;
        destination = refl;
      },
    )

pub parse_ipv4-Layout :
    (packet : List ℕ) (src dst : Addr)
    → 20 ≤ length packet
    → parse_ipv4 packet ≡ some (src, dst)
    → Layout packet src dst
parse_ipv4-Layout packet src dst long h =
    let (x, y, l) = bytes-Layout packet long in
    let e : some (x, y) ≡ some (src, dst) = sym (Layout-parse_ipv4 packet x y long l) ∙ h in
    subst (λ (p : Addr × Addr). Layout packet p.0 p.1) (cc e) l
