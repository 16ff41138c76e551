-- ===== src/Api/Routes/Outcomes.antt =====
-- What a handler of daemon/api does to the store, by the parts that it is put together from.
use lightscale.Prelude.{
  ℕ, ◌≤◌, ◌<◌, ◌≡◌, refl, sym, ap, ◌∙◌, ◌⊎◌, inl, inr, String, Bool, true, false, Option, none,
  some, arith, if◌then◌else◌,
}
use lightscale.Prelude.Result.{Result, ok, err, ◌>>=◌}
use lightscale.Store.{
  Store, Error, not_found, name_taken, ip_in_use, port_conflict, invalid_input, constraint,
}
use lightscale.Store.Commands.{Command, Outcome, outcome, apply}
use lightscale.Store.Commands.Changes.{apply-Atomic}
use lightscale.Api.{
  Response, Handler, Body, error_status, parse_id, given_id, with_id, read_json, answer,
}
use lightscale.Api.Users.{prepared}

-- Refused with the store as it was, or one write of the store that `P` allows and that succeeded.
abbrev pub Served : (Command → Type 0) → String → Store → Response × Store → Type 0
Served P now s out =
    ((out.1 ≡ s) × (400 ≤ out.0.status))
    ⊎ ((c : Command) × P c × (apply c now s ≡ (none, out.1)) × (out.0.status < 300))

pub error_status-le : (e : Error) → 400 ≤ error_status e
error_status-le not_found = omega arith
error_status-le name_taken = omega arith
error_status-le ip_in_use = omega arith
error_status-le port_conflict = omega arith
error_status-le invalid_input = omega arith
error_status-le constraint = omega arith

-- a write that failed
unchanged :
    (c : Command) (now : String) (s s' : Store) (e : Error) → (some e, s') ≡ apply c now s → s' ≡ s
unchanged c now s s' e p = elim (apply-Atomic c now s) [
  | inl (e', q) ↦ ap (λ (o : Outcome). o.1) (p ∙ q)
  | inr (q, _, _) ↦ let clash : some e ≡ none = ap (λ (o : Outcome). o.0) p ∙ q in absurd (cc clash)
]

module _ (P : Command → Type 0) (now : String) (s : Store) where
  pub answer-Served :
      {A : Type 0} (c : Command) (status : ℕ) (body : A → Body) (out : Result Error A × Store)
      → P c
      → status < 300
      → outcome out ≡ apply c now s
      → Served P now s (answer status body out)
  answer-Served c status body (ok a, s') allowed small e = inr (c, allowed, sym e, small)
  answer-Served c status body (err x, s') allowed small e =
      inl (unchanged c now s s' x e, error_status-le x)

  given_id-Served :
      (id : Option ℕ) (k : ℕ → Handler)
      → ((i : ℕ) → id ≡ some i → Served P now s (k i s))
      → Served P now s (given_id id k s)
  given_id-Served none k h = inl (refl, omega arith)
  given_id-Served (some i) k h = h i refl

  pub with_id-Served :
      (raw : String) (k : ℕ → Handler)
      → ((id : ℕ) → parse_id raw ≡ some id → Served P now s (k id s))
      → Served P now s (with_id raw k s)
  with_id-Served raw k h = given_id-Served (parse_id raw) k h

  pub read_json-Served :
      {A : Type 0} (body : Option A) (k : A → Handler)
      → ((req : A) → body ≡ some req → Served P now s (k req s))
      → Served P now s (read_json body k s)
  read_json-Served none k h = inl (refl, omega arith)
  read_json-Served (some req) k h = h req refl

-- A refusal has an error's status.
abbrev pub Refuses : {A : Type 0} → Result Response A → Type 0
Refuses (ok a) = Unit
Refuses (err r) = 400 ≤ r.status

pub Refuses-bind :
    {A B : Type 0} (m : Result Response A) (f : A → Result Response B)
    → Refuses m
    → ((a : A) → Refuses (f a))
    → Refuses (m >>= f)
Refuses-bind (ok a) f h k = k a
Refuses-bind (err r) f h k = h

pub Refuses-if :
    {A : Type 0} (b : Bool) (r q : Result Response A)
    → Refuses r
    → Refuses q
    → Refuses (if b then r else q)
Refuses-if true r q h k = h
Refuses-if false r q h k = k

pub prepared-Served :
    (P : Command → Type 0) (now : String) (s : Store) {A : Type 0} (m : Result Response A)
    (k : A → Handler)
    → Refuses m
    → ((a : A) → m ≡ ok a → Served P now s (k a s))
    → Served P now s (prepared m k s)
prepared-Served P now s (ok a) k h f = f a refl
prepared-Served P now s (err r) k h f = inl (refl, h)
