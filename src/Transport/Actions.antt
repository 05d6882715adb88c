-- ===== src/Transport/Actions.antt =====
-- Calls of a client of the object store: a state, and exceptions. The state comes back after a raise
-- too, since what was written stays written.
use reporting_platform_local.Common.{
  Bool, true, false, Option, none, some, Result, ok, err, ◌≡◌, refl, subst, arith, Result-cases,
  inl, inr,
}
use reporting_platform_local.Transport.Paths.{TransportError}

abbrev pub Action : Type 0 → Type 0 → Type 0
Action S A = S → Result TransportError A × S

module _ {S A : Type 0} where
  abbrev pub pure : A → Action S A
  pure a s = (ok a, s)

  abbrev pub raise : TransportError → Action S A
  raise fault s = (err fault, s)

  abbrev pub lift : Result TransportError A → Action S A
  lift r s = (r, s)

  abbrev settle : Result TransportError A × S → Result TransportError (Option A) × S
  settle (ok a, s) = (ok (some a), s)
  settle (err fault, s) = (ok none, s)

  -- `try: m`, with `None` for what it raises
  abbrev pub attempt : Action S A → Action S (Option A)
  attempt m s = settle (m s)

  abbrev clean : Result TransportError A × S → (S → S) → Result TransportError A × S
  clean (ok a, s) cleanup = (ok a, s)
  clean (err fault, s) cleanup = (err fault, cleanup s)

  -- `try: m`, with what a cleanup leaves before the exception is raised again
  abbrev pub on_failure : Action S A → (S → S) → Action S A
  on_failure m cleanup s = clean (m s) cleanup

abbrev pub next :
    {S A B : Type 0} → Result TransportError A × S → (A → Action S B) → Result TransportError B × S
next (ok a, s) k = k a s
next (err fault, s) k = (err fault, s)

infixl 5 ◌>>=◌ ◌>>◌
abbrev pub ◌>>=◌ : {S A B : Type 0} → Action S A → (A → Action S B) → Action S B
◌>>=◌ m k s = next (m s) k

abbrev pub ◌>>◌ : {S A B : Type 0} → Action S A → Action S B → Action S B
m >> k = m >>= λ _. k

abbrev pub refuse_if : {S : Type 0} → Bool → TransportError → Action S (Unit {0})
refuse_if true fault = raise fault
refuse_if false fault = pure tt

-- Where a call from a state returns a value, the value and the state that it leaves are so.
abbrev pub Ensures : {S A : Type 0} → Action S A → S → (A → S → Type 0) → Type 0
Ensures {A = A} m s Q = (a : A) → (m s).0 ≡ ok a → Q a (m s).1

Ensures-next :
    {S A B : Type 0} (p : Result TransportError A × S) (k : A → Action S B) (Q : B → S → Type 0)
    → ((a : A) → p.0 ≡ ok a → Ensures (k a) p.1 Q)
    → (b : B) → (next p k).0 ≡ ok b
    → Q b (next p k).1
Ensures-next (ok a, s) k Q h b e = h a refl b e
Ensures-next (err fault, s) k Q h b e = cc

pub Ensures-bind :
    {S A B : Type 0} (m : Action S A) (k : A → Action S B) (s : S) (Q : B → S → Type 0)
    → ((a : A) → (m s).0 ≡ ok a → Ensures (k a) (m s).1 Q)
    → Ensures (m >>= k) s Q
Ensures-bind m k s Q h = Ensures-next (m s) k Q h

pub Ensures-refuse_if :
    {S A : Type 0} (b : Bool) (fault : TransportError) (k : Action S A) (s : S) (Q : A → S → Type 0)
    → (b ≡ false → Ensures k s Q)
    → Ensures (refuse_if b fault >> k) s Q
Ensures-refuse_if true fault k s Q h a e = cc
Ensures-refuse_if false fault k s Q h a e = h refl a e

pub Ensures-refuse_if_last :
    {S : Type 0} (b : Bool) (fault : TransportError) (s : S) (Q : Unit {0} → S → Type 0)
    → (b ≡ false → Q tt s)
    → Ensures (refuse_if b fault) s Q
Ensures-refuse_if_last true fault s Q h a e = cc
Ensures-refuse_if_last false fault s Q h a e = h refl

Ensures-clean :
    {S A : Type 0} (p : Result TransportError A × S) (cleanup : S → S) (Q : A → S → Type 0)
    → ((a : A) → p.0 ≡ ok a → Q a p.1)
    → (a : A) → (clean p cleanup).0 ≡ ok a
    → Q a (clean p cleanup).1
Ensures-clean (ok b, s) cleanup Q h a e = h a e
Ensures-clean (err fault, s) cleanup Q h a e = cc

pub Ensures-on_failure :
    {S A : Type 0} (m : Action S A) (cleanup : S → S) (s : S) (Q : A → S → Type 0)
    → Ensures m s Q
    → Ensures (on_failure m cleanup) s Q
Ensures-on_failure m cleanup s Q h = Ensures-clean (m s) cleanup Q h

Ensures-settle :
    {S A : Type 0} (p : Result TransportError A × S) (Q : Option A → S → Type 0)
    → Q none p.1
    → ((a : A) → p.0 ≡ ok a → Q (some a) p.1)
    → (o : Option A) → (settle p).0 ≡ ok o
    → Q o (settle p).1
Ensures-settle (ok a, s) Q failed h o e = subst (λ o. Q o s) (ground (arith, e)) (h a refl)
Ensures-settle (err fault, s) Q failed h o e = subst (λ o. Q o s) (ground (arith, e)) failed

pub Ensures-attempt :
    {S A : Type 0} (m : Action S A) (s : S) (Q : Option A → S → Type 0)
    → Q none (m s).1
    → ((a : A) → (m s).0 ≡ ok a → Q (some a) (m s).1)
    → Ensures (attempt m) s Q
Ensures-attempt m s Q failed h = Ensures-settle (m s) Q failed h

-- The state that a call leaves, whether it returns or raises
ends_next :
    {S A B : Type 0} (p : Result TransportError A × S) (k : A → Action S B) (P : S → Type 0)
    → ((fault : TransportError) → p.0 ≡ err fault → P p.1)
    → ((a : A) → p.0 ≡ ok a → P (k a p.1).1)
    → P (next p k).1
ends_next (ok a, s) k P raised h = h a refl
ends_next (err fault, s) k P raised h = raised fault refl

pub ends_bind :
    {S A B : Type 0} (m : Action S A) (k : A → Action S B) (s : S) (P : S → Type 0)
    → ((fault : TransportError) → (m s).0 ≡ err fault → P (m s).1)
    → ((a : A) → (m s).0 ≡ ok a → P (k a (m s).1).1)
    → P ((m >>= k) s).1
ends_bind m k s P raised h = ends_next (m s) k P raised h

pub ends_either :
    {S A : Type 0} (m : Action S A) (s : S) (P : S → Type 0)
    → ((fault : TransportError) → (m s).0 ≡ err fault → P (m s).1)
    → ((a : A) → (m s).0 ≡ ok a → P (m s).1)
    → P (m s).1
ends_either m s P raised returned = elim (Result-cases (m s).0) [
  | inl (a, e) ↦ returned a e
  | inr (fault, e) ↦ raised fault e
]

ends_settled :
    {S A : Type 0} (p : Result TransportError A × S) (cleanup : S → S) (P : S → Type 0)
    → ((fault : TransportError) → p.0 ≡ err fault → P (cleanup p.1))
    → ((a : A) → p.0 ≡ ok a → P p.1)
    → P (clean p cleanup).1
ends_settled (ok a, s) cleanup P cleaned returned = returned a refl
ends_settled (err fault, s) cleanup P cleaned returned = cleaned fault refl

pub ends_on_failure :
    {S A : Type 0} (m : Action S A) (cleanup : S → S) (s : S) (P : S → Type 0)
    → ((fault : TransportError) → (m s).0 ≡ err fault → P (cleanup (m s).1))
    → ((a : A) → (m s).0 ≡ ok a → P (m s).1)
    → P (on_failure m cleanup s).1
ends_on_failure m cleanup s P cleaned returned = ends_settled (m s) cleanup P cleaned returned

ends_tried :
    {S A B : Type 0} (p : Result TransportError A × S) (cleanup : S → S) (k : A → Action S B)
    (P : S → Type 0)
    → ((fault : TransportError) → p.0 ≡ err fault → P (cleanup p.1))
    → ((a : A) → p.0 ≡ ok a → P (k a p.1).1)
    → P (next (clean p cleanup) k).1
ends_tried (ok a, s) cleanup k P cleaned later = later a refl
ends_tried (err fault, s) cleanup k P cleaned later = cleaned fault refl

-- A call with a cleanup, and what follows it
pub ends_try :
    {S A B : Type 0} (m : Action S A) (cleanup : S → S) (k : A → Action S B) (s : S)
    (P : S → Type 0)
    → ((fault : TransportError) → (m s).0 ≡ err fault → P (cleanup (m s).1))
    → ((a : A) → (m s).0 ≡ ok a → P (k a (m s).1).1)
    → P ((on_failure m cleanup >>= k) s).1
ends_try m cleanup k s P cleaned later = ends_tried (m s) cleanup k P cleaned later

-- A predicate of states that a call keeps, whether it returns or raises
abbrev pub Keeps : {S A : Type 0} → (S → Type 0) → Action S A → Type 0
Keeps {S = S} P m = (s : S) → P s → P (m s).1

Keeps-next :
    {S A B : Type 0} (P : S → Type 0) (p : Result TransportError A × S) (k : A → Action S B)
    → P p.1
    → ((a : A) → Keeps P (k a))
    → P (next p k).1
Keeps-next P (ok a, s) k h keep = keep a s h
Keeps-next P (err fault, s) k h keep = h

module _ {S : Type 0} (P : S → Type 0) where
  pub Keeps-bind :
      {A B : Type 0} (m : Action S A) (k : A → Action S B)
      → Keeps P m
      → ((a : A) → Keeps P (k a))
      → Keeps P (m >>= k)
  Keeps-bind m k first later s h = Keeps-next P (m s) k (first s h) later

  settle-keeps : {A : Type 0} (p : Result TransportError A × S) → P p.1 → P (settle p).1
  settle-keeps (ok a, s) h = h
  settle-keeps (err fault, s) h = h

  pub Keeps-attempt : {A : Type 0} (m : Action S A) → Keeps P m → Keeps P (attempt m)
  Keeps-attempt m keep s h = settle-keeps (m s) (keep s h)

  clean-keeps :
      {A : Type 0} (p : Result TransportError A × S) (cleanup : S → S)
      → ((s : S) → P s → P (cleanup s))
      → P p.1
      → P (clean p cleanup).1
  clean-keeps (ok a, s) cleanup keep h = h
  clean-keeps (err fault, s) cleanup keep h = keep s h

  pub Keeps-on_failure :
      {A : Type 0} (m : Action S A) (cleanup : S → S)
      → Keeps P m
      → ((s : S) → P s → P (cleanup s))
      → Keeps P (on_failure m cleanup)
  Keeps-on_failure m cleanup keep kept s h = clean-keeps (m s) cleanup kept (keep s h)

  pub Keeps-refuse_if : (b : Bool) (fault : TransportError) → Keeps P (refuse_if b fault)
  Keeps-refuse_if true fault s h = h
  Keeps-refuse_if false fault s h = h
