-- ===== src/Http/Rules.antt =====
-- How a predicate on the state passes through the steps of a handler.
use crapnote.Base.{ℕ, Bool, true, false, Option, none, some, ◌≡◌, refl, String}
use crapnote.Base.Outcome.{Result, ok, err, Error, not_found, Op}
use crapnote.Db.{User}
use crapnote.Http.{
  reading, failing, not_found_as, respond, Reply, sends, Handler, authenticated, given, stop_if,
  continue, after,
}

-- A handler that keeps a predicate, whatever it replies.
pub record Keeps {ℓ} {S A : Type 0} (P : S → Type ℓ) (h : Handler S A) : Type ℓ where
  pub kept : (s : S) → P s → P (h s).1

module _ {ℓ} {S A : Type 0} {P : S → Type ℓ} where
  pub respond-Keeps : (r : S → Reply A) → Keeps P (respond r)
  unfolding respond
  respond-Keeps r = record { kept = λ s p. p }

  pub reading-Keeps : (f : S → Handler S A) → ((s : S) → P s → P (f s s).1) → Keeps P (reading f)
  unfolding reading
  reading-Keeps f k = record { kept = k }

  pub stop_if-Keeps :
      (b : Bool) (r : Reply A) (h : Handler S A) → (b ≡ false → Keeps P h) → Keeps P (stop_if b r h)
  unfolding stop_if
  stop_if-Keeps true r h k = record { kept = λ s p. p }
  stop_if-Keeps false r h k = k refl

  pub authenticated-Keeps :
      (u : Option User) (h : User → Handler S A)
      → ((x : User) → Keeps P (h x))
      → Keeps P (authenticated u h)
  unfolding authenticated
  authenticated-Keeps none h k = record { kept = λ s p. p }
  authenticated-Keeps (some x) h k = record { kept = (k x).kept }

  pub caller-Keeps :
      (x : User) (h : User → Handler S A) → Keeps P (h x) → Keeps P (authenticated (some x) h)
  unfolding authenticated
  caller-Keeps x h k = record { kept = k.kept }

pub continue-keeps {ℓ} :
    {S A B : Type 0} (P : S → Type ℓ) (bad : Error → Reply A) (k : B → Handler S A)
    (r : Result B × S)
    → P r.1
    → ((b : B) → r.0 ≡ ok b → P (k b r.1).1)
    → P (continue bad k r).1
continue-keeps P bad k (ok b, s) p c = c b refl
continue-keeps P bad k (err e, s) p c = p

module _ {ℓ} {S A B : Type 0} {P : S → Type ℓ} where
  pub given-Keeps :
      (b : Option B) (message : String) (h : B → Handler S A)
      → ((x : B) → Keeps P (h x))
      → Keeps P (given b message h)
  unfolding given
  given-Keeps none message h k = record { kept = λ s p. p }
  given-Keeps (some x) message h k = record { kept = (k x).kept }

  -- The handler that goes on may use what the call returned.
  pub after-Keeps_result :
      (op : Op S B) (bad : Error → Reply A) (k : B → Handler S A)
      → ((s : S) → P s → P (op s).1)
      → ((s : S) (b : B) → P s → (op s).0 ≡ ok b → P (k b (op s).1).1)
      → Keeps P (after op bad k)
  unfolding after
  after-Keeps_result op bad k o keep = record {
    kept = λ s p. continue-keeps P bad k (op s) (o s p) (λ b. keep s b p);
  }

  pub after-Keeps :
      (op : Op S B) (bad : Error → Reply A) (k : B → Handler S A)
      → ((s : S) → P s → P (op s).1)
      → ((b : B) → Keeps P (k b))
      → Keeps P (after op bad k)
  after-Keeps op bad k o keep = after-Keeps_result op bad k o (λ s b p e. (keep b).kept _ (o s p))

-- The steps of a handler, for the caller at hand or for any.
pub ruleset step_rules = (respond-Keeps, stop_if-Keeps, given-Keeps, after-Keeps, caller-Keeps)

pub ruleset handler_rules =
    (respond-Keeps, stop_if-Keeps, authenticated-Keeps, given-Keeps, after-Keeps)

-- A handler that sends got past each step.
pub after-sends :
    {S A B : Type 0} (op : Op S A) (bad : Error → Reply B) (k : A → Handler S B) (s : S)
    (status : ℕ) (b : B)
    → ((e : Error) (n : ℕ) (x : B) → bad e ≡ sends n x → ⊥)
    → (after op bad k s).0 ≡ sends status b
    → (a : A) × ((op s).0 ≡ ok a)
      × ((k a (op s).1).0 ≡ sends status b)
      × ((after op bad k s).1 ≡ (k a (op s).1).1)
unfolding after
after-sends op bad k s status b never h = go (op s) h
  where
    go :
        (r : Result _ × _)
        → (continue bad k r).0 ≡ sends status b
        → (a : _) × (r.0 ≡ ok a)
          × ((k a r.1).0 ≡ sends status b)
          × ((continue bad k r).1 ≡ (k a r.1).1)
    go (ok a, s') e = (a, refl, e, refl)
    go (err x, s') e = absurd (never x status b e)

pub failing-fails : {A : Type 0} (e : Error) (n : ℕ) (x : A) → failing e ≡ sends n x → ⊥
failing-fails e n x h = absurd (cc h)

pub not_found_as-fails :
    {A : Type 0} (message : String) (e : Error) (n : ℕ) (x : A)
    → not_found_as message e ≡ sends n x
    → ⊥
not_found_as-fails message not_found n x h = absurd (cc h)
not_found_as-fails message _ n x h = absurd (cc h)

-- A call that fails is answered at once, in the state that it left.
pub after-fails :
    {S A B : Type 0} (op : Op S A) (bad : Error → Reply B) (k : A → Handler S B) (s : S) (e : Error)
    → (op s).0 ≡ err e
    → after op bad k s ≡ (bad e, (op s).1)
unfolding after
after-fails op bad k s e h = go (op s) h
  where
    go : (r : Result _ × _) → r.0 ≡ err e → continue bad k r ≡ (bad e, r.1)
    go (ok a, s') h = absurd (cc h)
    go (err x, s') h = let same : x ≡ e = cc h in rw same refl
