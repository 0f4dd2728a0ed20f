-- ===== src/Workflow/Steps/Laws.antt =====
-- What a sequence of calls leaves alone, and what holds after one that succeeded.
use mathlib.Core.Path.{◌∙◌}
use code_intelegence.Base.{◌≡◌, refl, ◌⊎◌, inl, inr, Bool, true, false, arith}
use code_intelegence.Domain.Errors.{Result, ok, err}
use code_intelegence.Workflow.Steps.{World, Step, continue, ◌>>=◌, ◌>>◌, fails_as, recast, when}

pub Result-cases :
    {E A : Type 0} (r : Result E A) → ((a : A) × (r ≡ ok a)) ⊎ ((e : E) × (r ≡ err e))
Result-cases (ok a) = inl (a, refl)
Result-cases (err e) = inr (e, refl)

-- Whatever the outcome, `f` of the state is as before.
module _ {X : Type 0} (f : World → X) {E : Type 0} where
  abbrev pub Keeps : {A : Type 0} → Step E A → Type 0
  Keeps m = (w : World) → f (m w).1 ≡ f w

  continue-Keeps :
      {A B : Type 0} (r : Result E A × World) (n : A → Step E B)
      → ((a : A) → Keeps (n a))
      → f (continue r n).1 ≡ f r.1
  continue-Keeps (ok a, w) n k = k a w
  continue-Keeps (err e, w) n k = refl

  pub bind-Keeps :
      {A B : Type 0} (m : Step E A) (n : A → Step E B)
      → Keeps m
      → ((a : A) → Keeps (n a))
      → Keeps (m >>= n)
  unfolding ◌>>=◌
  bind-Keeps m n h k w = continue-Keeps (m w) n k ∙ h w

  pub then-Keeps : {A B : Type 0} (m : Step E A) (n : Step E B) → Keeps m → Keeps n → Keeps (m >> n)
  unfolding ◌>>◌
  then-Keeps m n h k w = continue-Keeps (m w) (λ _. n) (λ _. k) ∙ h w

  pub when-Keeps : (b : Bool) (m : Step E (Unit {0})) → Keeps m → Keeps (when b m)
  unfolding when
  when-Keeps true m h w = h w
  when-Keeps false m h w = refl

  recast-Keeps : {F A : Type 0} (g : F → E) (r : Result F A × World) → f (recast g r).1 ≡ f r.1
  recast-Keeps g (ok a, w) = refl
  recast-Keeps g (err e, w) = refl

  pub fails_as-Keeps :
      {F A : Type 0} (g : F → E) (m : Step F A)
      → ((w : World) → f (m w).1 ≡ f w)
      → Keeps (fails_as g m)
  unfolding fails_as
  fails_as-Keeps g m h w = recast-Keeps g (m w) ∙ h w

-- A sequence that succeeds has succeeded in each of its steps.
module _ {E : Type 0} where
  continue-ok :
      {A B : Type 0} (r : Result E A × World) (n : A → Step E B) {b : B} {after : World}
      → continue r n ≡ (ok b, after)
      → (a : A) × (mid : World) × (r ≡ (ok a, mid)) × (n a mid ≡ (ok b, after))
  continue-ok (ok a, w) n h = (a, w, refl, h)
  continue-ok (err e, w) n h = absurd (ground arith)

  pub bind-ok :
      {A B : Type 0} (m : Step E A) (n : A → Step E B) (w : World) {b : B} {after : World}
      → (m >>= n) w ≡ (ok b, after)
      → (a : A) × (mid : World) × (m w ≡ (ok a, mid)) × (n a mid ≡ (ok b, after))
  unfolding ◌>>=◌
  bind-ok m n w h = continue-ok (m w) n h

  pub then-ok :
      {A B : Type 0} (m : Step E A) (n : Step E B) (w : World) {b : B} {after : World}
      → (m >> n) w ≡ (ok b, after)
      → (a : A) × (mid : World) × (m w ≡ (ok a, mid)) × (n mid ≡ (ok b, after))
  unfolding ◌>>◌
  then-ok m n w h = continue-ok (m w) (λ _. n) h

  recast-ok :
      {F A : Type 0} (g : F → E) (r : Result F A × World) {a : A} {after : World}
      → recast g r ≡ (ok a, after)
      → r ≡ (ok a, after)
  recast-ok g (ok a, w) h = ground arith
  recast-ok g (err e, w) h = absurd (ground arith)

  pub fails_as-ok :
      {F A : Type 0} (g : F → E) (m : Step F A) (w : World) {a : A} {after : World}
      → fails_as g m w ≡ (ok a, after)
      → m w ≡ (ok a, after)
  unfolding fails_as
  fails_as-ok g m w h = recast-ok g (m w) h

-- Whatever the state, the outcome is not the error `bad`.
module _ {E : Type 0} (bad : E) where
  abbrev pub Avoids : {A : Type 0} → Step E A → Type 0
  Avoids m = (w : World) → (m w).0 ≡ err bad → ⊥

  continue-Avoids :
      {A B : Type 0} (r : Result E A × World) (n : A → Step E B)
      → (r.0 ≡ err bad → ⊥)
      → ((a : A) (mid : World) → r ≡ (ok a, mid) → (n a mid).0 ≡ err bad → ⊥)
      → (continue r n).0 ≡ err bad
      → ⊥
  continue-Avoids (ok a, w) n h k e = k a w refl e
  continue-Avoids (err why, w) n h k e = h (ground arith)

  -- What the first part returned may be used for the second.
  pub bind-Avoids :
      {A B : Type 0} (m : Step E A) (n : A → Step E B)
      → Avoids m
      → ((a : A) (w mid : World) → m w ≡ (ok a, mid) → (n a mid).0 ≡ err bad → ⊥)
      → Avoids (m >>= n)
  unfolding ◌>>=◌
  bind-Avoids m n h k w = continue-Avoids (m w) n (h w) (λ a mid. k a w mid)

  pub then-Avoids :
      {A B : Type 0} (m : Step E A) (n : Step E B) → Avoids m → Avoids n → Avoids (m >> n)
  unfolding ◌>>◌
  then-Avoids m n h k w = continue-Avoids (m w) (λ _. n) (h w) (λ a mid e. k mid)

  pub when-Avoids : (b : Bool) (m : Step E (Unit {0})) → Avoids m → Avoids (when b m)
  unfolding when
  when-Avoids true m h w e = h w e
  when-Avoids false m h w e = absurd (ground arith)

  recast-Avoids :
      {F A : Type 0} (g : F → E) (r : Result F A × World)
      → ((e : F) → g e ≡ bad → ⊥)
      → (recast g r).0 ≡ err bad
      → ⊥
  recast-Avoids g (ok a, w) h e = absurd (ground arith)
  recast-Avoids g (err why, w) h e = h why (ground arith)

  pub fails_as-Avoids :
      {F A : Type 0} (g : F → E) (m : Step F A) → ((e : F) → g e ≡ bad → ⊥) → Avoids (fails_as g m)
  unfolding fails_as
  fails_as-Avoids g m h w = recast-Avoids g (m w) h
