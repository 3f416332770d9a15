-- ===== src/Executor/Balance.antt =====
-- The processor that `spawn` chooses.
use dvida_oxide.Prelude.{ℕ, ◌≤◌, ◌≡◌, refl, ap, ◌≢◌, [], ◌∷◌, ◌++◌, length, All, arith}
use dvida_oxide.Executor.{ExecutorContext, Contexts}
use dvida_oxide.Executor.Fairness.{after}

module _ {ℓ} {F : Type ℓ} where
  -- No queue is shorter than `len`.
  abbrev pub IsShortest : ℕ → Contexts F → Type 0
  IsShortest len contexts = All (λ e. len ≤ length e.1.tasks) contexts

  -- The processors have different numbers, as keys of a map do.
  abbrev pub HasKeys : Contexts F → Type 0
  HasKeys [] = Unit
  HasKeys (e ∷ contexts) = All (λ e'. e'.0 ≢ e.0) contexts × HasKeys contexts

  -- The context with the number `cpu`, and what stands before and after it.
  pub record Place (cpu : ℕ) (contexts : Contexts F) : Type ℓ where
    pub before : Contexts F
    pub ctx : ExecutorContext F
    pub after : Contexts F
    pub here : contexts ≡ before ++ ((cpu, ctx) ∷ after)
    pub shortest : IsShortest (length ctx.tasks) contexts

  IsShortest-le :
      (a b : ℕ) (contexts : Contexts F) → a ≤ b → IsShortest b contexts → IsShortest a contexts
  IsShortest-le a b [] h s = tt
  IsShortest-le a b (e ∷ contexts) h s = (omega (arith, s.0), IsShortest-le a b contexts h s.1)

  -- With one more context in front.
  further :
      (cpu : ℕ) (e : ℕ × ExecutorContext F) (contexts : Contexts F) (p : Place cpu contexts)
      → length p.ctx.tasks ≤ length e.1.tasks
      → Place cpu (e ∷ contexts)
  further cpu e contexts p h = record {
    before = e ∷ p.before;
    ctx = p.ctx;
    after = p.after;
    here = ap (λ t. e ∷ t) p.here;
    shortest = (h, p.shortest);
  }

  first :
      (cpu : ℕ) (ctx : ExecutorContext F) (contexts : Contexts F) (n : ℕ)
      → n ≡ cpu
      → IsShortest (length ctx.tasks) contexts
      → Place n ((cpu, ctx) ∷ contexts)
  first cpu ctx contexts n e s = record {
    before = [];
    ctx = ctx;
    after = contexts;
    here = rw e refl;
    shortest = (omega arith, s);
  }
