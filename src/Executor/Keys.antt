-- ===== src/Executor/Keys.antt =====
-- The processors of a new executor have different numbers.
use dvida_oxide.Prelude.{
  ℕ, ◌<◌, ◌≢◌, Bool-cases, inl, inr, ◌==◌, ltb, ltb→lt, ltb→le, ==→ne, List, [], ◌∷◌, All, arith,
}
use dvida_oxide.Executor.{ExecutorContext, Contexts, no_tasks, insert_context, insert_cpus, new}
use dvida_oxide.Executor.Balance.{HasKeys}

module _ {ℓ} {F : Type ℓ} where
  abbrev Above : ℕ → Contexts F → Type 0
  Above key contexts = All (λ e. key < e.0) contexts

  abbrev IsSorted : Contexts F → Type 0
  IsSorted [] = Unit
  IsSorted (e ∷ contexts) = Above e.0 contexts × IsSorted contexts

  Above-lt : (a b : ℕ) (contexts : Contexts F) → a < b → Above b contexts → Above a contexts
  Above-lt a b [] h k = tt
  Above-lt a b (e ∷ contexts) h k = (omega (arith, k.0), Above-lt a b contexts h k.1)

  Above-apart : (a : ℕ) (contexts : Contexts F) → Above a contexts → All (λ e. e.0 ≢ a) contexts
  Above-apart a [] k = tt
  Above-apart a (e ∷ contexts) k = (λ h. omega (arith, k.0), Above-apart a contexts k.1)

  IsSorted-HasKeys : (contexts : Contexts F) → IsSorted contexts → HasKeys contexts
  IsSorted-HasKeys [] s = tt
  IsSorted-HasKeys (e ∷ contexts) s = (Above-apart e.0 contexts s.0, IsSorted-HasKeys contexts s.1)

  insert_context-Above :
      (a cpu : ℕ) (ctx : ExecutorContext F) (contexts : Contexts F)
      → a < cpu
      → Above a contexts
      → Above a (insert_context cpu ctx contexts)
  unfolding insert_context
  insert_context-Above a cpu ctx [] h k = (h, tt)
  insert_context-Above a cpu ctx ((key, other) ∷ contexts) h k = elim (Bool-cases (ltb cpu key)) [
    | inl e ↦ rw e (h, k)
    | inr e ↦ rw e (elim (Bool-cases (key == cpu)) [
      | inl e' ↦ rw e' k
      | inr e' ↦ rw e' (k.0, insert_context-Above a cpu ctx contexts h k.1)
    ])
  ]

  insert_context-IsSorted :
      (cpu : ℕ) (ctx : ExecutorContext F) (contexts : Contexts F)
      → IsSorted contexts
      → IsSorted (insert_context cpu ctx contexts)
  unfolding insert_context
  insert_context-IsSorted cpu ctx [] s = (tt, tt)
  insert_context-IsSorted cpu ctx ((key, other) ∷ contexts) s = elim (Bool-cases (ltb cpu key)) [
    | inl e ↦ rw e ((ltb→lt cpu key e, Above-lt cpu key contexts (ltb→lt cpu key e) s.0), s)
    | inr e ↦ rw e (elim (Bool-cases (key == cpu)) [
      | inl e' ↦ rw e' s
      | inr e' ↦
          let lt : key < cpu = omega (arith, ltb→le cpu key e, ==→ne key cpu e') in
          rw e' (
            insert_context-Above key cpu ctx contexts lt s.0,
            insert_context-IsSorted cpu ctx contexts s.1,
          )
    ])
  ]

  insert_cpus-IsSorted :
      (cpus : List ℕ) (contexts : Contexts F)
      → IsSorted contexts
      → IsSorted (insert_cpus cpus contexts)
  unfolding insert_cpus
  insert_cpus-IsSorted [] contexts s = s
  insert_cpus-IsSorted (cpu ∷ cpus) contexts s =
      insert_cpus-IsSorted cpus (insert_context cpu no_tasks contexts)
        (insert_context-IsSorted cpu no_tasks contexts s)

pub new-HasKeys {ℓ} : (F : Type ℓ) (cpus : List ℕ) → HasKeys (new {F = F} cpus).contexts
unfolding new
new-HasKeys F cpus = IsSorted-HasKeys (insert_cpus cpus []) (insert_cpus-IsSorted cpus [] tt)
