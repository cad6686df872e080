-- ===== src/Programs/Testers/Success.antt =====
-- phase3/testers/fibEight.c and fibEleven.c where every print is answered: what they write.
use sistemi_operativi_proget.Common.{
  ℕ, ◌≡◌, refl, ap, ◌∙◌, ℤ, pos, ltb_ℤ, true, false, Option, some, List, [], ◌∷◌, arith,
  if◌then◌else◌, ◌==◌, length,
}
use sistemi_operativi_proget.Programs.Phase1.{codes}
use sistemi_operativi_proget.Programs.Testers.{
  Call, Process, newborn, terminated, wrote, verdict, print, finish, conclude, fib, fib-pair,
  fib_eight_main, fib_eleven_main,
}

module _ (answers : ℕ → ℤ) where
  printed :
      (str : List ℕ) (p : Process)
      → p.ended ≡ false
      → ltb_ℤ (answers p.answered) (pos 0) ≡ false
      → print answers str p ≡ wrote p str (length str)
  unfolding print
  printed str p runs fine =
      let failed =
        terminated (wrote (wrote p str (length str)) (codes "Bad device write status\n") 26) in
      ap
        (λ b.
          if b
          then p
          else if ltb_ℤ (answers p.answered) (pos 0)
          then failed
          else wrote p str (length str))
        runs
      ∙ ap (λ b. if b then failed else wrote p str (length str)) fine

  -- The calls of a run in which every print is answered.
  abbrev told : List ℕ → List Call
  told title =
      Call.write_terminal title (length title)
      ∷ Call.write_terminal (codes "Recursion Concluded\n") 20
      ∷ Call.write_terminal (codes "Recursion Concluded Successfully\n") 33
      ∷ Call.terminate
      ∷ []

  succeeded : List ℕ → Process
  succeeded title = record { calls = told title; answered = 3; ended = true }

  fib_main_succeeds :
      (title : List ℕ) (o : Option ℕ) (i : ℕ)
      → o ≡ some i
      → (i == i) ≡ true
      → ((j : ℕ) → ltb_ℤ (answers j) (pos 0) ≡ false)
      → (let p1 = print answers title newborn in
          (if p1.ended then some p1 else conclude answers o i p1) ≡ some (succeeded title))
  unfolding conclude finish succeeded
  fib_main_succeeds title o i e same fine =
      let said = wrote newborn title (length title) in
      let done = codes "Recursion Concluded\n" in
      ap (λ (p : Process). if p.ended then some p else conclude answers o i p)
        (printed title newborn refl (fine 0))
      ∙ ap (λ a. conclude answers a i said) e
      ∙ ap (λ p. some (finish (print answers (verdict (i == i)) p)))
          (printed done said refl (fine 1))
      ∙ ap (λ b. some (finish (print answers (verdict b) (wrote said done 20)))) same
      ∙ ap (λ p. some (finish p)) (printed (verdict true) (wrote said done 20) refl (fine 2))

  -- Where no print is answered with an error, fibEight and fibEleven write their title, then that the
  -- recursion is concluded, then that it is concluded successfully, and terminate.
  pub fib_mains_succeed :
      ((j : ℕ) → ltb_ℤ (answers j) (pos 0) ≡ false)
      → (fib_eight_main answers newborn
          ≡ some (record {
            calls = told (codes "Recursive Fibanaci (8) Test starts\n");
            answered = 3;
            ended = true;
          }))
        × (fib_eleven_main answers newborn
            ≡ some (record {
              calls = told (codes "Recursive Fibanaci (11) Test starts\n");
              answered = 3;
              ended = true;
            }))
  unfolding fib_eight_main fib_eleven_main succeeded
  fib_mains_succeed fine = (
    fib_main_succeeds _ (fib 8 8) 21 (fib-pair 8 7 (omega arith)) refl fine,
    fib_main_succeeds _ (fib 11 11) 89 (fib-pair 11 10 (omega arith)) refl fine,
  )
