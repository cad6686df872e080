-- ===== src/Programs/Testers.antt =====
-- phase3/testers: print.c, fibEight.c, fibEleven.c, uname.c, date.c and sl.c. What a process asks of
-- the support level is the list of its calls; what SYS4 answers is the parameter `answers`, by the
-- number of the call. TERMINATE does not return.
pub mod Success
use sistemi_operativi_proget.Common.{
  ℕ, zero, suc, ◌+◌, ◌-◌, ◌<◌, ◌≡◌, refl, ap, ◌∙◌, ℤ, pos, ltb_ℤ, Bool, true, false, ◌||◌, Option,
  none, some, List, [], ◌∷◌, ◌++◌, arith, if◌then◌else◌, if_cases, inl, inr, ◌⊎◌, ◌==◌, length,
}
use sistemi_operativi_proget.Programs.Phase1.{codes}

pub data Call : Type 0 where
  write_terminal : List ℕ → ℕ → Call
  terminate : Call

-- The calls made so far, how many SYS4s were answered, and whether TERMINATE was called.
pub record Process : Type 0 where
  pub calls : List Call
  pub answered : ℕ
  pub ended : Bool

abbrev pub newborn : Process
newborn = record { calls = []; answered = 0; ended = false }

abbrev pub terminated : Process → Process
terminated p = record p { calls = p.calls ++ Call.terminate ∷ []; ended = true }

abbrev pub wrote : Process → List ℕ → ℕ → Process
wrote p text leng = record p {
  calls = p.calls ++ Call.write_terminal text leng ∷ [];
  answered = p.answered + 1;
}

unfoldable pub finish : Process → Process
finish p = if p.ended then p else terminated p

module _ (answers : ℕ → ℤ) where
  -- Behind a TERMINATE nothing of the program runs.
  unfoldable pub print : List ℕ → Process → Process
  print str p =
      let asked = wrote p str (length str) in
      let failed = terminated (wrote asked (codes "Bad device write status\n") 26) in
      if p.ended then p else if ltb_ℤ (answers p.answered) (pos 0) then failed else asked

  unfoldable pub uname_main : Process → Process
  unfolding print finish
  uname_main p = finish (print (codes "PandOSsh\n") p)

  unfoldable pub date_main : Process → Process
  unfolding print finish
  date_main p = finish (print (codes "Sat  5 Nov 06:15:00 PST 1955\n") p)

  unfoldable pub sl_main : Process → Process
  unfolding print finish
  sl_main p =
      let p1 = print (codes "     ++      +------ \n") p in
      let p2 = print (codes "     ||      |+-+ |  \n") p1 in
      let p3 = print (codes "   /---------|| | |  \n") p2 in
      let p4 = print (codes "  + ========  +-+ |  \n") p3 in
      let p5 = print (codes " _|--O========O~\\-+ \n") p4 in
      finish (print (codes "//// \\_/      \\_/  \n") p5)

-- fib of fibEight.c and fibEleven.c on a positive argument, with n calls left on the way down; none
-- where they run out.
unfoldable pub sum_of : Option ℕ → Option ℕ → Option ℕ
sum_of none o = none
sum_of (some a) none = none
sum_of (some a) (some b) = some (a + b)

unfoldable pub fib : ℕ → ℕ → Option ℕ
fib zero i = none
fib (suc n) i =
    let one_less = fib n (i - 1) in
    let two_less = fib n (i - 2) in if i == 1 || i == 2 then some 1 else sum_of one_less two_less

-- The last two numbers of the sequence that starts with 0 and 1.
abbrev pub pair : ℕ → ℕ × ℕ
pair zero = (0, 1)
pair (suc i) = let (a, b) = pair i in (b, a + b)

fib_stop : (n i : ℕ) → (i == 1 || i == 2) ≡ true → fib (suc n) i ≡ some 1
unfolding fib
fib_stop n i e = rw e refl

fib_step :
    (n i : ℕ) → (i == 1 || i == 2) ≡ false → fib (suc n) i ≡ sum_of (fib n (i - 1)) (fib n (i - 2))
unfolding fib
fib_step n i e = rw e refl

-- The recursion of fib comes to an end on a positive argument, at most i calls deep, and computes the
-- number of the sequence in which each is the sum of the two before it.
pub fib-pair : (n i : ℕ) → i < n → fib n (suc i) ≡ some (pair i).1
fib-pair zero i lt = elim lt [ ]
fib-pair (suc n) zero lt = fib_stop n 1 refl
fib-pair (suc n) (suc zero) lt = fib_stop n 2 refl
fib-pair (suc n) (suc (suc i)) lt =
    fib_step n (suc (suc (suc i))) (ground arith)
    ∙ ap (λ j. sum_of (fib n j) (fib n (suc (suc (suc i)) - 2))) (less_one (suc (suc i)))
    ∙ ap (λ j. sum_of (fib n (suc (suc i))) (fib n j)) (less_two (suc i))
    ∙ ap (λ o. sum_of o (fib n (suc i))) (fib-pair n (suc i) (omega (arith, lt)))
    ∙ ap (sum_of (some (pair (suc i)).1)) (fib-pair n i (omega (arith, lt)))
    ∙ summed (pair (suc i)).1 (pair i).1
  where
    less_one : (a : ℕ) → suc a - 1 ≡ a
    less_one a = omega arith

    less_two : (a : ℕ) → suc (suc a) - 2 ≡ a
    less_two a = omega arith

    summed : (a b : ℕ) → sum_of (some a) (some b) ≡ some (b + a)
    summed a b = unfold sum_of in ap some (omega arith)

-- What the two programs say of the number that they computed.
abbrev pub verdict : Bool → List ℕ
verdict true = codes "Recursion Concluded Successfully\n"
verdict false = codes "ERROR: Recursion problems\n"

module _ (answers : ℕ → ℤ) where
  -- By what fib returns; none is a run without end.
  unfoldable pub conclude : Option ℕ → ℕ → Process → Option Process
  conclude none expected p = none
  conclude (some i) expected p =
      let p1 = print answers (codes "Recursion Concluded\n") p in
      some (finish (print answers (verdict (i == expected)) p1))

  -- A process that has ended does not come to the call of fib.
  unfoldable pub fib_eight_main : Process → Option Process
  unfolding conclude
  fib_eight_main p =
      let p1 = print answers (codes "Recursive Fibanaci (8) Test starts\n") p in
      if p1.ended then some p1 else conclude (fib 8 8) 21 p1

  unfoldable pub fib_eleven_main : Process → Option Process
  unfolding conclude
  fib_eleven_main p =
      let p1 = print answers (codes "Recursive Fibanaci (11) Test starts\n") p in
      if p1.ended then some p1 else conclude (fib 11 11) 89 p1

  -- The last call is TERMINATE, and nothing comes behind it.
  abbrev pub EndsWell : Process → Type 0
  EndsWell p = (before : List Call) × (p.calls ≡ before ++ Call.terminate ∷ []) × (p.ended ≡ true)

  -- Ended well, or still running.
  abbrev Sane : Process → Type 0
  Sane p = EndsWell p ⊎ (p.ended ≡ false)

  print-Sane : (str : List ℕ) (p : Process) → Sane p → Sane (print answers str p)
  unfolding print
  print-Sane str p h =
      if_cases {A = Process} Sane p.ended p _ (λ _. h)
        (λ runs.
          if_cases {A = Process} Sane (ltb_ℤ (answers p.answered) (pos 0)) _ _
            (λ _. inl (_, refl, refl)) (λ _. inr runs))

  finish-EndsWell : (p : Process) → Sane p → EndsWell (finish p)
  unfolding finish
  finish-EndsWell p h =
      if_cases {A = Process} EndsWell p.ended p _
        (λ done. elim h [ inl well ↦ well | inr runs ↦ ground (arith, done, runs) ])
        (λ _. (p.calls, refl, refl))

  -- The run comes to an end, and ends well.
  abbrev pub Completes : Option Process → Type 0
  Completes o = (p : Process) × (o ≡ some p) × EndsWell p

  concluded :
      (o : Option ℕ) (i expected : ℕ) (p : Process)
      → o ≡ some i
      → Sane p
      → Completes (conclude o expected p)
  unfolding conclude
  concluded o i expected p e h =
      let said = print-Sane (codes "Recursion Concluded\n") p h in
      (
        _,
        ap (λ a. conclude a expected p) e,
        finish-EndsWell _ (print-Sane (verdict (i == expected)) _ said),
      )

  fib_main-Completes :
      (title : List ℕ) (o : Option ℕ) (i expected : ℕ) (p : Process)
      → o ≡ some i
      → p.ended ≡ false
      → (let p1 = print answers title p in
          Completes (if p1.ended then some p1 else conclude o expected p1))
  fib_main-Completes title o i expected p e runs =
      let p1 = print answers title p in
      let h = print-Sane title p (inr runs) in
      if_cases {A = Option Process} Completes p1.ended (some p1) (conclude o expected p1)
        (λ done. (p1, refl, elim h [ inl well ↦ well | inr runs ↦ ground (arith, done, runs) ]))
        (λ _. concluded o i expected p1 e h)

  -- Whatever SYS4 answers: each of the five programs comes to an end with the call TERMINATE, which it
  -- makes last, also where a print failed; and the recursion of fib is not cut off.
  pub testers_terminate :
      (p : Process)
      → p.ended ≡ false
      → EndsWell (uname_main answers p)
        × EndsWell (date_main answers p)
        × EndsWell (sl_main answers p)
        × Completes (fib_eight_main p)
        × Completes (fib_eleven_main p)
  unfolding uname_main date_main sl_main fib_eight_main fib_eleven_main
  testers_terminate p runs = (
    finish-EndsWell _ (print-Sane _ p (inr runs)),
    finish-EndsWell _ (print-Sane _ p (inr runs)),
    finish-EndsWell _ (
        print-Sane _ _ (
          print-Sane _ _
            (print-Sane _ _ (print-Sane _ _ (print-Sane _ _ (print-Sane _ p (inr runs))))))),
    fib_main-Completes _ (fib 8 8) 21 21 p (fib-pair 8 7 (omega arith)) runs,
    fib_main-Completes _ (fib 11 11) 89 89 p (fib-pair 11 10 (omega arith)) runs,
  )
