-- ===== src/Programs/Ends.antt =====
-- How the programs of Userland/SampleCodeModule/apps.c and builtin.c end.
use bit_shell_os.Base.{
  ℕ, zero, suc, Bool, true, false, List, [], ◌∷◌, if◌then◌else◌, Option-cases, inl, inr, ◌%◌, ◌^◌,
  length,
}
use bit_shell_os.Text.{atoi}
use bit_shell_os.Programs.{
  Program, exits, returns, call, Answer, printf, put_char, print_int, print_args, print_lines, p1,
  p2, p3, p4, p5, loop, loop_turns, help_lines, help, clear, ps, sem, pipe, mem,
}

-- Whatever the calls answer, the program comes to this end after finitely many of them.
pub data Ends (end : Program) : Program → Type 0 where
  at_end : Ends end end
  behind :
      (c : _) (next : Answer → Program)
      → ((a : Answer) → Ends end (next a))
      → Ends end (call c next)

module _ {end next : Program} (h : Ends end next) where
  printf-Ends : (text : List ℕ) → Ends end (printf text next)
  unfolding printf
  printf-Ends text = behind _ _ (λ a. h)

  put_char-Ends : (c : ℕ) → Ends end (put_char c next)
  unfolding put_char
  put_char-Ends c = behind _ _ (λ a. h)

  print_int-Ends : (n : ℕ) → Ends end (print_int n next)
  unfolding print_int
  print_int-Ends n = behind _ _ (λ a. h)

  print_args-Ends : (argv : List (List ℕ)) → Ends end (print_args argv next)
  unfolding print_args printf
  print_args-Ends [] = h
  print_args-Ends (a ∷ more) = behind _ _ (λ x. behind _ _ (λ y. print_args-Ends more))

  print_lines-Ends : (lines : List (List ℕ)) → Ends end (print_lines lines next)
  unfolding print_lines printf
  print_lines-Ends [] = h
  print_lines-Ends (l ∷ ls) = behind _ _ (λ x. print_lines-Ends ls)

  loop_turns-Ends : (delay turns : ℕ) → Ends end (loop_turns delay turns next)
  unfolding loop_turns printf print_int put_char
  loop_turns-Ends delay zero = h
  loop_turns-Ends delay (suc turns) = behind _ _ (λ a.
      behind _ _
        (λ b. behind _ _ (λ c. behind _ _ (λ d. behind _ _ (λ e. loop_turns-Ends delay turns)))))

if-Ends : {end p q : Program} (b : Bool) → Ends end p → Ends end q → Ends end (if b then p else q)
if-Ends true h k = h
if-Ends false h k = k

p3-Ends : Ends exits p3
unfolding p3 printf
p3-Ends = behind _ _ (λ fd. behind _ _ (λ opened. if-Ends _ (behind _ _ (λ a. at_end)) (
    behind _ _ (λ a. behind _ _ (λ read.
      behind _ _
        (λ b. if-Ends _ (behind _ _ (λ x. behind _ _ (λ y. behind _ _ (λ z. at_end)))) at_end))))))

-- Each process of the shell makes finitely many calls, whatever they answer, and then ends in
-- `sys_exit`: it never returns to the bottom of its stack. For `loop`, which goes on for ever, this
-- is said of any number of its turns with such an end behind them.
pub processes_exit :
    (argv : List (List ℕ)) (argument : List ℕ) (turns : ℕ) (rest : Program)
    → Ends exits rest
    → Ends exits (p1 argv)
      × Ends exits p2
      × Ends exits p3
      × Ends exits p4
      × Ends exits p5
      × Ends exits (loop argument turns rest)
unfolding p1 p2 p4 p5 loop printf
processes_exit argv argument turns rest h = (
  behind _ _ (λ a.
      print_int-Ends (behind _ _ (λ b. print_args-Ends (behind _ _ (λ c. at_end)) argv))
        (length argv)),
  behind _ _ (λ fd. behind _ _ (λ a. behind _ _ (λ b. behind _ _ (λ c. at_end)))),
  p3-Ends,
  behind _ _ (λ sem. behind _ _ (λ a. behind _ _ (λ b. behind _ _ (λ c. at_end)))),
  behind _ _ (λ sem. behind _ _ (λ a. behind _ _ (λ b. at_end))),
  loop_ends,
)
  where
    loop_ends : Ends exits (loop argument turns rest)
    loop_ends = elim (Option-cases (atoi argument)) [
      | inl invalid ↦ rw (invalid, loop) (behind _ _ (λ a. at_end))
      | inr (delay, valid) ↦ rw (valid, loop) (loop_turns-Ends h (delay % 2 ^ 32) turns)
    ]

-- The builtins run in the shell's own process and return to it.
pub builtins_return :
    Ends returns help
    × Ends returns clear
    × Ends returns ps
    × Ends returns sem
    × Ends returns pipe
    × Ends returns mem
unfolding help clear ps sem pipe mem printf
builtins_return = (
  print_lines-Ends at_end help_lines,
  behind _ _ (λ a. at_end),
  behind _ _ (λ a. at_end),
  behind _ _ (λ a. at_end),
  behind _ _ (λ a. at_end),
  behind _ _ (λ status. behind _ _ (λ a.
      print_int-Ends
        (behind _ _ (λ b. behind _ _ (λ c.
          print_int-Ends
            (behind _ _ (λ d. behind _ _ (λ e. print_int-Ends (behind _ _ (λ f. at_end)) _))) _)))
        _)),
)
