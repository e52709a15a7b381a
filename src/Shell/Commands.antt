-- ===== src/Shell/Commands.antt =====
-- What a command line starts: `executeCommand` and `managePipe` of Userland/SampleCodeModule/apps.c, and
-- `createProcess` of libc.c with its other side in Kernel/utils/scheduler.c.
use bit_shell_os.Base.{
  ℕ, ◌≡◌, refl, ◌⊎◌, inl, inr, true, false, some, List, [], ◌∷◌, ◌++◌, ◌==◌, if◌then◌else◌, All,
  Bool-cases,
}
use bit_shell_os.Text.{compare_strings, split_args}
use bit_shell_os.Text.Compare.{IsText, split_args-join_args}
use bit_shell_os.Shell.{Launch, create_process, init, last}

abbrev pub bar : List ℕ
bar = b'|' ∷ []

-- No argument but the last is a bar.
abbrev pub NoBar : List (List ℕ) → Type 0
NoBar = All (λ x. compare_strings x bar ≡ 0)

-- The arguments that reach the kernel: all, or all but a final "&" of a process that reads no pipe.
abbrev pub visible : Launch → List (List ℕ)
visible l =
    if l.reads_pipe
    then l.args
    else (if compare_strings (b'&' ∷ []) (last l.args) == 0 then l.args else init l.args)

init-All : (P : List ℕ → Type 0) (xs : List (List ℕ)) → All P xs → All P (init xs)
init-All P [] h = tt
init-All P (x ∷ []) h = tt
init-All P (x ∷ y ∷ ys) h = (h.0, init-All P (y ∷ ys) h.1)

-- What `createProcess` asks of the kernel for a process: the kernel splits the area into the arguments,
-- without a final "&"; and the priority is 1, the foreground's, for a process that neither reads a pipe
-- nor ends in "&", and 3 for any other.
pub split_args-create_process :
    (l : Launch) (more : List ℕ)
    → All IsText l.args
    → let r = create_process l in
      (split_args r.argc (r.area ++ more) ≡ some (visible l))
      × (((r.priority ≡ 1) × (l.reads_pipe ≡ false) × (visible l ≡ l.args))
          ⊎ ((r.priority ≡ 3) × ((l.reads_pipe ≡ true) ⊎ (visible l ≡ init l.args))))
unfolding create_process
split_args-create_process l more texts = elim (Bool-cases l.reads_pipe) [
  | inl reads ↦ rw reads (split_args-join_args l.args more texts, inr (refl, inl refl))
  | inr own ↦ elim (Bool-cases (compare_strings (b'&' ∷ []) (last l.args) == 0)) [
    | inl fore ↦ rw (own, fore) (split_args-join_args l.args more texts, inl (refl, refl, refl))
    | inr back ↦
        rw (own, back)
          (
            split_args-join_args (init l.args) more (init-All IsText l.args texts),
            inr (refl, inr refl),
          )
  ]
]
