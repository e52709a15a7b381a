-- ===== src/Candidates.antt =====
-- The two loops of `switchProcess` in Kernel/utils/scheduler.c that look for the next process, and the
-- choice between what they find. `none` is a read through the null pointer.
use bit_shell_os.Base.{
  ℕ, Bool, not, ◌&&◌, ◌||◌, Option, none, some, List, [], ◌∷◌, ltb, ◌==◌, if◌then◌else◌, ◌>>=◌,
}
use bit_shell_os.Process.{Pcb, is_ready}

-- One turn of the loop over the nodes behind the current one.
unfoldable pub better_next : Pcb → Pcb → Pcb
better_next next a =
    let kept = if is_ready next then next else a in
    if ltb a.aux_priority kept.aux_priority && is_ready a then a else kept

unfoldable pub scan_next : Pcb → List Pcb → Pcb
unfolding better_next
scan_next next [] = next
scan_next next (a ∷ more) = scan_next (better_next next a) more

unfoldable pub next_process : List Pcb → Option Pcb
unfolding scan_next
next_process [] = none
next_process (p ∷ ps) = some (scan_next p (p ∷ ps))

-- One turn of the loop over the nodes before the current one. Both pointers are the nodes from
-- there on; `a` is the node under `auxFirstMinReadyProcess`.
unfoldable pub better_first : Bool → List Pcb → Pcb → List Pcb → Option (List Pcb)
better_first fg [] a more = none
better_first fg (f ∷ fs) a more =
    if a.pid == 1 && fg
    then some (if f.pid == 1 then fs else f ∷ fs)
    else (let switch = not (is_ready f) && (not fg || not (a.pid == 1)) in
        let kept = if switch then a else f in
        some (
          if ltb a.aux_priority kept.aux_priority && is_ready kept
          then a ∷ more
          else (if switch then a ∷ more else f ∷ fs)))

unfoldable pub scan_first : Bool → ℕ → List Pcb → List Pcb → Option (List Pcb)
unfolding better_first
scan_first fg cur first [] = some first
scan_first fg cur first (a ∷ more) =
    let rest = (better_first fg first a more >>= λ f. scan_first fg cur f more) in
    if a.pid == cur then some first else rest

-- What the code makes of the result of the loop; `none` inside is the null pointer.
unfoldable pub settle_first : Bool → Pcb → List Pcb → Option (Option Pcb)
settle_first fg cur [] = none
settle_first fg cur (f ∷ fs) =
    let kept = if not (is_ready f) && is_ready cur && not (cur.pid == 0) then cur else f in
    some (if fg && kept.pid == 1 then none else some kept)

-- The choice between the two candidates; `none` is the dummy.
unfoldable pub choose : Option Pcb → Option Pcb → Option Pcb
choose none none = none
choose none (some f) = if is_ready f then some f else none
choose (some n) none = if is_ready n then some n else none
choose (some n) (some f) =
    if is_ready n
    then (if is_ready f
        then (if ltb f.aux_priority n.aux_priority then some f else some n)
        else some n)
    else (if is_ready f then some f else none)
