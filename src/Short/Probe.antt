-- ===== src/Short/Probe.antt =====
-- Probing for the interrupt line (short/short.c, `short_kernelprobe`, `short_probing`, `short_selfprobe`).
use device_drivers_lab_proje.Prelude.{ℕ, zero, suc, List, [], ◌∷◌, if◌then◌else◌, ◌||◌}
use device_drivers_lab_proje.Prelude.Int.{ℤ, pos, negsuc, is_negative, eqb_ℤ}

-- `short_probing`, for an interrupt of the line `irq`, where `found` is `short_irq`.
unfoldable pub short_probing : ℕ → ℤ → ℤ
short_probing irq found =
    let first = if eqb_ℤ found (pos 0) then pos irq else found in
    if eqb_ℤ first (pos irq) then first else negated irq
  where
    negated : ℕ → ℤ
    negated zero = pos 0
    negated (suc n) = negsuc n

-- One round of `short_selfprobe`: the lines that interrupt, in order.
unfoldable pub probe_round : List ℕ → ℤ → ℤ
unfolding short_probing
probe_round [] found = found
probe_round (irq ∷ irqs) found = probe_round irqs (short_probing irq found)

-- The loop of `short_selfprobe`, with `more` rounds allowed after the first: the lines of each round. A round
-- that the list does not have has no interrupt.
unfoldable pub selfprobe_loop : ℕ → List (List ℕ) → ℤ
unfolding probe_round
selfprobe_loop zero [] = pos 0
selfprobe_loop zero (irqs ∷ rest) = probe_round irqs (pos 0)
selfprobe_loop (suc more) [] = pos 0
selfprobe_loop (suc more) (irqs ∷ rest) =
    let found = probe_round irqs (pos 0) in
    let later = selfprobe_loop more rest in
    if is_negative found || eqb_ℤ found (pos 0) then later else found

-- The loop of `short_kernelprobe`: what `probe_irq_off` gives in each round.
unfoldable pub kernelprobe_loop : ℕ → List ℤ → ℤ
kernelprobe_loop zero [] = negsuc 0
kernelprobe_loop zero (got ∷ rest) = if eqb_ℤ got (pos 0) then negsuc 0 else got
kernelprobe_loop (suc more) [] = negsuc 0
kernelprobe_loop (suc more) (got ∷ rest) =
    let found = if eqb_ℤ got (pos 0) then negsuc 0 else got in
    let later = kernelprobe_loop more rest in if is_negative found then later else found

-- Both give up after five more rounds.
abbrev short_selfprobe : List (List ℕ) → ℤ
short_selfprobe = selfprobe_loop 5

abbrev short_kernelprobe : List ℤ → ℤ
short_kernelprobe = kernelprobe_loop 5
