-- ===== src/Base/Numeral.antt =====
-- Go's strconv.Atoi on texts.
use Prim.Native.Nat.{ℕ, ◌+◌, ◌-◌, ◌*◌, ◌^◌}
use mathlib.Core.Bool.{◌&&◌, ◌||◌}
use mathlib.Core.Option.{Option, none, some}
use mathlib.Core.List.{[], ◌∷◌}
use swarm_sentinel.Base.Tests.{if◌then◌else◌, ltb, leb}
use swarm_sentinel.Base.Lists.{is_nil}
use swarm_sentinel.Base.Equality.{◌==◌, nat_eq}
use swarm_sentinel.Base.Int.{ℤ, pos, sub_ℕ}
use swarm_sentinel.Base.Bytes.{Text}

-- The digits of a number, after those that make up `n`.
unfoldable pub digits_value : Text → ℕ → Option ℕ
digits_value [] n = some n
digits_value (c ∷ s) n =
    let rest = digits_value s (n * 10 + (c - b'0')) in
    if leb b'0' c && leb c b'9' then rest else none

-- strconv.Atoi: a sign, digits, and the range of an int.
unfoldable pub atoi : Text → Option ℤ
unfolding digits_value
atoi [] = none
atoi (c ∷ s) =
    let signed = c == b'-' || c == b'+' in
    let digits = if signed then s else c ∷ s in
    if is_nil digits then none else (elim (digits_value digits 0) [
      | none ↦ none
      | some n ↦
          if c == b'-'
          then if leb n (2 ^ 63) then some (sub_ℕ 0 n) else none
          else if ltb n (2 ^ 63)
          then some (pos n)
          else none
    ])
