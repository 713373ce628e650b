-- ===== src/Base/Bytes.antt =====
-- Go strings as lists of bytes, and what the source uses of package strings.
use Prim.Native.Nat.{ℕ, zero, suc, ◌+◌, ◌/◌, ◌%◌, ◌<◌, compare, Ordering}
use Prim.Native.Char.{code}
use Prim.Native.String.{String}
use mathlib.Core.Path.{◌≡◌, refl}
use mathlib.Core.Bool.{Bool, true, false, ◌&&◌, ◌||◌}
use mathlib.Core.Option
use mathlib.Core.Option.{Option, none, some}
use mathlib.Core.List.{List, [], ◌∷◌, ◌++◌, map, reverse, reverse_aux, reverse-cons}
use native.Mathlib.Decide.{ℕ_discrete}
use native.Mathlib.Omega.{arith}
use swarm_sentinel.Base.Equality.{Eq}
use swarm_sentinel.Base.Tests.{if◌then◌else◌, ltb, leb}
use swarm_sentinel.Base.Lists.{length, drop, is_nil}
use swarm_sentinel.Base.Int.{ℤ, pos, negsuc}

abbrev pub Text : Type 0
Text = List ℕ

-- The bytes of an ASCII literal.
abbrev pub text : String → Text
text String.[] = []
text (String.◌∷◌ c s) = code c ∷ text s

text_dec : Discrete Text
unfolding ℕ_discrete
text_dec = hlevel ℕ_discrete

instance unfoldable pub text_eq : Eq Text
unfolding text_dec
text_eq = record { dec = text_dec }

-- `strings.HasPrefix(s, p)`
unfoldable pub has_prefix : Text → Text → Bool
has_prefix s [] = true
has_prefix [] (x ∷ p) = false
has_prefix (y ∷ s) (x ∷ p) =
    let rest = has_prefix s p in elim (compare x y) [ Ordering.eq ↦ rest | _ ↦ false ]

-- `strings.Index(s, t)`, with `none` for -1
unfoldable pub index_of : Text → Text → Option ℕ
unfolding has_prefix
index_of [] t = if has_prefix [] t then some 0 else none
index_of (c ∷ s) t =
    let rest = index_of s t in if has_prefix (c ∷ s) t then some 0 else Option.map suc rest

-- `strings.Contains(s, t)`
unfoldable pub contains_text : Text → Text → Bool
unfolding index_of
contains_text s t = elim (index_of s t) [ none ↦ false | some _ ↦ true ]

-- `strings.TrimPrefix(s, p)`
unfoldable pub trim_prefix : Text → Text → Text
unfolding has_prefix
trim_prefix s p = if has_prefix s p then drop (length p) s else s

lower : ℕ → ℕ
lower c = if leb b'A' c && leb c b'Z' then c + 32 else c

-- `strings.ToLower(s)` on ASCII; other bytes stay.
unfoldable pub to_lower : Text → Text
unfolding lower
to_lower = map lower

is_space : ℕ → Bool
is_space c = (leb 9 c && leb c 13) || leb c 32 && leb 32 c

trim_left : Text → Text
trim_left [] = []
trim_left (c ∷ s) = let rest = trim_left s in if is_space c then rest else c ∷ s

-- `strings.TrimSpace(s)` on ASCII white space
unfoldable pub trim_space : Text → Text
unfolding trim_left is_space
trim_space s = reverse (trim_left (reverse (trim_left s)))

-- The decimal digits of a number, the fuel being more than its digits.
decimal_fuel : ℕ → ℕ → Text
decimal_fuel zero n = []
decimal_fuel (suc f) n =
    let front = decimal_fuel f (n / 10) in
    if ltb n 10 then (b'0' + n) ∷ [] else front ++ ((b'0' + n % 10) ∷ [])

-- `%d`
unfoldable pub decimal : ℤ → Text
unfolding decimal_fuel
decimal (pos n) = decimal_fuel (n + 1) n
decimal (negsuc n) = b'-' ∷ decimal_fuel (n + 2) (n + 1)

-- `strings.Join(parts, sep)`
unfoldable pub join : List Text → Text → Text
join [] sep = []
join (t ∷ []) sep = t
join (t ∷ u ∷ ts) sep = t ++ (sep ++ join (u ∷ ts) sep)

-- The texts in a row, for a format and its arguments.
unfoldable pub concat_texts : List Text → Text
concat_texts [] = []
concat_texts (t ∷ ts) = t ++ concat_texts ts

pub has_prefix-append : (p s : Text) → has_prefix (p ++ s) p ≡ true
unfolding has_prefix
has_prefix-append [] s = refl
has_prefix-append (x ∷ p) s = ground (arith, has_prefix-append p s)

pub has_prefix-take : (s p : Text) → has_prefix s p ≡ true → s ≡ p ++ drop (length p) s
unfolding has_prefix
has_prefix-take s [] h = refl
has_prefix-take [] (x ∷ p) h = cc
has_prefix-take (y ∷ s) (x ∷ p) h = ground (arith, has_prefix-take s p)

pub drop-append {ℓ} : {A : Type ℓ} (p s : List A) → drop (length p) (p ++ s) ≡ s
drop-append [] s = refl
drop-append (x ∷ p) s = drop-append p s

trim_left-last :
    (s : Text) (c : ℕ) → is_space c ≡ false → is_nil (trim_left (s ++ (c ∷ []))) ≡ false
unfolding trim_left
trim_left-last [] c visible = ground arith
trim_left-last (x ∷ s) c visible = ground (arith, trim_left-last s c visible)

reverse_aux-not_nil {ℓ} :
    {A : Type ℓ} (s r : List A) → is_nil r ≡ false → is_nil (reverse_aux s r) ≡ false
reverse_aux-not_nil [] r some_r = some_r
reverse_aux-not_nil (x ∷ s) r some_r = reverse_aux-not_nil s (x ∷ r) refl

reverse-not_nil {ℓ} : {A : Type ℓ} (s : List A) → is_nil s ≡ false → is_nil (reverse s) ≡ false
reverse-not_nil [] some_s = some_s
reverse-not_nil (x ∷ s) some_s = reverse_aux-not_nil s (x ∷ []) refl

-- A text that starts with something visible is not trimmed away.
pub trim_space-visible : (c : ℕ) (s : Text) → 32 < c → is_nil (trim_space (c ∷ s)) ≡ false
unfolding trim_space trim_left is_space
trim_space-visible c s visible =
    let shown : is_space c ≡ false = ground arith in
    let kept : trim_left (c ∷ s) ≡ c ∷ s = ground (arith, shown) in
    rw (kept, reverse-cons c s)
      (reverse-not_nil (trim_left (reverse s ++ (c ∷ []))) (trim_left-last (reverse s) c shown))
