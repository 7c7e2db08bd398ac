-- ===== src/Base/Strings.antt =====
-- The parts of std::string's interface that the plugins use, over bytes.
use Prim.Native.Nat.{ℕ, zero, suc, ◌≤◌}
use mathlib.Core.Path.{◌≡◌, refl, ap, ◌∙◌, sym}
use mathlib.Core.Logic.{◌⊎◌, inl, inr}
use mathlib.Core.Bool.{Bool, true, false, ◌&&◌, ◌||◌}
use mathlib.Core.List.{[], ◌∷◌, ◌++◌, append_assoc, append-nil}
use mathlib.Core.Option.{Option, none, some}
use native.Mathlib.Omega.{arith}
use graftcode_extensions.Base.Tests.{◌==◌, if◌then◌else◌, Bool-cases}
use graftcode_extensions.Base.Lists.{length, is_empty, All, All-append, length-append}
use graftcode_extensions.Base.Text.{Bytes}

-- Whether `s` begins with `prefix`: `s.rfind(prefix, 0) == 0`.
unfoldable pub starts_with : Bytes → Bytes → Bool
starts_with [] s = true
starts_with (p ∷ ps) [] = false
starts_with (p ∷ ps) (c ∷ s) = p == c && starts_with ps s

-- `s.find(part) != npos`.
unfoldable pub find_in : Bytes → Bytes → Bool
unfolding starts_with
find_in part [] = starts_with part []
find_in part (c ∷ s) = starts_with part (c ∷ s) || find_in part s

unfoldable pub back : Bytes → Option ℕ
back [] = none
back (c ∷ []) = some c
back (c ∷ d ∷ s) = back (d ∷ s)

unfoldable pub pop_back : Bytes → Bytes
pop_back [] = []
pop_back (c ∷ []) = []
pop_back (c ∷ d ∷ s) = c ∷ pop_back (d ∷ s)

-- `while (!s.empty() && test(s.back())) s.pop_back();` on fuel.
pop_fuel : ℕ → (ℕ → Bool) → Bytes → Bytes
pop_fuel zero test s = s
pop_fuel (suc fuel) test s = elim (back s) [
  | none ↦ s
  | some c ↦ elim (test c) [ true ↦ pop_fuel fuel test (pop_back s) | false ↦ s ]
]

-- Every round removes one byte.
unfoldable pub pop_while : (ℕ → Bool) → Bytes → Bytes
unfolding pop_fuel back pop_back
pop_while test s = pop_fuel (length s) test s

-- `while (i < s.size() && test(s[i])) ++i; s.erase(0, i);`
unfoldable pub skip_while : (ℕ → Bool) → Bytes → Bytes
skip_while test [] = []
skip_while test (c ∷ s) = if test c then skip_while test s else c ∷ s

-- `s.erase(s.find(c))` where `c` occurs, and `s` itself where it does not.
unfoldable pub before_byte : ℕ → Bytes → Bytes
before_byte b [] = []
before_byte b (c ∷ s) = if c == b then [] else c ∷ before_byte b s

-- `c_str()`, or `what()`, read up to its NUL.
unfoldable pub c_str : Bytes → Bytes
unfolding before_byte
c_str = before_byte 0

pub back-concat : (s : Bytes) (c : ℕ) → back (s ++ c ∷ []) ≡ some c
unfolding back
back-concat [] c = refl
back-concat (d ∷ []) c = refl
back-concat (d ∷ e ∷ s) c = back-concat (e ∷ s) c

pub pop_back-concat : (s : Bytes) (c : ℕ) → pop_back (s ++ c ∷ []) ≡ s
unfolding pop_back
pop_back-concat [] c = refl
pop_back-concat (d ∷ []) c = refl
pop_back-concat (d ∷ e ∷ s) c = ap (◌∷◌ d) (pop_back-concat (e ∷ s) c)

-- A string is empty or ends in a byte.
pub Bytes-last : (s : Bytes) → (s ≡ []) ⊎ ((t : Bytes) × (c : ℕ) × (s ≡ t ++ c ∷ []))
Bytes-last [] = inl refl
Bytes-last (c ∷ s) = elim (Bytes-last s) [
  | inl e ↦ inr ([], c, ap (◌∷◌ c) e)
  | inr (t, d, e) ↦ inr (c ∷ t, d, ap (◌∷◌ c) e)
]

-- What the loop has removed, and where it stops.
pub record Popped (test : ℕ → Bool) (s r : Bytes) : Type 0 where
  pub removed : Bytes
  pub splits : s ≡ r ++ removed
  pub matched : All (λ c. test c ≡ true) removed
  pub stops : (c : ℕ) → back r ≡ some c → test c ≡ false

pop_fuel_more :
    (fuel : ℕ) (test : ℕ → Bool) (s : Bytes) (c : ℕ)
    → back s ≡ some c
    → test c ≡ true
    → pop_fuel (suc fuel) test s ≡ pop_fuel fuel test (pop_back s)
unfolding pop_fuel
pop_fuel_more fuel test s c h y = ground arith

pop_fuel_stop :
    (fuel : ℕ) (test : ℕ → Bool) (s : Bytes) (c : ℕ)
    → back s ≡ some c
    → test c ≡ false
    → pop_fuel (suc fuel) test s ≡ s
unfolding pop_fuel
pop_fuel_stop fuel test s c h n = ground arith

pop_fuel-Popped :
    (fuel : ℕ) (test : ℕ → Bool) (s : Bytes)
    → length s ≡ fuel
    → Popped test s (pop_fuel fuel test s)
unfolding pop_fuel
pop_fuel-Popped zero test [] h = record {
  removed = [];
  splits = refl;
  matched = tt;
  stops = λ c e. unfold back in cc;
}
pop_fuel-Popped zero test (c ∷ s) h = absurd (omega arith)
pop_fuel-Popped (suc fuel) test s h = elim (Bytes-last s) [
  | inl e ↦ absurd (omega (arith, ap length e))
  | inr (t, c, e) ↦
      let here : back s ≡ some c = ap back e ∙ back-concat t c in
      let tail : pop_back s ≡ t = ap pop_back e ∙ pop_back-concat t c in
      elim (Bool-cases (test c)) [
        | inl y ↦
            let short : length t ≡ fuel = omega (arith, ap length e, length-append t (c ∷ [])) in
            let p = pop_fuel-Popped fuel test t short in
            rw (pop_fuel_more fuel test s c here y ∙ ap (pop_fuel fuel test) tail) (record {
              removed = p.removed ++ c ∷ [];
              splits =
                  e ∙ ap (λ (u : Bytes). u ++ c ∷ []) p.splits ∙ append_assoc _ p.removed (c ∷ []);
              matched = All-append _ p.removed (c ∷ []) p.matched (y, tt);
              stops = p.stops;
            })
        | inr n ↦
            rw (pop_fuel_stop fuel test s c here n) (record {
              removed = [];
              splits = sym (append-nil s);
              matched = tt;
              stops = λ d g. cc;
            })
      ]
]

pub pop_while-Popped : (test : ℕ → Bool) (s : Bytes) → Popped test s (pop_while test s)
unfolding pop_while
pop_while-Popped test s = pop_fuel-Popped (length s) test s refl

-- The same result by recursion from the front.
trim_back : (ℕ → Bool) → Bytes → Bytes
trim_back test [] = []
trim_back test (c ∷ s) =
    let rest = trim_back test s in if is_empty rest && test c then [] else c ∷ rest

trim_back-matched :
    (test : ℕ → Bool) (s : Bytes) → All (λ c. test c ≡ true) s → trim_back test s ≡ []
unfolding trim_back
trim_back-matched test [] a = refl
trim_back-matched test (c ∷ s) a = ground (arith, trim_back-matched test s a.1)

trim_back-append :
    (test : ℕ → Bool) (r s : Bytes)
    → All (λ c. test c ≡ true) s
    → trim_back test (r ++ s) ≡ trim_back test r
unfolding trim_back
trim_back-append test [] s a = trim_back-matched test s a
trim_back-append test (c ∷ r) s a = ground (arith, trim_back-append test r s a)

trim_back_self :
    (test : ℕ → Bool) (r : Bytes)
    → ((c : ℕ) → back r ≡ some c → test c ≡ false)
    → trim_back test r ≡ r
unfolding trim_back back
trim_back_self test [] h = refl
trim_back_self test (c ∷ []) h = ground (arith, h c)
trim_back_self test (c ∷ d ∷ r) h = ground (arith, trim_back_self test (d ∷ r) h)

pop_while-trim_back : (test : ℕ → Bool) (s : Bytes) → pop_while test s ≡ trim_back test s
pop_while-trim_back test s =
    let p = pop_while-Popped test s in
    sym (trim_back_self test _ p.stops)
    ∙ sym (trim_back-append test (pop_while test s) p.removed p.matched)
    ∙ ap (trim_back test) (sym p.splits)

-- The loop removes just a tail of matching bytes behind one that does not match.
pub pop_while-append :
    (test : ℕ → Bool) (r s : Bytes) (c : ℕ)
    → back r ≡ some c
    → test c ≡ false
    → All (λ c. test c ≡ true) s
    → pop_while test (r ++ s) ≡ r
pop_while-append test r s c h n a =
    pop_while-trim_back test (r ++ s)
    ∙ trim_back-append test r s a
    ∙ trim_back_self test r (λ d g. cc)

pub before_byte-append :
    (b : ℕ) (r s : Bytes)
    → All (λ c. (c == b) ≡ false) r
    → (s ≡ []) ⊎ ((t : Bytes) × (s ≡ b ∷ t))
    → before_byte b (r ++ s) ≡ r
unfolding before_byte
before_byte-append b [] s a (inl e) = rw e refl
before_byte-append b [] s a (inr (t, e)) = rw e (ground arith)
before_byte-append b (c ∷ r) s a h = ground (arith, before_byte-append b r s a.1 h)

-- The part before the first `b`, and what begins there.
pub before_byte-splits :
    (b : ℕ) (s : Bytes)
    → (t : Bytes) × (s ≡ before_byte b s ++ t)
      × All (λ c. (c == b) ≡ false) (before_byte b s)
      × ((t ≡ []) ⊎ ((u : Bytes) × (t ≡ b ∷ u)))
unfolding before_byte
before_byte-splits b [] = ([], refl, tt, inl refl)
before_byte-splits b (c ∷ s) = elim (Bool-cases (c == b)) [
  | inl y ↦ rw y (c ∷ s, refl, tt, inr (s, ground arith))
  | inr n ↦ let (t, e, a, h) = before_byte-splits b s in rw n (t, ap (◌∷◌ c) e, (n, a), h)
]

length-before_byte : (b : ℕ) (s : Bytes) → length (before_byte b s) ≤ length s
unfolding before_byte
length-before_byte b [] = omega arith
length-before_byte b (c ∷ s) = ground (arith, length-before_byte b s)

pub length-c_str : (s : Bytes) → length (c_str s) ≤ length s
unfolding c_str
length-c_str s = length-before_byte 0 s
