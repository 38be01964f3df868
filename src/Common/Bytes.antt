-- ===== src/Common/Bytes.antt =====
-- `to_le_bytes` and `from_le_bytes`: byte strings as little-endian numbers.
use Prim.Native.Nat.{ℕ, zero, suc, ◌+◌, ◌*◌, ◌/◌, ◌%◌, ◌^◌, ◌<◌}
use mathlib.Core.Path.{◌≡◌, refl, sym, ap, ◌∙◌}
use mathlib.Core.List.{List, [], ◌∷◌, ◌++◌}
use native.Mathlib.Omega.{arith}
use native.Mathlib.Nat.{pow-suc, zero-mod, zero-div, mod-lt, div-add-mod}
use zrip.Common.Powers.{pow-add, pow_256, pow_pos, div_mod_unique, div-div_pow}
use zrip.Common.Lists.{All, length, take, drop}

abbrev pub IsByte : ℕ → Type 0
IsByte b = b < 256

abbrev pub IsBytes : List ℕ → Type 0
IsBytes = All IsByte

abbrev pub from_le_bytes : List ℕ → ℕ
from_le_bytes [] = 0
from_le_bytes (b ∷ bs) = b + 256 * from_le_bytes bs

abbrev pub to_le_bytes : ℕ → ℕ → List ℕ
to_le_bytes zero v = []
to_le_bytes (suc n) v = v % 256 ∷ to_le_bytes n (v / 256)

pub length-to_le_bytes : (n v : ℕ) → length (to_le_bytes n v) ≡ n
length-to_le_bytes zero v = refl
length-to_le_bytes (suc n) v = ap suc (length-to_le_bytes n (v / 256))

pub to_le_bytes-IsBytes : (n v : ℕ) → IsBytes (to_le_bytes n v)
to_le_bytes-IsBytes zero v = tt
to_le_bytes-IsBytes (suc n) v = (omega arith, to_le_bytes-IsBytes n (v / 256))

pub from_le_bytes-to_le_bytes : (n v : ℕ) → v < 256 ^ n → from_le_bytes (to_le_bytes n v) ≡ v
from_le_bytes-to_le_bytes zero v h = omega arith
from_le_bytes-to_le_bytes (suc n) v h =
    omega (arith, from_le_bytes-to_le_bytes n (v / 256) (omega (arith, pow-suc 256 n)))

pub from_le_bytes-lt : (bs : List ℕ) → IsBytes bs → from_le_bytes bs < 256 ^ length bs
from_le_bytes-lt [] h = omega arith
from_le_bytes-lt (b ∷ bs) (hb, hs) = omega (arith, from_le_bytes-lt bs hs, pow-suc 256 (length bs))

pub from_le_bytes-append :
    (xs ys : List ℕ)
    → from_le_bytes (xs ++ ys) ≡ from_le_bytes xs + 2 ^ (8 * length xs) * from_le_bytes ys
from_le_bytes-append [] ys = omega arith
from_le_bytes-append (x ∷ xs) ys = omega (
  arith,
  from_le_bytes-append xs ys,
  ap (λ (t : ℕ). 2 ^ t * from_le_bytes ys)
      (let e : 8 * suc (length xs) ≡ 8 + 8 * length xs = omega arith in e),
  ap (λ (t : ℕ). t * from_le_bytes ys) (pow-add 8 (8 * length xs)),
)

pub from_le_bytes-lt_pow : (bs : List ℕ) → IsBytes bs → from_le_bytes bs < 2 ^ (8 * length bs)
from_le_bytes-lt_pow bs h = omega (arith, from_le_bytes-lt bs h, pow_256 (length bs))

-- A prefix is a remainder, a suffix a quotient.
pub from_le_bytes-take :
    (k : ℕ) (xs : List ℕ) → IsBytes xs → from_le_bytes (take k xs) ≡ from_le_bytes xs % 2 ^ (8 * k)
from_le_bytes-take zero xs h = omega arith
from_le_bytes-take (suc k) [] h = sym (zero-mod (2 ^ (8 * suc k)))
from_le_bytes-take (suc k) (x ∷ xs) (hx, hs) =
    let p : ℕ = 2 ^ (8 * k) in
    let v : ℕ = from_le_bytes xs in
    let e : 2 ^ (8 * suc k) ≡ 256 * p =
      ap (λ (t : ℕ). 2 ^ t) (let f : 8 * suc k ≡ 8 + 8 * k = omega arith in f)
      ∙ pow-add 8 (8 * k) in
    let lt : x + 256 * (v % p) < 256 * p = omega (arith, mod-lt v (pow_pos (8 * k))) in
    let split : x + 256 * v ≡ 256 * p * (v / p) + (x + 256 * (v % p)) =
      omega (arith, div-add-mod v p) in
    omega (arith, from_le_bytes-take k xs hs)
    ∙ sym ((div_mod_unique (256 * p) (v / p) (x + 256 * (v % p)) (x + 256 * v) lt split).1)
    ∙ ap (λ (t : ℕ). (x + 256 * v) % t) (sym e)

pub from_le_bytes-drop :
    (k : ℕ) (xs : List ℕ) → IsBytes xs → from_le_bytes (drop k xs) ≡ from_le_bytes xs / 2 ^ (8 * k)
from_le_bytes-drop zero xs h = omega arith
from_le_bytes-drop (suc k) [] h = sym (zero-div (2 ^ (8 * suc k)))
from_le_bytes-drop (suc k) (x ∷ xs) (hx, hs) =
    from_le_bytes-drop k xs hs
    ∙ ap (λ (t : ℕ). t / 2 ^ (8 * k))
        (let e : from_le_bytes xs ≡ (x + 256 * from_le_bytes xs) / 2 ^ 8 = omega arith in e)
    ∙ div-div_pow 8 (8 * k) (x + 256 * from_le_bytes xs)
    ∙ ap (λ (t : ℕ). (x + 256 * from_le_bytes xs) / 2 ^ t)
        (let e : 8 + 8 * k ≡ 8 * suc k = omega arith in e)
