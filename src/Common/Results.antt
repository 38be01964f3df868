-- ===== src/Common/Results.antt =====
-- crates/core/src/error.rs: the error values, and a fallible result with `do`.
-- `Display` and the conversions between the error enums are not modelled.
use Prim.Native.Nat.{ℕ}
use mathlib.Core.Path.{◌≡◌, refl, ap}
use native.Mathlib.Omega.{arith}

pub data DecompressError : Type 0 where
  bad_magic bad_frame_header bad_block_header bad_block_type : DecompressError
  corrupt_literals corrupt_sequences block_too_large invalid_offset : DecompressError
  frame_size_mismatch bad_fse_table bad_huffman_weights bad_huffman_stream : DecompressError
  window_too_large : ℕ → ℕ → DecompressError
  output_too_small : DecompressError
  checksum_mismatch : ℕ → ℕ → DecompressError
  dict_mismatch : ℕ → ℕ → DecompressError
  dict_required invalid_dictionary input_exhausted extra_bytes : DecompressError

pub data Result {ℓ} (A : Type ℓ) : Type ℓ where
  ok : A → Result A
  err : DecompressError → Result A

-- `?`
infixl 5 ◌>>=◌
abbrev pub ◌>>=◌ {ℓ κ} : {A : Type ℓ} {B : Type κ} → Result A → (A → Result B) → Result B
err e >>= next = err e
ok a >>= next = next a

pub ok-injective {ℓ} : {A : Type ℓ} (a b : A) → ok a ≡ ok b → a ≡ b
ok-injective a b e = ap (λ r. elim r [ ok x ↦ x | err x ↦ a ]) e

-- A failure is not a success.
pub err-absurd {ℓ κ} : {A : Type ℓ} {B : Type κ} (x : DecompressError) (a : A) → err x ≡ ok a → B
err-absurd x a e = absurd (ground (arith, e))

-- What a `?` that succeeds went through.
pub >>=-ok {ℓ κ} :
    {A : Type ℓ} {B : Type κ} (r : Result A) (f : A → Result B) (b : B)
    → r >>= f ≡ ok b
    → (a : A) × (r ≡ ok a) × (f a ≡ ok b)
>>=-ok (ok a) f b e = (a, refl, e)
>>=-ok (err x) f b e = absurd (ground (arith, e))
