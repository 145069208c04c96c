-- ===== src/Error.antt =====
-- The errors of rust/fcb_core/src/static_btree/error.rs, without their messages, and results.
use flatcitybuf.Prelude.{◌≡◌, refl}

pub data Error : Type 0 where
  io_error : Error
  invalid_format : Error
  key_serialization_error : Error
  key_deserialization_error : Error
  build_error : Error
  query_error : Error
  not_implemented : Error
  other : Error
  http_error : Error
  payload_offset_not_in_cache : Error

-- `panic` is a failed assertion, an index out of range or an arithmetic overflow.
-- `out_of_fuel` is no result of the program: a loop of the model ran out of rounds.
pub data Result {ℓ} (A : Type ℓ) : Type ℓ where
  ok : A → Result A
  err : Error → Result A
  panic : Result A
  out_of_fuel : Result A

infixl 5 ◌>>=◌
abbrev pub ◌>>=◌ {ℓ κ} : {A : Type ℓ} {B : Type κ} → Result A → (A → Result B) → Result B
ok a >>= f = f a
err e >>= f = err e
panic >>= f = panic
out_of_fuel >>= f = out_of_fuel

abbrev pub map_ok {ℓ κ} : {A : Type ℓ} {B : Type κ} → (A → B) → Result A → Result B
map_ok f (ok a) = ok (f a)
map_ok f (err e) = err e
map_ok f panic = panic
map_ok f out_of_fuel = out_of_fuel

pub ok_inj {ℓ} : {A : Type ℓ} {a b : A} → ok a ≡ ok b → a ≡ b
ok_inj h = cc

-- The first part of a chain that succeeds has succeeded.
pub ok_of_bind {ℓ κ} :
    {A : Type ℓ} {B : Type κ} {f : A → Result B} {b : B} (r : Result A)
    → (r >>= f) ≡ ok b
    → (a : A) × (r ≡ ok a) × (f a ≡ ok b)
ok_of_bind (ok a) h = (a, refl, h)
ok_of_bind (err e) h = absurd cc
ok_of_bind panic h = absurd cc
ok_of_bind out_of_fuel h = absurd cc
