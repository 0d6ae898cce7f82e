-- ===== src/Error.antt =====
-- The exceptions of sources/exceptions.h and of the components that derive from them, with the
-- error number that each reports to the operating system, and results that may be exceptions.
use securefs.Prelude.{ℕ, Bool, true, false, ◌≡◌, ap}

-- The numbers of <errno.h> that the code uses.
pub data Errno : Type 0 where
  eperm enoent eio efault eexist enotdir eisdir einval efbig erofs enametoolong enotempty : Errno
  enotsup : Errno

-- Messages are left out.
pub data Exception : Type 0 where
  vfs : Errno → Exception
  posix : Errno → Exception
  invalid_argument : Exception
  corrupted_metadata : Exception
  invalid_hmac_stream : Exception
  message_verification : ℕ → Exception
  xattr_verification : Exception
  lite_message_verification : Exception
  stream_too_long : ℕ → ℕ → Exception
  invalid_cast : Exception
  file_type_inconsistency : Exception
  corrupted_directory : Exception
  invalid_filename : Exception
  std_out_of_range : Exception
  std_runtime_error : Exception

-- ExceptionBase::error_number and its overrides; a handler takes EPERM for what derives from
-- std::exception alone.
unfoldable pub error_number : Exception → Errno
error_number (vfs e) = e
error_number (posix e) = e
error_number invalid_argument = einval
error_number invalid_filename = einval
error_number (stream_too_long most size) = efbig
error_number _ = eperm

-- `undefined` is what a read outside a buffer gives: C++ does not say what happens then. `stuck` is
-- no C++ outcome: a loop of the model ran out of fuel.
pub data Result {ℓ} (A : Type ℓ) : Type ℓ where
  ok : A → Result A
  throw : Exception → Result A
  undefined : Result A
  stuck : Result A

value_or {ℓ} : {A : Type ℓ} → Result A → A → A
value_or (ok a) d = a
value_or _ d = d

pub ok-injective {ℓ} : {A : Type ℓ} {a b : A} → ok a ≡ ok b → a ≡ b
unfolding value_or
ok-injective {a = a} e = ap (λ r. value_or r a) e

infixl 5 ◌>>=◌ ◌>>◌
abbrev pub ◌>>=◌ {ℓ κ} : {A : Type ℓ} {B : Type κ} → Result A → (A → Result B) → Result B
ok a >>= f = f a
throw e >>= f = throw e
undefined >>= f = undefined
stuck >>= f = stuck

abbrev pub ◌>>◌ {ℓ} : {B : Type ℓ} → Result (Unit {0}) → Result B → Result B
m >> k = m >>= λ _. k

-- `if (!b) throw e;`
abbrev pub guard : Bool → Exception → Result (Unit {0})
guard true e = ok tt
guard false e = throw e
