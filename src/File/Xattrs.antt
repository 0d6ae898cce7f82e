-- ===== src/File/Xattrs.antt =====
-- getxattr and setxattr of FileBase: the value encrypted in an attribute of the data stream, the IV
-- and the MAC in the one of the same name of the metadata stream.
use securefs.Prelude.{
  ℕ, ◌+◌, ◌≤◌, ◌≡◌, refl, Bool, ◌&&◌, not, List, [], ◌++◌, Option, none, some, length, take, drop,
  ◌==◌, if◌then◌else◌, length-append, take-append_at, drop-append_at, arith,
}
use mathlib.Core.Bool.{and-false}
use securefs.Error.{Result, ok, throw, ◌>>=◌, ◌>>◌, guard, vfs, efault, eio, xattr_verification}
use securefs.Crypto.{Gcm, GcmLaws, Rng}

-- The extended attributes of a FileStream, which the operating system keeps: the value, its size
-- (for a null pointer as the buffer), and the change.
pub record XattrOps (S : Type 0) : Type 0 where
  pub getxattr : S → List ℕ → ℕ → Result (List ℕ)
  pub sizexattr : S → List ℕ → Result ℕ
  pub setxattr : S → List ℕ → List ℕ → ℕ → Result S
  pub removexattr : S → List ℕ → Result S

-- The documented behaviour: what was stored is handed over to a buffer in which it has room.
pub record XattrLaws {S : Type 0} (o : XattrOps S) : Type 0 where
  pub gets :
      (s s' : S) (name value : List ℕ) (flags size : ℕ)
      → o.setxattr s name value flags ≡ ok s'
      → length value ≤ size
      → o.getxattr s' name size ≡ ok value
  pub sizes :
      (s s' : S) (name value : List ℕ) (flags : ℕ)
      → o.setxattr s name value flags ≡ ok s'
      → o.sizexattr s' name ≡ ok (length value)

abbrev pub xattr_iv_length : ℕ
xattr_iv_length = 16

abbrev pub xattr_mac_length : ℕ
xattr_mac_length = 16

-- What FileBase has for them: m_data_stream, m_meta_stream, the generator, m_xattr_enc and
-- m_xattr_dec, m_id, m_check.
pub record XattrFile (D M R : Type 0) : Type 0 where
  pub data_stream : D
  pub meta_stream : M
  pub rng : R
  pub session : Gcm
  pub id : List ℕ
  pub check : Bool

module _ {D M R : Type 0} (o : XattrOps D) (metas : XattrOps M) (random : Rng R) where
  -- From the value that is stored, and the IV with the MAC.
  unfoldable pub open_xattr : XattrFile D M R → List ℕ → List ℕ → List ℕ → Result (List ℕ × ℕ)
  open_xattr f name ciphertext meta =
      let opened =
        f.session.decrypt_and_verify (take xattr_iv_length meta) (f.id ++ name)
          (drop xattr_iv_length meta) ciphertext in
      if f.check && not opened.1 then throw xattr_verification else ok (opened.0, length ciphertext)

  -- The name, or a null pointer, and the size of the buffer, or a null pointer for it: the bytes that
  -- are written to the buffer, and the number that is returned.
  unfoldable pub getxattr : XattrFile D M R → Option (List ℕ) → Option ℕ → Result (List ℕ × ℕ)
  getxattr f none size = throw (vfs efault)
  getxattr f (some name) none = do true_size ← o.sizexattr f.data_stream name; ok ([], true_size)
  getxattr f (some name) (some size) = do
    ciphertext ← o.getxattr f.data_stream name size
    meta ← metas.getxattr f.meta_stream name (xattr_iv_length + xattr_mac_length)
    guard (length meta == xattr_iv_length + xattr_mac_length) (vfs eio)
    open_xattr f name ciphertext meta

  unfoldable pub setxattr :
      XattrFile D M R → Option (List ℕ) → Option (List ℕ) → ℕ → Result (XattrFile D M R)
  setxattr f none value flags = throw (vfs efault)
  setxattr f (some name) none flags = throw (vfs efault)
  setxattr f (some name) (some value) flags = do
    let drawn = random.generate_random f.rng xattr_iv_length
    let sealed = f.session.encrypt_and_authenticate drawn.0 (f.id ++ name) value
    data_stream ← o.setxattr f.data_stream name sealed.0 flags
    meta_stream ← metas.setxattr f.meta_stream name (drawn.0 ++ sealed.1) flags
    ok (record f { data_stream = data_stream; meta_stream = meta_stream; rng = drawn.1 })

  unfoldable pub removexattr : XattrFile D M R → List ℕ → Result (XattrFile D M R)
  removexattr f name = do
    data_stream ← o.removexattr f.data_stream name
    meta_stream ← metas.removexattr f.meta_stream name
    ok (record f { data_stream = data_stream; meta_stream = meta_stream })

  module _ (above : XattrLaws o) (below : XattrLaws metas)
      (full : (r : R) (n : ℕ) → length (random.generate_random r n).0 ≡ n) where
    -- If both streams take an attribute of the file, setxattr returns, and getxattr then hands over the
    -- value to any buffer in which it has room, and its size, also when no buffer is given.
    pub getxattr-setxattr :
        (f : XattrFile D M R) (name value : List ℕ) (flags size : ℕ) (d : D) (m : M)
        → GcmLaws f.session
        → o.setxattr f.data_stream name
            (f.session.encrypt_and_authenticate
              (random.generate_random f.rng 16).0
              (f.id ++ name)
              value).0
            flags
          ≡ ok d
        → metas.setxattr f.meta_stream name
            ((random.generate_random f.rng 16).0
              ++ (f.session.encrypt_and_authenticate
                  (random.generate_random f.rng 16).0
                  (f.id ++ name)
                  value).1)
            flags
          ≡ ok m
        → length value ≤ size
        → (f' : XattrFile D M R) × (setxattr f (some name) (some value) flags ≡ ok f')
          × (getxattr f' (some name) (some size) ≡ ok (value, length value))
          × (getxattr f' (some name) none ≡ ok ([], length value))
    unfolding getxattr setxattr open_xattr
    getxattr-setxattr f name value flags size d m g stored stored_meta room =
        let drawn = random.generate_random f.rng 16 in
        let iv = drawn.0 in
        let sealed = f.session.encrypt_and_authenticate iv (f.id ++ name) value in
        let li = full f.rng 16 in
        let same_length = g.length_ciphertext iv (f.id ++ name) value in
        let n : length (iv ++ sealed.1) ≡ 32 =
          omega (arith, li, g.length_mac iv (f.id ++ name) value, length-append iv sealed.1) in
        (
          record f { data_stream = d; meta_stream = m; rng = drawn.1 },
          rw (stored, stored_meta) refl,
          rw
              (
                above.gets f.data_stream d name sealed.0 flags size stored (omega arith),
                below.gets f.meta_stream m name (iv ++ sealed.1) flags 32 stored_meta
                    (omega (arith, n)),
                n,
                take-append_at 16 iv sealed.1 li,
                drop-append_at 16 iv sealed.1 li,
                g.decrypts iv (f.id ++ name) value,
                and-false,
                same_length,
              )
              refl,
          rw (above.sizes f.data_stream d name sealed.0 flags stored, same_length) refl,
        )
