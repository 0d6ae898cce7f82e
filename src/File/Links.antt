-- ===== src/File/Links.antt =====
-- The number of links of a file, and the type that its mode has.
use securefs.Prelude.{
  ℕ, suc, zero, ◌+◌, ◌-◌, ◌^◌, ◌≡◌, ◌<◌, ◌≤◌, refl, ◌∙◌, inl, inr, u32, ◌==◌, ==→eq, Bool-cases,
  arith,
}
use securefs.File.{Timespec, File, set_nlink, unlink, is_unlinked, update_ctime_helper}

module _ {H : Type 0} where
  -- Calls of unlink one after the other.
  abbrev pub unlink_times : Timespec → ℕ → File H → File H
  unlink_times now zero f = f
  unlink_times now (suc n) f = unlink_times now n (unlink now f)

  set_nlink-nlink :
      (now : Timespec) (f : File H) (value : ℕ) → (set_nlink now f value).nlink ≡ value
  unfolding set_nlink update_ctime_helper
  set_nlink-nlink now f value = elim (Bool-cases (f.nlink == value)) [
    | inl unchanged ↦ rw unchanged (==→eq f.nlink value unchanged)
    | inr changed ↦
        rw changed
          (elim (Bool-cases f.store_time) [ inl stored ↦ rw stored refl | inr bare ↦ rw bare refl ])
  ]

  unlink-nlink :
      (now : Timespec) (f : File H)
      → 0 < f.nlink
      → f.nlink < 2 ^ 32
      → (unlink now f).nlink ≡ f.nlink - 1
  unfolding unlink
  unlink-nlink now f pos fits = set_nlink-nlink now f (u32 (f.nlink + (2 ^ 32 - 1))) ∙ omega arith

  -- A file is unlinked when unlink was called as often as it has links, and not before.
  pub is_unlinked-unlink :
      (now : Timespec) (n : ℕ) (f : File H)
      → n ≤ f.nlink
      → f.nlink < 2 ^ 32
      → is_unlinked (unlink_times now n f) ≡ (f.nlink == n)
  unfolding is_unlinked
  is_unlinked-unlink now zero f h fits = refl
  is_unlinked-unlink now (suc n) f h fits =
      let e = unlink-nlink now f (omega arith) fits in
      is_unlinked-unlink now n (unlink now f) (omega (arith, e)) (omega (arith, e))
      ∙ ground (arith, e)
