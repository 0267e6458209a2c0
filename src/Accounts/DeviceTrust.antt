-- ===== src/Accounts/DeviceTrust.antt =====
-- Which devices are trusted: DeviceService of apps/accounts/services.py.
use date_app.Common.{
  ℕ, ◌≡◌, refl, inl, inr, Bool, true, false, not, Option, none, some, ◌∷◌, arith, ==_refl,
  Option-cases, Text, is_empty, first_where, exists_where, update_where, Distinct, exists_of_none,
  first-update_self, Distinct-update, same_text_refl,
}
use date_app.Accounts.Models.{Device, Store}
use date_app.Accounts.Devices.{is_fingerprint, is_device_of, seen_again, new_device, register}

-- The unique constraint of the table.
abbrev pub same_device : Device → Device → Bool
same_device a b = is_fingerprint a.user a.fingerprint b

is_fingerprint_own : (d : Device) → is_fingerprint d.user d.fingerprint d ≡ true
is_fingerprint_own d = ground (arith, ==_refl d.user, same_text_refl d.fingerprint)

module _ (lower title : Text → Text) (is_in : Text → Text → Bool) (now id user : ℕ)
    (fingerprint user_agent : Text) (ip : Option ℕ) (s : Store) where
  abbrev registered : Option Device × Store
  registered = register lower title is_in now id user fingerprint user_agent ip s

  abbrev mine : Device → Bool
  mine = is_fingerprint user fingerprint

  abbrev pub first_device : Device
  first_device =
      new_device lower title is_in now id user fingerprint user_agent ip
        (not (exists_where (is_device_of user) s.devices))

  register_new :
      is_empty fingerprint ≡ false
      → first_where mine s.devices ≡ none
      → registered ≡ (some first_device, record s { devices = first_device ∷ s.devices })
  unfolding register
  register_new f e = rw (f, e) refl

  register_known :
      (d : Device)
      → is_empty fingerprint ≡ false
      → first_where mine s.devices ≡ some d
      → registered ≡ (
        some (seen_again now user_agent ip d),
        record s { devices = update_where mine (seen_again now user_agent ip) s.devices },
      )
  unfolding register
  register_known d f e = rw (f, e) refl

  abbrev known : Device → Device
  known = seen_again now user_agent ip

  mine-known : (d : Device) → mine (known d) ≡ mine d
  unfolding seen_again
  mine-known d = refl

  same_known :
      (a b : Device)
      → (same_device a (known b) ≡ same_device a b) × (same_device (known a) b ≡ same_device a b)
  unfolding seen_again
  same_known a b = (refl, refl)

  first_mine : first_where mine (first_device ∷ s.devices) ≡ some first_device
  unfolding first_where new_device
  first_mine = ground (arith, ==_refl user, same_text_refl fingerprint)

  no_same :
      first_where mine s.devices ≡ none → exists_where (same_device first_device) s.devices ≡ false
  unfolding new_device
  no_same e = exists_of_none mine s.devices e

  -- Registering a browser that names itself gives the member's row for it, which is not revoked: one
  -- that is new is trusted exactly when the member had no device yet, one that was known is trusted
  -- exactly if it was before; and no member has two rows for one browser if none had.
  pub register_trusts :
      is_empty fingerprint ≡ false
      → Distinct same_device s.devices
      → (d : Device) × (registered.0 ≡ some d)
        × (first_where mine registered.1.devices ≡ some d)
        × (d.revoked_at ≡ none)
        × (d.is_trusted ≡ elim (first_where mine s.devices) [
          | none ↦ not (exists_where (is_device_of user) s.devices)
          | some old ↦ old.is_trusted
        ])
        × Distinct same_device registered.1.devices
  unfolding new_device seen_again
  register_trusts f h = elim (Option-cases (first_where mine s.devices)) [
    | inl e ↦ rw (register_new f e, e) (first_device, refl, first_mine, refl, refl, (no_same e, h))
    | inr g ↦
        let (d, e) = g in
        rw (register_known d f e, e)
          (
            known d,
            refl,
            first-update_self mine known s.devices d mine-known e,
            refl,
            refl,
            Distinct-update same_device mine known s.devices (λ x y. (same_known x y).0)
                (λ x y. (same_known x y).1) h,
          )
  ]
