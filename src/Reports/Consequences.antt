-- ===== src/Reports/Consequences.antt =====
-- What a report does: ReportService.create of apps/reports/services.py.
use date_app.Common.{
  ℕ, ◌≡◌, refl, ap, ◌∙◌, ◌⊎◌, inl, inr, true, false, some, ◌∷◌, ◌++◌, arith, leb, ◌==◌, Bool-cases,
  Option-cases, Text, codes, first_where, exists_where, first_where-holds, exists_of_first, ok, err,
  ZynoraError, decimal,
}
use date_app.Accounts.Models.{User, is_id}
use date_app.Accounts.Lifecycle.{ban, account_exists, is_active_member}
use date_app.Accounts.Standing.{ban_bars, ban_found}
use date_app.Reports.Models.{Report, Store}
use date_app.Reports.Blocks.{is_block, inserted}
use date_app.Reports.Coherence.{block_new, block_old}
use date_app.Reports.Filing.{
  recent_reporters, check_threshold, Filing, is_repeat, new_report, add_report, announce, shield,
  file, create,
}

-- Whatever a block does, it leaves the reports and the accounts.
shield_returns :
    (f : Filing) (s : Store)
    → (f.reporter == f.reported) ≡ false
    → (t : Store) × (shield f s ≡ (ok tt, t)) × (t.reports ≡ s.reports) × (t.accounts ≡ s.accounts)
unfolding shield inserted
shield_returns f s d = elim (Bool-cases f.also_block) [
  | inr e ↦ (s, ground arith, refl, refl)
  | inl e ↦ elim (Option-cases (first_where (is_block f.reporter f.reported) s.blocks)) [
    | inl o ↦ (
      inserted f.reporter f.reported (codes "reported") true s,
      rw e (ground (arith, block_new f.reporter f.reported (codes "reported") true s d o)),
      refl,
      refl,
    )
    | inr (k, o) ↦ (
      s,
      rw e (ground (arith, block_old f.reporter f.reported (codes "reported") true s k d o)),
      refl,
      refl,
    )
  ]
]

module _ (now user : ℕ) (s : Store) where
  threshold_kept :
      leb 5 (recent_reporters now user s.reports) ≡ false → check_threshold now user s ≡ (ok tt, s)
  unfolding check_threshold
  threshold_kept h = ground arith

  abbrev suspension : Text
  suspension =
      codes "Automatically suspended after "
      ++ decimal (recent_reporters now user s.reports)
      ++ codes " reports"

  threshold_suspends :
      (u : User)
      → leb 5 (recent_reporters now user s.reports) ≡ true
      → first_where (is_id user) s.accounts.users ≡ some u
      → check_threshold now user s
        ≡ (ok tt, record s { accounts = (ban user suspension false s.accounts).1 })
  unfolding check_threshold
  threshold_suspends u h e = ground (arith, ban_found user s.accounts u e suspension false)

module _ (now : ℕ) (today : Text) (id case : ℕ) (f : Filing) (s : Store) where
  create_self :
      (f.reporter == f.reported) ≡ true
      → create now today id case f s
        ≡ (err (ZynoraError.validation_error "You cannot report yourself."), s)
  unfolding create
  create_self d = ground arith

  create_unknown :
      (f.reporter == f.reported) ≡ false
      → account_exists f.reported s.accounts ≡ false
      → create now today id case f s
        ≡ (err (ZynoraError.not_found "That member does not exist."), s)
  unfolding create
  create_unknown d k = ground arith

  create_repeat :
      (f.reporter == f.reported) ≡ false
      → account_exists f.reported s.accounts ≡ true
      → exists_where (is_repeat now f) s.reports ≡ true
      → create now today id case f s
        ≡ (err (ZynoraError.validation_error "You have already reported this person today."), s)
  unfolding create
  create_repeat d k r = ground arith

  create_files :
      (r : Report) (t : Store)
      → (f.reporter == f.reported) ≡ false
      → account_exists f.reported s.accounts ≡ true
      → exists_where (is_repeat now f) s.reports ≡ false
      → file now today id case f s ≡ (ok r, t)
      → create now today id case f s ≡ (ok r, t)
  unfolding create
  create_files r t d k n e = ground (arith, e)

  file_after :
      (t w : Store)
      → shield f (add_report now id f s) ≡ (ok tt, t)
      → check_threshold now f.reported (announce now today id case f t) ≡ (ok tt, w)
      → file now today id case f s ≡ (ok (new_report now id f), w)
  unfolding file
  file_after t w e k = ground (arith, e, k)

  abbrev pub standing : ℕ
  standing = recent_reporters now f.reported (new_report now id f ∷ s.reports)

  file_keeps :
      (f.reporter == f.reported) ≡ false
      → leb 5 standing ≡ false
      → (t : Store) × (file now today id case f s ≡ (ok (new_report now id f), t))
        × (t.accounts ≡ s.accounts)
  unfolding file
  file_keeps d n =
      let (t, e, p, q) = shield_returns f (add_report now id f s) d in
      let k = threshold_kept now f.reported (announce now today id case f t) (rw p n) in
      (announce now today id case f t, file_after t _ e k, q)

  file_suspends :
      (u : User)
      → (f.reporter == f.reported) ≡ false
      → first_where (is_id f.reported) s.accounts.users ≡ some u
      → leb 5 standing ≡ true
      → (t : Store) × (file now today id case f s ≡ (ok (new_report now id f), t))
        × (is_active_member f.reported t.accounts ≡ false)
  unfolding file
  file_suspends u d k n =
      let (t, e, p, q) = shield_returns f (add_report now id f s) d in
      let v = announce now today id case f t in
      let row = ap (λ x. first_where (is_id f.reported) x.users) q ∙ k in
      let z = threshold_suspends now f.reported v u (rw p n) row in
      let reason = suspension now f.reported v in
      (
        record v { accounts = (ban f.reported reason false v.accounts).1 },
        file_after t _ e z,
        (ban_bars f.reported reason false v.accounts u row).2,
      )

  -- A report that is refused, against oneself, against an unknown member or within a day of the last,
  -- writes nothing.
  pub create_refuses :
      (f.reporter == f.reported) ≡ true
        ⊎ ((account_exists f.reported s.accounts ≡ false)
            ⊎ (exists_where (is_repeat now f) s.reports ≡ true))
      → ((e : ZynoraError) × ((create now today id case f s).0 ≡ err e))
        × ((create now today id case f s).1 ≡ s)
  create_refuses h = elim (Bool-cases (f.reporter == f.reported)) [
    | inl d ↦ rw (create_self d) ((_, refl), refl)
    | inr d ↦ elim (Bool-cases (account_exists f.reported s.accounts)) [
      | inr k ↦ rw (create_unknown d k) ((_, refl), refl)
      | inl k ↦ rw (create_repeat d k (ground arith)) ((_, refl), refl)
    ]
  ]

  known :
      (u : User)
      → first_where (is_id f.reported) s.accounts.users ≡ some u
      → account_exists f.reported s.accounts ≡ true
  unfolding account_exists
  known u k =
      exists_of_first (is_id f.reported) (is_id f.reported) s.accounts.users u k
        (first_where-holds (is_id f.reported) s.accounts.users u k)

  -- A report against an existing member that is not a repeat is filed. With it, five different members
  -- or more have reported the member in seven days, and then the member is no active member after the
  -- call; or fewer have, and then no account changes.
  pub create_suspends :
      (u : User)
      → (f.reporter == f.reported) ≡ false
      → first_where (is_id f.reported) s.accounts.users ≡ some u
      → exists_where (is_repeat now f) s.reports ≡ false
      → let (r, t) = create now today id case f s in
        (r ≡ ok (new_report now id f))
        × (leb 5 standing ≡ true → is_active_member f.reported t.accounts ≡ false)
        × (leb 5 standing ≡ false → t.accounts ≡ s.accounts)
  create_suspends u d k r = elim (Bool-cases (leb 5 standing)) [
    | inl n ↦
        let (t, e, a) = file_suspends u d k n in
        rw (create_files _ t d (known u k) r e) (refl, λ _. a, λ m. absurd (ground arith))
    | inr n ↦
        let (t, e, a) = file_keeps d n in
        rw (create_files _ t d (known u k) r e) (refl, λ m. absurd (ground arith), λ _. a)
  ]
